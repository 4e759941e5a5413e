-- ===== src/Cases/Effects.antt =====
-- What one call of the case service means for the next (internal/case/service.go and memory_store.go).
use opspilot_go_dev_kit.Prelude.{
  ℕ, String, Bool, if◌then◌else◌, ◌≡◌, ◌≢◌, inl, inr, refl, sym, ap, ◌∙◌, subst, false, ◌||◌, not,
  some, List, [], ◌∷◌, ◌++◌, Result, ok, err, arith, take, eqb, Bool-cases, Option-cases, or_else,
  ◌==◌,
}
use opspilot_go_dev_kit.Prelude.Clock.{next_uint64}
use opspilot_go_dev_kit.Prelude.Strings.{trim_space}
use opspilot_go_dev_kit.Prelude.Dict.{find, put, find-put_self}
use opspilot_go_dev_kit.Prelude.Paging.{ℤ, page_limit}
use opspilot_go_dev_kit.Cases.Types.{
  Case, Note, case_not_found, invalid_case_state, case_conflict, invalid_note, status_open,
  status_closed,
}
use opspilot_go_dev_kit.Cases.Memory.{
  MemoryStore, list_notes, notes_of, append_note, assign, unassign, assigned, new_case_note_id,
}
use opspilot_go_dev_kit.Cases.Memory.Notes.{newest_first, last_notes_lem}
use opspilot_go_dev_kit.Cases.Service.{
  add_note, list_case_notes, assign_case, unassign_case, fallback_string,
}

newest_first-snoc : (ns : List Note) (n : Note) → newest_first (ns ++ n ∷ []) ≡ n ∷ newest_first ns
newest_first-snoc [] n = refl
newest_first-snoc (m ∷ ns) n = ap (λ r. r ++ m ∷ []) (newest_first-snoc ns n)

list_notes_found :
    (id : String) (limit : ℤ) (c : Case) (s : MemoryStore)
    → find id s.records ≡ some c
    → list_notes id limit s ≡ ok (take (page_limit limit) (newest_first (notes_of id s)))
unfolding list_notes
list_notes_found id limit c s e =
    rw (e, list_notes) (ap ok (last_notes_lem (page_limit limit) (notes_of id s)))

-- The case as `AppendNote` leaves it, and its notes.
append_note-effect :
    (n note : Note) (s : MemoryStore)
    → (append_note n s).0 ≡ ok note
    → (n ≡ note)
      × ((c : Case) × (find n.case_id (append_note n s).1.records ≡ some c))
      × (notes_of n.case_id (append_note n s).1 ≡ notes_of n.case_id s ++ n ∷ [])
unfolding append_note
append_note-effect n note s h = elim (Option-cases (find n.case_id s.records)) [
  | inl e ↦ absurd (
      let x : Result.err (case_not_found n.case_id) ≡ Result.ok note = (rw (e, append_note) at h) in
      cc)
  | inr (c, e) ↦
      let x : Result.ok n ≡ ok note = (rw (e, append_note) at h) in
      let c' : Case = record c { updated_at = n.created_at } in
      (
        (let n_eq : n ≡ note = cc in n_eq),
        (c', rw (e, append_note) (find-put_self n.case_id c' s.records)),
        rw (e, append_note)
            (ap (λ o. or_else o [])
              (find-put_self n.case_id (notes_of n.case_id s ++ n ∷ []) s.notes)),
      )
]

append_note-listed :
    (n note : Note) (s : MemoryStore) (limit : ℤ)
    → (append_note n s).0 ≡ ok note
    → list_notes n.case_id limit (append_note n s).1
      ≡ ok (take (page_limit limit) (note ∷ newest_first (notes_of n.case_id s)))
append_note-listed n note s limit h =
    let (n_eq, (c, e), notes) = append_note-effect n note s h in
    list_notes_found n.case_id limit c (append_note n s).1 e
    ∙ ap (λ ns. ok (take (page_limit limit) ns))
        (ap newest_first notes
          ∙ (newest_first-snoc (notes_of n.case_id s) n
              ∙ ap (λ m. m ∷ newest_first (notes_of n.case_id s)) n_eq))

-- A note that `AddNote` accepted is the first that `ListCaseNotes` shows, in front of the earlier notes of
-- the case, the newest first, as many of them as the limit lets through.
pub add_note-listed :
    (now : ℕ) (existing : Case) (body author : String) (note : Note) (s : MemoryStore) (limit : ℤ)
    → (add_note now existing body author s).0 ≡ ok note
    → list_case_notes existing.id limit (add_note now existing body author s).1
      ≡ ok (take (page_limit limit) (note ∷ newest_first (notes_of existing.id s)))
unfolding add_note list_case_notes
add_note-listed now c body author note s limit h =
    let n = next_uint64 s.case_note_id_sequence in
    elim (Bool-cases (trim_space body == "")) [
      | inl e ↦
          absurd (let x : Result.err invalid_note ≡ Result.ok note = (rw (e, add_note) at h) in cc)
      | inr e ↦
          rw (e, add_note)
            (append_note-listed
              (record {
                id = new_case_note_id now n;
                tenant_id = c.tenant_id;
                case_id = c.id;
                body = trim_space body;
                created_by = fallback_string (trim_space author) "operator";
                created_at = now;
              })
              note (record s { case_note_id_sequence = n }) limit (rw (e, add_note) at h))
    ]

-- What a write under a key makes of the calls that look the key up.
get-put :
    (id : String) (c : Case) (s : MemoryStore)
    → find id (record s { records = put id c s.records }).records ≡ some c
get-put id c s = find-put_self id c s.records

assign-conflict :
    (id to : String) (now expected : ℕ) (c : Case) (s : MemoryStore)
    → find id s.records ≡ some c
    → (c.status == status_closed) ≡ false
    → c.updated_at ≢ expected
    → assign id to now expected s ≡ (err case_conflict, s)
unfolding assign
assign-conflict id to now expected c s e t n =
    let stale : eqb c.updated_at expected ≡ false = ground arith in rw (e, assign, t, stale)

unassign-conflict :
    (id by : String) (now expected : ℕ) (c : Case) (s : MemoryStore)
    → find id s.records ≡ some c
    → (c.status == status_closed) ≡ false
    → (c.assigned_to == "") ≡ false
    → c.updated_at ≢ expected
    → unassign id by now expected s ≡ (err case_conflict, s)
unfolding unassign
unassign-conflict id by now expected c s e t busy n =
    let stale : eqb c.updated_at expected ≡ false = ground arith in rw (e, unassign, t, busy, stale)

operator_given : (name : String) → (fallback_string name "operator" == "") ≡ false
unfolding fallback_string
operator_given name = elim (Bool-cases (name == "")) [
  | inl e ↦ rw (fallback_string, e)
  | inr e ↦ rw (fallback_string, e) e
]

-- The guard of `UnassignCase` on the case that was read.
abbrev pub returnable : Case → Bool
returnable c = not (not (c.status == status_open) || trim_space c.assigned_to == "")

-- The case that an accepted `Assign` leaves.
assign-effect :
    (id to : String) (now expected : ℕ) (c : Case) (s : MemoryStore)
    → (assign id to now expected s).0 ≡ ok c
    → (find id (assign id to now expected s).1.records ≡ some c)
      × ((c.status == status_closed) ≡ false)
      × (c.updated_at ≡ now)
      × (c.assigned_to ≡ to)
unfolding assign
assign-effect id to now expected c s h = elim (Option-cases (find id s.records)) [
  | inl e ↦
      absurd (let x : Result.err (case_not_found id) ≡ Result.ok c = (rw (e, assign) at h) in cc)
  | inr (d, e) ↦ elim (Bool-cases (d.status == status_closed)) [
    | inl t ↦
        absurd
          (let x : Result.err invalid_case_state ≡ Result.ok c = (rw (e, assign, t) at h) in cc)
    | inr t ↦ elim (Bool-cases (eqb d.updated_at expected)) [
      | inr stale ↦
          absurd
            (let x : Result.err case_conflict ≡ Result.ok c = (rw (e, assign, t, stale) at h) in cc)
      | inl same ↦
          let x : Result.ok (assigned now to d) ≡ ok c = (rw (e, assign, t, same) at h) in
          let c_eq : assigned now to d ≡ c = cc in
          (
            rw (e, assign, t, same) (find-put_self id (assigned now to d) s.records ∙ ap some c_eq),
            subst (λ x. (x.status == status_closed) ≡ false) c_eq t,
            sym (ap (λ x. x.updated_at) c_eq),
            sym (ap (λ x. x.assigned_to) c_eq),
          )
    ]
  ]
]

-- Of two callers who read the same case, one assigned it, at another instant than the case that they read
-- was updated at. The other's `AssignCase` is then refused as a conflict, and so is an `UnassignCase` of
-- what was read, where that was open and assigned; where it was not, the state is refused. Each of the
-- two calls leaves the store as it is.
pub assign_case-stale :
    (now later : ℕ) (existing c : Case) (to other : String) (s : MemoryStore)
    → (assign_case now existing to s).0 ≡ ok c
    → now ≢ existing.updated_at
    → let s' = (assign_case now existing to s).1 in
      (assign_case later existing other s' ≡ (err case_conflict, s'))
      × (unassign_case later existing other s'
          ≡ (err (if returnable existing then case_conflict else invalid_case_state), s'))
unfolding assign_case unassign_case
assign_case-stale now later existing c to other s h n =
    let by = fallback_string (trim_space to) "operator" in
    let s' = (assign existing.id by now existing.updated_at s).1 in
    let (e, t, u, a) = assign-effect existing.id by now existing.updated_at c s h in
    let n' : c.updated_at ≢ existing.updated_at = (λ q. n (sym u ∙ q)) in
    let busy : (c.assigned_to == "") ≡ false =
      ap (λ x. x == "") a ∙ operator_given (trim_space to) in
    (
      assign-conflict existing.id (fallback_string (trim_space other) "operator") later
          existing.updated_at c s' e t n',
      elim (Bool-cases
          (not (existing.status == status_open) || trim_space existing.assigned_to == "")) [
            | inl r ↦ rw (r, unassign_case)
            | inr r ↦
                rw (r, unassign_case)
                  (unassign-conflict existing.id (fallback_string (trim_space other) "operator")
                    later existing.updated_at c s' e t busy n')
          ],
    )
