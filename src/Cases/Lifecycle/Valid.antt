-- ===== src/Cases/Lifecycle/Valid.antt =====
-- The well-formedness of the case store, step by step (internal/case/service.go and memory_store.go).
use opspilot_go_dev_kit.Prelude.{
  ℕ, String, Bool, ◌≡◌, ◌≢◌, inl, inr, refl, Bool-cases, Option-cases, ◌==◌, ◌<>◌, not, ◌||◌, eqb,
}
use opspilot_go_dev_kit.Prelude.Clock.{next_uint64}
use opspilot_go_dev_kit.Prelude.Strings.{trim_space}
use opspilot_go_dev_kit.Prelude.Dict.{find, put, values, find-put_self, find_key}
use opspilot_go_dev_kit.Cases.Types.{Case, Note, CreateInput, status_open, status_closed}
use opspilot_go_dev_kit.Cases.Memory.{
  MemoryStore, new_memory_store, save_or_reuse_open_eval_run_case, first_where, is_open_for_run,
  close, reopen, assign, unassign, append_note, store_note, push_note, notes_of, set_record, save,
  new_case_note_id,
}
use opspilot_go_dev_kit.Cases.Memory as Ops
use opspilot_go_dev_kit.Cases.Service.{
  create_case_with_outcome, close_case, reopen_case, assign_case, unassign_case, add_note,
  created_case, fallback_string, new_case_id,
}
use opspilot_go_dev_kit.Cases.Lifecycle.{
  Step, created, closed, reopened, assigned, unassigned, noted, Reach, started, then_step,
  IsSettled, IsValid,
}
use opspilot_go_dev_kit.Cases.Lifecycle.Writes.{
  fallback_operator, write-IsValid, write_key-IsValid, note-IsValid, counters-IsValid, new-IsValid,
}

closed-IsValid :
    (id by : String) (now : ℕ) (s : MemoryStore)
    → by ≢ ""
    → IsValid s
    → IsValid (close id by now s).1
unfolding close
closed-IsValid id by now s ne v = elim (Option-cases (find id s.records)) [
  | inl e ↦ rw (e, close) v
  | inr (c, e) ↦ elim (Bool-cases (c.status == status_closed)) [
    | inl t ↦ rw (e, close, t) v
    | inr t ↦
        rw (e, close, t)
          (write_key-IsValid id (Ops.closed now by c) s
            (find_key (λ c. c.id) id c s.records v.keyed.0 e) (inr (refl, ne)) v)
  ]
]

assigned-IsValid :
    (id to : String) (now expected : ℕ) (s : MemoryStore)
    → IsValid s
    → IsValid (assign id to now expected s).1
unfolding assign
assigned-IsValid id to now expected s v = elim (Option-cases (find id s.records)) [
  | inl e ↦ rw (e, assign) v
  | inr (c, e) ↦ elim (Bool-cases (c.status == status_closed)) [
    | inl t ↦ rw (e, assign, t) v
    | inr t ↦ elim (Bool-cases (eqb c.updated_at expected)) [
      | inl same ↦
          rw (e, assign, t, same)
            (write_key-IsValid id (Ops.assigned now to c) s
              (find_key (λ c. c.id) id c s.records v.keyed.0 e) (v.settled id c e) v)
      | inr stale ↦ rw (e, assign, t, stale) v
    ]
  ]
]

-- A case written under its key, and a note for it.
noted-IsValid :
    (id : String) (c : Case) (body author : String) (now : ℕ) (s : MemoryStore)
    → c.id ≡ id
    → IsSettled c
    → IsValid s
    → IsValid (store_note id c body author now (record s { records = put id c s.records }))
noted-IsValid id c body author now s k h v =
    let s₁ : MemoryStore = record s { records = put id c s.records } in
    note-IsValid id c
      (record {
        id = new_case_note_id now (next_uint64 s.case_note_id_sequence);
        tenant_id = c.tenant_id;
        case_id = c.id;
        body = body;
        created_by = author;
        created_at = now;
      })
      (next_uint64 s.case_note_id_sequence) s₁ (find-put_self id c s.records) k
      (write_key-IsValid id c s k h v)

reopened-IsValid :
    (id by : String) (now : ℕ) (s : MemoryStore) → IsValid s → IsValid (reopen id by now s).1
unfolding reopen
reopened-IsValid id by now s v = elim (Option-cases (find id s.records)) [
  | inl e ↦ rw (e, reopen) v
  | inr (c, e) ↦ elim (Bool-cases (c.status == status_closed)) [
    | inl t ↦
        rw (e, reopen, t)
          (noted-IsValid id (Ops.reopened now c) ("case reopened by " <> by) by now s
            (find_key (λ c. c.id) id c s.records v.keyed.0 e) (inl (refl, refl)) v)
    | inr t ↦ rw (e, reopen, t) v
  ]
]

unassigned-IsValid :
    (id by : String) (now expected : ℕ) (s : MemoryStore)
    → IsValid s
    → IsValid (unassign id by now expected s).1
unfolding unassign
unassigned-IsValid id by now expected s v = elim (Option-cases (find id s.records)) [
  | inl e ↦ rw (e, unassign) v
  | inr (c, e) ↦ elim (Bool-cases (c.status == status_closed)) [
    | inl t ↦ rw (e, unassign, t) v
    | inr t ↦ elim (Bool-cases (c.assigned_to == "")) [
      | inl free ↦ rw (e, unassign, t, free) v
      | inr busy ↦ elim (Bool-cases (eqb c.updated_at expected)) [
        | inl same ↦
            rw (e, unassign, t, busy, same)
              (noted-IsValid id (Ops.unassigned now c) ("case returned to queue by " <> by) by now s
                (find_key (λ c. c.id) id c s.records v.keyed.0 e) (v.settled id c e) v)
        | inr stale ↦ rw (e, unassign, t, busy, stale) v
      ]
    ]
  ]
]

appended-IsValid : (note : Note) (s : MemoryStore) → IsValid s → IsValid (append_note note s).1
unfolding append_note
appended-IsValid note s v = elim (Option-cases (find note.case_id s.records)) [
  | inl e ↦ rw (e, append_note) v
  | inr (c, e) ↦
      let c' : Case = record c { updated_at = note.created_at } in
      let k : c.id ≡ note.case_id = find_key (λ c. c.id) note.case_id c s.records v.keyed.0 e in
      rw (e, append_note)
        (note-IsValid note.case_id c' note s.case_note_id_sequence
          (record s { records = put note.case_id c' s.records })
          (find-put_self note.case_id c' s.records) refl
          (write_key-IsValid note.case_id c' s k (v.settled note.case_id c e) v))
]

saved-IsValid :
    (c : Case) (s : MemoryStore)
    → IsSettled c
    → IsValid s
    → IsValid (save_or_reuse_open_eval_run_case c s).1
unfolding save_or_reuse_open_eval_run_case
saved-IsValid c s h v = elim (Option-cases (first_where (is_open_for_run c) (values s.records))) [
  | inl e ↦ rw (e, save_or_reuse_open_eval_run_case) (write-IsValid c s h v)
  | inr (d, e) ↦ rw (e, save_or_reuse_open_eval_run_case) v
]

created-IsValid :
    (now : ℕ) (input : CreateInput) (s : MemoryStore)
    → IsValid s
    → IsValid (create_case_with_outcome now input s).1
unfolding create_case_with_outcome save created_case
created-IsValid now input s v =
    let n = next_uint64 s.case_id_sequence in
    let c = created_case now (new_case_id now n) input in
    let s₁ : MemoryStore = record s { case_id_sequence = n } in
    let v₁ = counters-IsValid n s.case_note_id_sequence s v in
    elim (Bool-cases (c.source_eval_run_id == "")) [
      | inl e ↦ rw (e, create_case_with_outcome) (write-IsValid c s₁ (inl (refl, refl)) v₁)
      | inr e ↦ rw (e, create_case_with_outcome) (saved-IsValid c s₁ (inl (refl, refl)) v₁)
    ]

add_note-IsValid :
    (now : ℕ) (c : Case) (body author : String) (s : MemoryStore)
    → IsValid s
    → IsValid (add_note now c body author s).1
unfolding add_note
add_note-IsValid now c body author s v =
    let n = next_uint64 s.case_note_id_sequence in
    elim (Bool-cases (trim_space body == "")) [
      | inl e ↦ rw (e, add_note) v
      | inr e ↦
          rw (e, add_note)
            (appended-IsValid
              (record {
                id = new_case_note_id now n;
                tenant_id = c.tenant_id;
                case_id = c.id;
                body = trim_space body;
                created_by = fallback_string (trim_space author) "operator";
                created_at = now;
              })
              (record s { case_note_id_sequence = n }) (counters-IsValid s.case_id_sequence n s v))
    ]

unassign_case-IsValid :
    (now : ℕ) (c : Case) (by : String) (s : MemoryStore)
    → IsValid s
    → IsValid (unassign_case now c by s).1
unfolding unassign_case
unassign_case-IsValid now c by s v =
    elim (Bool-cases (not (c.status == status_open) || trim_space c.assigned_to == "")) [
      | inl e ↦ rw (e, unassign_case) v
      | inr e ↦
          rw (e, unassign_case)
            (unassigned-IsValid c.id (fallback_string (trim_space by) "operator") now c.updated_at s
              v)
    ]

step-IsValid : {b : Bool} {s s' : MemoryStore} → Step b s s' → IsValid s → IsValid s'
unfolding close_case reopen_case assign_case
step-IsValid {b} {s} (created now input) v = created-IsValid now input s v
step-IsValid {b} {s} (closed now id by) v =
    closed-IsValid id (fallback_string by "operator") now s (fallback_operator by) v
step-IsValid {b} {s} (reopened now id by) v =
    reopened-IsValid id (fallback_string (trim_space by) "operator") now s v
step-IsValid {b} {s} (assigned now c to) v =
    assigned-IsValid c.id (fallback_string (trim_space to) "operator") now c.updated_at s v
step-IsValid {b} {s} (unassigned now c by) v = unassign_case-IsValid now c by s v
step-IsValid {b} {s} (noted now c body author) v = add_note-IsValid now c body author s v

-- Whatever calls of the case service follow each other from its start, with whatever arguments: each
-- case stands once and under its id, it is open and without a name in `ClosedBy` or closed with one,
-- and every note is kept for a case that exists and names that case.
pub Reach-IsValid : {b : Bool} {s : MemoryStore} → Reach b s → IsValid s
Reach-IsValid started = new-IsValid
Reach-IsValid (then_step r t) = step-IsValid t (Reach-IsValid r)
