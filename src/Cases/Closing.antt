-- ===== src/Cases/Closing.antt =====
-- What may happen to a case that was closed (internal/case/service.go and memory_store.go).
use opspilot_go_dev_kit.Prelude.{
  ℕ, String, ◌≡◌, inl, inr, refl, sym, ap, ◌∙◌, subst, true, false, some, Result, ok, err,
  Option-cases, ◌==◌,
}
use opspilot_go_dev_kit.Prelude.Strings.{trim_space}
use opspilot_go_dev_kit.Prelude.Dict.{find, put, find-put_self}
use opspilot_go_dev_kit.Cases.Types.{
  Case, case_not_found, invalid_case_state, status_open, status_closed,
}
use opspilot_go_dev_kit.Cases.Memory.{MemoryStore, get, close, closed, reopen, reopened, assign}
use opspilot_go_dev_kit.Cases.Service.{
  get_case, close_case, reopen_case, assign_case, fallback_string,
}

found_case :
    (id : String) (c : Case) (s : MemoryStore) → get_case id s ≡ ok c → find id s.records ≡ some c
unfolding get_case get
found_case id c s h = elim (Option-cases (find id s.records)) [
  | inl e ↦
      absurd
        (let x : Result.err (case_not_found id) ≡ Result.ok c = (rw (e, get_case, get) at h) in cc)
  | inr (d, e) ↦
      let x : Result.ok d ≡ ok c = (rw (e, get_case, get) at h) in
      let d_eq : d ≡ c = cc in e ∙ ap some d_eq
]

close-effect :
    (id by : String) (now : ℕ) (c : Case) (s : MemoryStore)
    → find id s.records ≡ some c
    → c.status ≡ status_open
    → close id by now s
      ≡ (ok (closed now by c), record s { records = put id (closed now by c) s.records })
unfolding close
close-effect id by now c s e o =
    let t : (c.status == status_closed) ≡ false = ap (λ x. x == status_closed) o in rw (e, close, t)

close_closed :
    (id by : String) (now : ℕ) (c : Case) (s : MemoryStore)
    → find id s.records ≡ some c
    → c.status ≡ status_closed
    → close id by now s ≡ (err invalid_case_state, s)
unfolding close
close_closed id by now c s e o =
    let t : (c.status == status_closed) ≡ true = ap (λ x. x == status_closed) o in rw (e, close, t)

assign_closed :
    (id to : String) (now expected : ℕ) (c : Case) (s : MemoryStore)
    → find id s.records ≡ some c
    → c.status ≡ status_closed
    → assign id to now expected s ≡ (err invalid_case_state, s)
unfolding assign
assign_closed id to now expected c s e o =
    let t : (c.status == status_closed) ≡ true = ap (λ x. x == status_closed) o in rw (e, assign, t)

reopen_closed :
    (id by : String) (now : ℕ) (c : Case) (s : MemoryStore)
    → find id s.records ≡ some c
    → c.status ≡ status_closed
    → (reopen id by now s).0 ≡ ok (reopened now c)
unfolding reopen
reopen_closed id by now c s e o =
    let t : (c.status == status_closed) ≡ true = ap (λ x. x == status_closed) o in rw (e, reopen, t)

-- `CloseCase` of an open case is accepted. Afterwards closing it again, or assigning it to anybody by any
-- copy of it, is refused and changes nothing, and reopening it gives back the case as it was, but for the
-- time of its last update, where nobody stood as the one who closed it.
pub close_case-then :
    (now later : ℕ) (id by other : String) (copy c : Case) (s : MemoryStore)
    → get_case id s ≡ ok c
    → c.status ≡ status_open
    → c.closed_by ≡ ""
    → copy.id ≡ id
    → let (r, s') = close_case now id by s in
      (r ≡ ok (closed now (fallback_string by "operator") c))
      × (close_case later id other s' ≡ (err invalid_case_state, s'))
      × (assign_case later copy other s' ≡ (err invalid_case_state, s'))
      × ((reopen_case later id other s').0 ≡ ok (record c { updated_at = later }))
unfolding close_case assign_case reopen_case reopened closed
close_case-then now later id by other copy c s h o free same =
    let by' = fallback_string by "operator" in
    let d = closed now by' c in
    let eff = close-effect id by' now c s (found_case id c s h) o in
    let s' = (close id by' now s).1 in
    let f : find id s'.records ≡ some d =
      ap (λ p. find id p.1.records) eff ∙ find-put_self id d s.records in
    let other' = fallback_string (trim_space other) "operator" in
    (
      ap (λ p. p.0) eff,
      close_closed id (fallback_string other "operator") later d s' f refl,
      assign_closed copy.id other' later copy.updated_at d s'
          (subst (λ i. find i s'.records ≡ some d) (sym same) f) refl,
      reopen_closed id other' later d s' f refl
          ∙ ap (λ b. ok (record c { status = status_open; closed_by = b; updated_at = later }))
              (sym free)
          ∙ ap (λ b. ok (record c { status = b; updated_at = later })) (sym o),
    )
