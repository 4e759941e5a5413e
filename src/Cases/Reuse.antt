-- ===== src/Cases/Reuse.antt =====
-- Creating a case for a run of an evaluation twice (internal/case/service.go and memory_store.go).
use opspilot_go_dev_kit.Prelude.{
  ℕ, String, ◌≡◌, ◌≢◌, inl, inr, refl, sym, ap, ◌∙◌, Bool, true, false, ◌&&◌, none, some, List, [],
  ◌∷◌, ok, arith, Bool-cases, Option-cases, ◌==◌, eq_iff, eq_refl,
}
use opspilot_go_dev_kit.Prelude.Clock.{next_uint64}
use opspilot_go_dev_kit.Prelude.Dict.{Dict, put, values}
use opspilot_go_dev_kit.Cases.Types.{Case, CreateInput, status_open}
use opspilot_go_dev_kit.Cases.Memory.{
  MemoryStore, save_or_reuse_open_eval_run_case, first_where, is_open_for_run,
}
use opspilot_go_dev_kit.Cases.Service.{create_case_with_outcome, created_case, new_case_id}

-- A value written where none passed the test is the one found.
first_where-put :
    (p : Case → Bool) (k : String) (c : Case) (m : Dict Case)
    → first_where p (values m) ≡ none
    → p c ≡ true
    → first_where p (values (put k c m)) ≡ some c
unfolding put
first_where-put p k c [] h t = rw t
first_where-put p k c ((j, d) ∷ m) h t = elim (Bool-cases (p d)) [
  | inl hit ↦ absurd (let x : some d ≡ none = (rw hit at h) in cc)
  | inr miss ↦ elim (Bool-cases (j == k)) [
    | inl same ↦ rw (same, t)
    | inr other ↦ rw (other, miss) (first_where-put p k c m (rw miss at h) t)
  ]
]

-- The test reads the tenant and the run of the new case only.
is_open_for_run_same :
    (c d e : Case)
    → c.tenant_id ≡ d.tenant_id
    → c.source_eval_run_id ≡ d.source_eval_run_id
    → is_open_for_run c e ≡ is_open_for_run d e
unfolding is_open_for_run
is_open_for_run_same c d e t r =
    ap
      (λ x.
        e.tenant_id == x && e.status == status_open && e.source_eval_run_id == c.source_eval_run_id)
      t
    ∙ ap (λ x. e.tenant_id == d.tenant_id && e.status == status_open && e.source_eval_run_id == x) r

first_where_same :
    (p q : Case → Bool)
    → ((c : Case) → p c ≡ q c)
    → (cs : List Case) → first_where p cs ≡ first_where q cs
first_where_same p q h [] = refl
first_where_same p q h (c ∷ cs) = elim (Bool-cases (q c)) [
  | inl e ↦ rw (h c ∙ e, e)
  | inr e ↦ rw (h c ∙ e, e) (first_where_same p q h cs)
]

is_open_for_run_self : (c : Case) → c.status ≡ status_open → is_open_for_run c c ≡ true
unfolding is_open_for_run
is_open_for_run_self c o =
    ground (arith, eq_iff c.status status_open, eq_refl c.tenant_id, eq_refl c.source_eval_run_id)

-- The first save leaves a case that the second finds.
saved_twice :
    (c d : Case) (s : MemoryStore)
    → c.status ≡ status_open
    → d.tenant_id ≡ c.tenant_id
    → d.source_eval_run_id ≡ c.source_eval_run_id
    → (x : Case) × (b : Bool) × ((save_or_reuse_open_eval_run_case c s).0 ≡ ok (x, b))
      × (first_where (is_open_for_run d) (values (save_or_reuse_open_eval_run_case c s).1.records)
          ≡ some x)
unfolding save_or_reuse_open_eval_run_case
saved_twice c d s o t r =
    let same =
      first_where_same (is_open_for_run d) (is_open_for_run c)
        (λ e. is_open_for_run_same d c e t r) in
    elim (Option-cases (first_where (is_open_for_run c) (values s.records))) [
      | inl e ↦ (
        c,
        true,
        rw (e, save_or_reuse_open_eval_run_case),
        rw (e, save_or_reuse_open_eval_run_case)
            (same (values (put c.id c s.records))
              ∙ first_where-put (is_open_for_run c) c.id c s.records e (is_open_for_run_self c o)),
      )
      | inr (x, e) ↦ (
        x,
        false,
        rw (e, save_or_reuse_open_eval_run_case),
        rw (e, save_or_reuse_open_eval_run_case) (same (values s.records) ∙ e),
      )
    ]

reused :
    (c x : Case) (s : MemoryStore)
    → first_where (is_open_for_run c) (values s.records) ≡ some x
    → save_or_reuse_open_eval_run_case c s ≡ (ok (x, false), s)
unfolding save_or_reuse_open_eval_run_case
reused c x s e = rw (e, save_or_reuse_open_eval_run_case)

create_for_run :
    (now : ℕ) (input : CreateInput) (s : MemoryStore)
    → input.source_eval_run_id ≢ ""
    → let n = next_uint64 s.case_id_sequence in
      create_case_with_outcome now input s
      ≡ save_or_reuse_open_eval_run_case
          (created_case now (new_case_id now n) input)
          (record s { case_id_sequence = n })
unfolding create_case_with_outcome created_case
create_for_run now input s ne =
    let e : (input.source_eval_run_id == "") ≡ false =
      ground (arith, eq_iff input.source_eval_run_id "") in
    rw (e, create_case_with_outcome)

-- Two calls of `CreateCaseWithOutcome` in turn, for the same tenant and the same run of an evaluation, on
-- any store: both answer with the same case, the second says that it created none, and it leaves every
-- case and note as it is.
pub create_case_twice :
    (now later : ℕ) (first second : CreateInput) (s : MemoryStore)
    → first.source_eval_run_id ≢ ""
    → second.tenant_id ≡ first.tenant_id
    → second.source_eval_run_id ≡ first.source_eval_run_id
    → let (r, s') = create_case_with_outcome now first s in
      let (r', s'') = create_case_with_outcome later second s' in
      (x : Case) × (b : Bool) × (r ≡ ok (x, b))
      × (r' ≡ ok (x, false))
      × (s''.records ≡ s'.records)
      × (s''.notes ≡ s'.notes)
unfolding created_case
create_case_twice now later first second s ne t r =
    let n = next_uint64 s.case_id_sequence in
    let c = created_case now (new_case_id now n) first in
    let s₁ : MemoryStore = record s { case_id_sequence = n } in
    let s' = (create_case_with_outcome now first s).1 in
    let n' = next_uint64 s'.case_id_sequence in
    let d = created_case later (new_case_id later n') second in
    let e = create_for_run now first s ne in
    let e' = create_for_run later second s' (λ q. ne (sym r ∙ q)) in
    let (x, b, got, found) = saved_twice c d s₁ refl t r in
    let again =
      reused d x (record s' { case_id_sequence = n' })
        (ap (λ p. first_where (is_open_for_run d) (values p.1.records)) e ∙ found) in
    (
      x,
      b,
      ap (λ p. p.0) e ∙ got,
      ap (λ p. p.0) e' ∙ ap (λ p. p.0) again,
      ap (λ p. p.1.records) e' ∙ ap (λ p. p.1.records) again,
      ap (λ p. p.1.notes) e' ∙ ap (λ p. p.1.notes) again,
    )
