-- ===== src/Cases/Summaries/Counts.antt =====
-- Quantities of the summaries that `tally` adds to and `set_latest` leaves, as sums over cases
-- (internal/case/memory_store.go).
use opspilot_go_dev_kit.Prelude.{
  ℕ, ◌+◌, String, ◌≡◌, ◌≢◌, inl, inr, refl, sym, ap, ◌∙◌, Bool, true, false, ◌&&◌, none, some, List,
  [], ◌∷◌, arith, if◌then◌else◌, Bool-cases, Option-cases, ◌==◌, eq_iff, or_else, is_some, keep,
}
use opspilot_go_dev_kit.Prelude.Dict.{Dict, find, put, values, find-put}
use opspilot_go_dev_kit.Cases.Types.{Case}
use opspilot_go_dev_kit.Cases.Memory.{MemoryStore, replaces, allowed_ids, is_in}
use opspilot_go_dev_kit.Cases.Summaries.{
  summarize, summarize_case, summarize_loop, fill_missing, is_counted,
}

-- The sum of the weights of the cases that pass a test.
abbrev pub sum_where : (Case → Bool) → (Case → ℕ) → List Case → ℕ
sum_where p weight [] = 0
sum_where p weight (c ∷ cs) =
    let rest = sum_where p weight cs in if p c then weight c + rest else rest

module _ {S : Type 0} (start : String → S) (source : Case → String)
    (tally set_latest : Case → S → S) (measure : S → ℕ) (weight : Case → ℕ)
    (starts : (k : String) → measure (start k) ≡ 0)
    (tallies : (c : Case) (m : S) → measure (tally c m) ≡ weight c + measure m)
    (keeps : (c : Case) (m : S) → measure (set_latest c m) ≡ measure m) where
  abbrev measured : String → Dict S → ℕ
  measured k summaries = measure (or_else (find k summaries) (start k))

  measured-put :
      (k j : String) (m : S) (summaries : Dict S)
      → measured j (put k m summaries) ≡ (if k == j then measure m else measured j summaries)
  measured-put k j m summaries = elim (Bool-cases (k == j)) [
    | inl e ↦ rw (find-put, e)
    | inr e ↦ rw (find-put, e)
  ]

  one_more :
      (k j : String) (c : Case) (m : S) (summaries : Dict S)
      → measure m ≡ weight c + measured k summaries
      → measured j (put k m summaries)
        ≡ (if k == j then weight c + measured j summaries else measured j summaries)
  one_more k j c m summaries h = elim (Bool-cases (k == j)) [
    | inl e ↦
        measured-put k j m summaries
        ∙ rw e (h ∙ ap (λ i. weight c + measured i summaries) ((eq_iff k j).0 e))
    | inr e ↦ measured-put k j m summaries ∙ rw e
  ]

  summarize_case-measured :
      (j : String) (c : Case) (state : Dict S × Dict Case)
      → measured j (summarize_case start source tally set_latest c state).0
        ≡ (if source c == j then weight c + measured j state.0 else measured j state.0)
  unfolding summarize_case
  summarize_case-measured j c (summaries, latest) =
      let k = source c in
      let m = or_else (find k summaries) (start k) in
      elim (Bool-cases (replaces c (find k latest))) [
        | inl e ↦
            rw (e, summarize_case)
              (one_more k j c (set_latest c (tally c m)) summaries
                (keeps c (tally c m) ∙ tallies c m))
        | inr e ↦ rw (e, summarize_case) (one_more k j c (tally c m) summaries (tallies c m))
      ]

  abbrev of_source : (Case → Bool) → String → Case → Bool
  of_source counts j c = counts c && source c == j

  summarize_loop-measured :
      (counts : Case → Bool) (j : String) (cs : List Case) (state : Dict S × Dict Case)
      → measured j (summarize_loop start source tally set_latest counts cs state).0
        ≡ sum_where (of_source counts j) weight cs + measured j state.0
  unfolding summarize_loop
  summarize_loop-measured counts j [] state = omega arith
  summarize_loop-measured counts j (c ∷ cs) state = elim (Bool-cases (counts c)) [
    | inr e ↦ rw (summarize_loop, e) (summarize_loop-measured counts j cs state)
    | inl e ↦
        let next = summarize_case start source tally set_latest c state in
        let ih = summarize_loop-measured counts j cs next in
        let turn = summarize_case-measured j c state in
        elim (Bool-cases (source c == j)) [
          | inl here ↦
              let more : measured j next.0 ≡ weight c + measured j state.0 = turn ∙ rw here in
              rw (summarize_loop, e, here) (ih ∙ omega (arith, more))
          | inr there ↦
              let equal : measured j next.0 ≡ measured j state.0 = turn ∙ rw there in
              rw (summarize_loop, e, there) (ih ∙ omega (arith, equal))
        ]
  ]

  fill_one-measured :
      (j id : String) (summaries : Dict S)
      → measured j (if is_some (find id summaries) then summaries else put id (start id) summaries)
        ≡ measured j summaries
  fill_one-measured j id summaries = elim (Option-cases (find id summaries)) [
    | inr (m, e) ↦ rw e
    | inl e ↦ elim (Bool-cases (id == j)) [
      | inr other ↦ rw e (measured-put id j (start id) summaries ∙ rw other)
      | inl same ↦
          let none_there : find j summaries ≡ none =
            ap (λ i. find i summaries) (sym ((eq_iff id j).0 same)) ∙ e in
          rw e (
            measured-put id j (start id) summaries
            ∙ rw same (starts id ∙ sym (rw none_there (starts j))))
    ]
  ]

  fill_missing-measured :
      (j : String) (ids : List String) (summaries : Dict S)
      → measured j (fill_missing start source tally set_latest ids summaries) ≡ measured j summaries
  unfolding fill_missing
  fill_missing-measured j [] summaries = refl
  fill_missing-measured j (id ∷ ids) summaries =
      fill_missing-measured j ids
        (if is_some (find id summaries) then summaries else put id (start id) summaries)
      ∙ fill_one-measured j id summaries

  fill_missing-keeps :
      (j : String) (ids : List String) (summaries : Dict S) (m : S)
      → find j summaries ≡ some m
      → is_some (find j (fill_missing start source tally set_latest ids summaries)) ≡ true
  unfolding fill_missing
  fill_missing-keeps j [] summaries m h = ap is_some h
  fill_missing-keeps j (id ∷ ids) summaries m h = elim (Option-cases (find id summaries)) [
    | inr (n, e) ↦ rw (fill_missing, e) (fill_missing-keeps j ids summaries m h)
    | inl e ↦ elim (Bool-cases (id == j)) [
      | inl same ↦
          rw (fill_missing, e)
            (fill_missing-keeps j ids (put id (start id) summaries) (start id)
              (rw (find-put, same)))
      | inr other ↦
          rw (fill_missing, e)
            (fill_missing-keeps j ids (put id (start id) summaries) m (rw (find-put, other) h))
    ]
  ]

  fill_missing-present :
      (j : String) (ids : List String) (summaries : Dict S)
      → is_in j ids ≡ true
      → is_some (find j (fill_missing start source tally set_latest ids summaries)) ≡ true
  unfolding fill_missing
  fill_missing-present j [] summaries h = absurd (cc)
  fill_missing-present j (id ∷ ids) summaries h = elim (Bool-cases (id == j)) [
    | inr other ↦ fill_missing-present j ids _ (rw other at h)
    | inl same ↦ elim (Option-cases (find id summaries)) [
      | inr (m, e) ↦
          rw (fill_missing, e)
            (fill_missing-keeps j ids summaries m
              (ap (λ i. find i summaries) (sym ((eq_iff id j).0 same)) ∙ e))
      | inl e ↦
          rw (fill_missing, e)
            (fill_missing-keeps j ids (put id (start id) summaries) (start id)
              (rw (find-put, same)))
    ]
  ]

  present_measured :
      (j : String) (n : ℕ) (summaries : Dict S)
      → is_some (find j summaries) ≡ true
      → measured j summaries ≡ n
      → (m : S) × (find j summaries ≡ some m) × (measure m ≡ n)
  present_measured j n summaries h e = elim (Option-cases (find j summaries)) [
    | inl f ↦ absurd (let x : false ≡ true = (rw f at h) in cc)
    | inr (m, f) ↦ (m, f, sym (ap (λ o. measure (or_else o (start j))) f) ∙ e)
  ]

  -- Each source asked for has a summary, which measures the cases counted for it.
  pub summarize-measured :
      (extra : Case → Bool) (tenant_id : String) (ids : List String) (s : MemoryStore) (j : String)
      → is_in j (allowed_ids ids) ≡ true
      → (m : S) × (find j (summarize start source tally set_latest extra tenant_id ids s) ≡ some m)
        × (measure m
            ≡ sum_where
                (of_source (is_counted start source tally set_latest extra tenant_id ids) j)
                weight
                (values s.records))
  unfolding summarize keep find
  summarize-measured extra tenant_id [] s j h = absurd (cc)
  summarize-measured extra tenant_id (id ∷ ids) s j h =
      let counts = is_counted start source tally set_latest extra tenant_id (id ∷ ids) in
      let looped =
        (summarize_loop start source tally set_latest counts (values s.records) ([], [])).0 in
      let zero_there : measured j ([]) ≡ 0 = starts j in
      present_measured j _
        (fill_missing start source tally set_latest (allowed_ids (id ∷ ids)) looped)
        (fill_missing-present j (allowed_ids (id ∷ ids)) looped h)
        (fill_missing-measured j (allowed_ids (id ∷ ids)) looped
          ∙ (summarize_loop-measured counts j (values s.records) ([], [])
              ∙ omega (arith, starts j)))

-- The cases of a tenant and a source, and the open ones of them.
abbrev pub is_for : (Case → String) → (Case → Bool) → String → String → Case → Bool
is_for source extra tenant_id j c = c.tenant_id == tenant_id && extra c && source c == j

module _ {S : Type 0} (start : String → S) (source : Case → String)
    (tally set_latest : Case → S → S) (extra : Case → Bool) (tenant_id : String) (ids : List String)
    (j : String) where
  pub counted_for :
      (c : Case)
      → j ≢ ""
      → is_in j (allowed_ids ids) ≡ true
      → (is_counted start source tally set_latest extra tenant_id ids c && source c == j)
        ≡ is_for source extra tenant_id j c
  unfolding is_counted
  counted_for c ne h = elim (Bool-cases (source c == j)) [
    | inr other ↦ ground arith
    | inl same ↦
        let e : source c ≡ j = (eq_iff (source c) j).0 same in
        let allowed : is_in (source c) (allowed_ids ids) ≡ true =
          ap (λ i. is_in i (allowed_ids ids)) e ∙ h in
        let given : (source c == "") ≡ false = ap (λ i. i == "") e ∙ ground (arith, eq_iff j "") in
        rw (same, given, allowed) (ground arith)
  ]
