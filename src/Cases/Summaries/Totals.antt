-- ===== src/Cases/Summaries/Totals.antt =====
-- The two counts of each summary of the case store, for each source asked for
-- (internal/case/memory_store.go).
use opspilot_go_dev_kit.Prelude.{
  ℕ, ◌+◌, String, ◌≡◌, ◌≢◌, inl, inr, refl, sym, ap, ◌∙◌, Bool, true, false, ◌&&◌, some, List, [],
  ◌∷◌, Result, ok, arith, if◌then◌else◌, Bool-cases, ◌==◌, eq_iff, keep, length,
}
use opspilot_go_dev_kit.Prelude.Dict.{Dict, find, values}
use opspilot_go_dev_kit.Cases.Types.{Case, CaseError, FollowUpSummary, EvalRunFollowUpSummary}
use opspilot_go_dev_kit.Cases.Memory.{MemoryStore, allowed_ids, is_in}
use opspilot_go_dev_kit.Cases.Summaries.{
  summarize, is_open, plus_if, any_case, has_origin, empty_run_summary, tally_run_case,
  set_latest_run_case, empty_summary, tally_case, set_latest_case, summarize_by_source_eval_run_ids,
  summarize_by_source_eval_report_ids, summarize_by_source_eval_case_ids,
  summarize_compare_origin_by_source_eval_report_ids,
}
use opspilot_go_dev_kit.Cases.Summaries.Counts.{sum_where, is_for, summarize-measured, counted_for}

sum_where-ones :
    (p q : Case → Bool) (cs : List Case)
    → ((c : Case) → p c ≡ q c)
    → sum_where p (λ _. 1) cs ≡ length (keep q cs)
unfolding keep
sum_where-ones p q [] h = refl
sum_where-ones p q (c ∷ cs) h = elim (Bool-cases (q c)) [
  | inl e ↦ rw (h c ∙ e, e) (omega (arith, sum_where-ones p q cs h))
  | inr e ↦ rw (h c ∙ e, e) (sum_where-ones p q cs h)
]

abbrev one_if : Bool → ℕ
one_if b = if b then 1 else 0

sum_where-open :
    (p q : Case → Bool) (cs : List Case)
    → ((c : Case) → p c ≡ q c)
    → sum_where p (λ c. one_if (is_open c)) cs ≡ length (keep (λ c. q c && is_open c) cs)
unfolding keep
sum_where-open p q [] h = refl
sum_where-open p q (c ∷ cs) h =
    let ih = sum_where-open p q cs h in
    elim (Bool-cases (q c)) [
      | inr e ↦ rw (h c ∙ e, e) ih
      | inl e ↦ elim (Bool-cases (is_open c)) [
        | inl o ↦ rw (h c ∙ e, e, o) (omega (arith, ih))
        | inr o ↦ rw (h c ∙ e, e, o) (omega (arith, ih))
      ]
    ]

is_in-allowed :
    (j : String) (ids : List String)
    → j ≢ ""
    → is_in j ids ≡ true
    → is_in j (allowed_ids ids) ≡ true
unfolding keep
is_in-allowed j [] ne h = absurd (cc)
is_in-allowed j (id ∷ ids) ne h = elim (Bool-cases (id == j)) [
  | inl same ↦
      let e : (id == "") ≡ false =
        ap (λ i. i == "") ((eq_iff id j).0 same) ∙ ground (arith, eq_iff j "") in
      rw (e, same)
  | inr other ↦
      let rest = is_in-allowed j ids ne (rw other at h) in
      elim (Bool-cases (id == "")) [ inl e ↦ rw e rest | inr e ↦ rw (e, other) rest ]
]

module _ {S : Type 0} (start : String → S) (source : Case → String)
    (tally set_latest : Case → S → S) (count opened : S → ℕ)
    (starts : (k : String) → (count (start k) ≡ 0) × (opened (start k) ≡ 0))
    (tallies : (c : Case) (m : S)
      → (count (tally c m) ≡ 1 + count m) × (opened (tally c m) ≡ one_if (is_open c) + opened m))
    (keeps : (c : Case) (m : S)
      → (count (set_latest c m) ≡ count m) × (opened (set_latest c m) ≡ opened m)) where
  summarize-totals :
      (extra : Case → Bool) (tenant_id : String) (ids : List String) (s : MemoryStore) (j : String)
      → j ≢ ""
      → is_in j ids ≡ true
      → (m : S) × (find j (summarize start source tally set_latest extra tenant_id ids s) ≡ some m)
        × (count m ≡ length (keep (is_for source extra tenant_id j) (values s.records)))
        × (opened m
            ≡ length
                (keep (λ c. is_for source extra tenant_id j c && is_open c) (values s.records)))
  summarize-totals extra tenant_id ids s j ne h =
      let allowed = is_in-allowed j ids ne h in
      let same = λ (c : Case).
        counted_for start source tally set_latest extra tenant_id ids j c ne allowed in
      let (m, f, e) =
        summarize-measured start source tally set_latest count (λ _. 1) (λ k. (starts k).0)
          (λ c m. (tallies c m).0) (λ c m. (keeps c m).0) extra tenant_id ids s j allowed in
      let (n, g, e') =
        summarize-measured start source tally set_latest opened (λ c. one_if (is_open c))
          (λ k. (starts k).1) (λ c m. (tallies c m).1) (λ c m. (keeps c m).1) extra tenant_id ids s
          j allowed in
      let n_eq : n ≡ m = (let x : some n ≡ some m = sym g ∙ f in cc) in
      (
        m,
        f,
        e ∙ sum_where-ones _ (is_for source extra tenant_id j) (values s.records) same,
        sym (ap opened n_eq)
            ∙ (e' ∙ sum_where-open _ (is_for source extra tenant_id j) (values s.records) same),
      )

plus_if_sum : (b : Bool) (n : ℕ) → plus_if b n ≡ one_if b + n
plus_if_sum true n = omega arith
plus_if_sum false n = omega arith

-- The summaries of the three kinds with five fields.
module _ (source : Case → String) where
  follow_up-totals :
      (extra : Case → Bool) (tenant_id : String) (ids : List String) (s : MemoryStore) (j : String)
      → j ≢ ""
      → is_in j ids ≡ true
      → (m : FollowUpSummary) × (find j (
            summarize empty_summary source
              (tally_case source)
              set_latest_case
              extra
              tenant_id
              ids
              s)
          ≡ some m)
        × (m.follow_up_case_count
            ≡ length (keep (is_for source extra tenant_id j) (values s.records)))
        × (m.open_follow_up_case_count
            ≡ length
                (keep (λ c. is_for source extra tenant_id j c && is_open c) (values s.records)))
  unfolding empty_summary tally_case set_latest_case
  follow_up-totals extra tenant_id ids s j ne h =
      summarize-totals empty_summary source (tally_case source) set_latest_case
        (λ m. m.follow_up_case_count) (λ m. m.open_follow_up_case_count) (λ k. (refl, refl))
        (λ c m. (omega arith, plus_if_sum (is_open c) m.open_follow_up_case_count))
        (λ c m. (refl, refl)) extra tenant_id ids s j ne h

-- Each non-empty report id that `SummarizeBySourceEvalReportIDs` is asked for has a summary: it counts
-- the tenant's cases for that report, and the open ones of them. The compare variant counts of these the
-- cases with a full compare origin, and the variant for evaluation cases the cases for each of those.
pub summaries_by_source-totals :
    (tenant_id : String) (ids : List String) (s : MemoryStore) (j : String)
    → j ≢ ""
    → is_in j ids ≡ true
    → let by_report = λ (c : Case). c.source_eval_report_id in
      let by_case = λ (c : Case). c.source_eval_case_id in
      let Totals =
        λ (source : Case → String) (extra : Case → Bool)
            (r : Result CaseError (Dict FollowUpSummary)).
          (d : Dict FollowUpSummary) × (m : FollowUpSummary) × (r ≡ ok d)
          × (find j d ≡ some m)
          × (m.follow_up_case_count
              ≡ length (keep (is_for source extra tenant_id j) (values s.records)))
          × (m.open_follow_up_case_count
              ≡ length (
                  keep (λ c. is_for source extra tenant_id j c && is_open c) (values s.records))) in
      Totals by_report any_case (summarize_by_source_eval_report_ids tenant_id ids s)
      × Totals by_report has_origin
          (summarize_compare_origin_by_source_eval_report_ids tenant_id ids s)
      × Totals by_case any_case (summarize_by_source_eval_case_ids tenant_id ids s)
unfolding summarize_by_source_eval_report_ids summarize_compare_origin_by_source_eval_report_ids
    summarize_by_source_eval_case_ids
summaries_by_source-totals tenant_id ids s j ne h =
    let by_report = λ (c : Case). c.source_eval_report_id in
    let by_case = λ (c : Case). c.source_eval_case_id in
    let (m₁, f₁, e₁, o₁) = follow_up-totals by_report any_case tenant_id ids s j ne h in
    let (m₂, f₂, e₂, o₂) = follow_up-totals by_report has_origin tenant_id ids s j ne h in
    let (m₃, f₃, e₃, o₃) = follow_up-totals by_case any_case tenant_id ids s j ne h in
    ((_, m₁, refl, f₁, e₁, o₁), (_, m₂, refl, f₂, e₂, o₂), (_, m₃, refl, f₃, e₃, o₃))

-- Each non-empty run id that `SummarizeBySourceEvalRunIDs` is asked for has a summary: it counts the
-- tenant's cases for that run, and the open ones of them.
pub summaries_by_run-totals :
    (tenant_id : String) (ids : List String) (s : MemoryStore) (j : String)
    → j ≢ ""
    → is_in j ids ≡ true
    → let by_run = λ (c : Case). c.source_eval_run_id in
      (d : Dict EvalRunFollowUpSummary) × (m : EvalRunFollowUpSummary)
      × (summarize_by_source_eval_run_ids tenant_id ids s ≡ ok d)
      × (find j d ≡ some m)
      × (m.follow_up_case_count
          ≡ length (keep (is_for by_run any_case tenant_id j) (values s.records)))
      × (m.open_follow_up_case_count
          ≡ length
              (keep (λ c. is_for by_run any_case tenant_id j c && is_open c) (values s.records)))
unfolding summarize_by_source_eval_run_ids empty_run_summary tally_run_case set_latest_run_case
summaries_by_run-totals tenant_id ids s j ne h =
    let by_run = λ (c : Case). c.source_eval_run_id in
    let (m, f, e, o) =
      summarize-totals empty_run_summary by_run tally_run_case set_latest_run_case
        (λ m. m.follow_up_case_count) (λ m. m.open_follow_up_case_count) (λ k. (refl, refl))
        (λ c m. (omega arith, plus_if_sum (is_open c) m.open_follow_up_case_count))
        (λ c m. (refl, refl)) any_case tenant_id ids s j ne h in
    (_, m, refl, f, e, o)
