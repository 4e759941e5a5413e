-- ===== src/Eval/Comparison/Agreement.antt =====
-- Two ways to compare reports (internal/eval/report_service.go): the comparison and the regression check.
use opspilot_go_dev_kit.Prelude.{
  ℕ, ◌+◌, length, ap, sym, String, Bool, ◌≡◌, inl, inr, false, Option, ok, err, ◌==◌, Bool-cases,
}
use opspilot_go_dev_kit.Prelude.Paging.{ℤ}
use opspilot_go_dev_kit.Eval.Types.{EvalReport, message}
use opspilot_go_dev_kit.Eval.Store.{Store}
use opspilot_go_dev_kit.Eval.Store.Reports.{get_eval_report}
use opspilot_go_dev_kit.Eval.Reports.{Numerics}
use opspilot_go_dev_kit.Eval.Regression.{
  ◌−◌, RegressionThresholds, RegressionResult, detect_regression,
}
use opspilot_go_dev_kit.Eval.Regression.Differences.{Describes, detect_regression-Describes}
use opspilot_go_dev_kit.Eval.Comparison.{
  Comparison, ComparisonSummary, comparison_summary, compare_eval_reports,
}

-- The regression check and the comparison give the same numbers.
pub record Agrees (left right : EvalReport) (r : RegressionResult) (c : ComparisonSummary)
    : Type 0 where
  pub passed : r.passed_items_delta ≡ c.passed_items_delta
  pub failed : r.failed_items_delta ≡ c.failed_items_delta
  pub score : r.average_score_delta ≡ c.average_score_delta
  pub fresh : length r.new_bad_cases + c.bad_case_overlap_count ≡ length right.bad_cases
  pub more :
      c.bad_case_count_delta
      ≡ (length r.new_bad_cases + c.bad_case_overlap_count) − length left.bad_cases

ids_given :
    (numerics : Numerics) (b c : String) (t : RegressionThresholds) (s : Store)
    (r : RegressionResult)
    → detect_regression numerics b c t s ≡ ok r
    → ((b == "") ≡ false) × ((c == "") ≡ false)
unfolding detect_regression
ids_given numerics b c t s r e = elim (Bool-cases (b == "")) [
  | inl f ↦
      let impossible : err (message "baseline_report_id is required") ≡ ok r =
        (rw (detect_regression, f) at e) in
      absurd cc
  | inr f ↦ elim (Bool-cases (c == "")) [
    | inl g ↦
        let impossible : err (message "candidate_report_id is required") ≡ ok r =
          (rw (detect_regression, f, g) at e) in
        absurd cc
    | inr g ↦ (f, g)
  ]
]

module _ {J : Type 0} (decode : String → Option J) (deep_equal : J → J → Bool)
    (seconds_between : ℕ → ℕ → ℤ) (numerics : Numerics) where
  compared_reports :
      (b c : String) (s : Store) (left right : EvalReport)
      → (b == "") ≡ false
      → (c == "") ≡ false
      → get_eval_report b s ≡ ok left
      → get_eval_report c s ≡ ok right
      → compare_eval_reports decode deep_equal seconds_between numerics b c s
        ≡ ok (record {
          left = left;
          right = right;
          summary = comparison_summary decode deep_equal seconds_between numerics left right;
        })
  unfolding compare_eval_reports
  compared_reports b c s left right f g h k = rw (f, g, h, k, compare_eval_reports)

  summary-Agrees :
      (t : RegressionThresholds) (left right : EvalReport) (r : RegressionResult)
      → Describes numerics left right t r
      → Agrees left right r
          (comparison_summary decode deep_equal seconds_between numerics left right)
  unfolding comparison_summary
  summary-Agrees t left right r d = record {
    passed = d.passed_delta;
    failed = d.failed_delta;
    score = d.score_delta;
    fresh = d.new_count;
    more = ap (λ n. n − length left.bad_cases) (sym d.new_count);
  }

  -- A result of `DetectRegression` is about the two reports that `CompareEvalReports` returns for the same
  -- ids: its new bad cases are, as they stand, the bad cases of the candidate that the baseline does
  -- not have, its resolved ones the reverse, and the candidate's bad cases are the new ones with those
  -- that the comparison counts as the overlap. Its differences of items and scores are those of the
  -- comparison, and the comparison's difference of bad cases is made up of the new ones and the
  -- overlap. The verdict is a regression where more bad cases are new than the thresholds allow,
  -- whatever the scores are, and an improvement only where none is new.
  pub detect_regression-compare :
      (b c : String) (t : RegressionThresholds) (s : Store) (r : RegressionResult)
      → detect_regression numerics b c t s ≡ ok r
      → (compared : Comparison) × (compare_eval_reports decode deep_equal seconds_between numerics b
            c s
          ≡ ok compared)
        × Describes numerics compared.left compared.right t r
        × Agrees compared.left compared.right r compared.summary
  detect_regression-compare b c t s r e =
      let (f, g) = ids_given numerics b c t s r e in
      let (left, right, h, k, d) = detect_regression-Describes numerics b c t s r e in
      (
        record {
          left = left;
          right = right;
          summary = comparison_summary decode deep_equal seconds_between numerics left right;
        },
        compared_reports b c s left right f g h k,
        d,
        summary-Agrees t left right r d,
      )
