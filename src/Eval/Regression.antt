-- ===== src/Eval/Regression.antt =====
-- internal/eval/report_service.go: how two reports compare, and the regressions between them.
pub mod Differences
use opspilot_go_dev_kit.Prelude.{
  ℕ, ◌+◌, ◌-◌, ◌*◌, ◌/◌, ◌%◌, ◌^◌, zero, suc, String, ◌<>◌, Bool, true, false, ◌&&◌, ◌||◌, not,
  Option, none, some, List, [], ◌∷◌, Result, ok, err, ◌==◌, if◌then◌else◌, eqb, ltb, leb, any, keep,
  count_if, length,
}
use opspilot_go_dev_kit.Prelude.Floats.{Float64, float_lt, float_le, negate}
use opspilot_go_dev_kit.Prelude.Paging.{ℤ, pos, negsuc}
use opspilot_go_dev_kit.Eval.Types.{EvalReport, BadCase, EvalError, message, wrapped}
use opspilot_go_dev_kit.Eval.Store.{Store}
use opspilot_go_dev_kit.Eval.Store.Reports.{get_eval_report}
use opspilot_go_dev_kit.Eval.Reports.{Numerics}
use opspilot_go_dev_kit.Eval.Judge.{score_zero}

-- `a - b` of two ints that are not negative.
infix 5 ◌−◌
abbrev pub ◌−◌ : ℕ → ℕ → ℤ
a − b = if leb b a then pos (a - b) else negsuc (b - a - 1)

pub record RegressionThresholds : Type 0 where
  pub score_drop_threshold : Float64
  pub new_failed_cases_max : ℤ

-- 0.05 and 0.
unfoldable pub default_regression_thresholds : RegressionThresholds
default_regression_thresholds = record {
  score_drop_threshold = record { bits = 0x3fa999999999999a };
  new_failed_cases_max = pos 0;
}

abbrev pub verdict_regression : String
verdict_regression = "regression"

abbrev pub verdict_improvement : String
verdict_improvement = "improvement"

abbrev pub verdict_stable : String
verdict_stable = "stable"

pub record RegressionResult : Type 0 where
  pub baseline_report_id : String
  pub candidate_report_id : String
  pub verdict : String
  pub average_score_delta : Float64
  pub passed_items_delta : ℤ
  pub failed_items_delta : ℤ
  pub new_bad_cases : List BadCase
  pub resolved_bad_cases : List BadCase
  pub thresholds : RegressionThresholds

-- The lookup in the set of the ids.
abbrev pub has_case : List BadCase → BadCase → Bool
has_case reference bc = any (λ r. r.eval_case_id == bc.eval_case_id) reference

unfoldable pub diff_bad_cases : List BadCase → List BadCase → List BadCase
diff_bad_cases reference target = keep (λ bc. not (has_case reference bc)) target

unfoldable pub overlap_eval_bad_cases : List BadCase → List BadCase → ℕ
overlap_eval_bad_cases left right = count_if (has_case left) right

-- `n > max`
abbrev pub exceeds : ℕ → ℤ → Bool
exceeds n (pos m) = ltb m n
exceeds n (negsuc m) = true

unfoldable pub classify_regression : Float64 → ℕ → RegressionThresholds → String
unfolding float_lt float_le negate
classify_regression score_delta new_bad_case_count thresholds =
    let drop = thresholds.score_drop_threshold in
    if (float_lt score_zero drop && float_le score_delta (negate drop))
      || exceeds new_bad_case_count thresholds.new_failed_cases_max
    then verdict_regression
    else if float_lt drop score_delta && eqb new_bad_case_count 0
    then verdict_improvement
    else verdict_stable

abbrev prefixed : String → Result EvalError EvalReport → Result EvalError EvalReport
prefixed prefix (ok r) = ok r
prefixed prefix (err e) = err (wrapped prefix e)

module _ (numerics : Numerics) where
  -- The result, given both reports.
  unfoldable pub regression_between :
      String → String → RegressionThresholds → EvalReport → EvalReport → RegressionResult
  unfolding diff_bad_cases classify_regression
  regression_between baseline_id candidate_id thresholds baseline candidate =
      let new_bad_cases = diff_bad_cases baseline.bad_cases candidate.bad_cases in
      let score_delta = numerics.subtract candidate.average_score baseline.average_score in
      record {
        baseline_report_id = baseline_id;
        candidate_report_id = candidate_id;
        verdict = classify_regression score_delta (length new_bad_cases) thresholds;
        average_score_delta = score_delta;
        passed_items_delta = candidate.passed_items − baseline.passed_items;
        failed_items_delta = candidate.failed_items − baseline.failed_items;
        new_bad_cases = new_bad_cases;
        resolved_bad_cases = diff_bad_cases candidate.bad_cases baseline.bad_cases;
        thresholds = thresholds;
      }

  unfoldable pub detect_regression :
      String → String → RegressionThresholds → Store → Result EvalError RegressionResult
  unfolding regression_between get_eval_report
  detect_regression baseline_id candidate_id thresholds s =
      if baseline_id == ""
      then err (message "baseline_report_id is required")
      else if candidate_id == ""
      then err (message "candidate_report_id is required")
      else elim (prefixed "load baseline report" (get_eval_report baseline_id s)) [
        | err e ↦ err e
        | ok baseline ↦ elim (prefixed "load candidate report" (get_eval_report candidate_id s)) [
          | err e ↦ err e
          | ok candidate ↦
              ok (regression_between baseline_id candidate_id thresholds baseline candidate)
        ]
      ]

-- `CaseCreateInput`
pub record CaseCreateInput : Type 0 where
  pub tenant_id : String
  pub title : String
  pub summary : String
  pub source_eval_report_id : String
  pub source_eval_case_id : String
  pub source_eval_run_id : String
  pub created_by : String

module _ {S : Type 0} (numerics : Numerics) (create_case : CaseCreateInput → S → Bool × S) where
  -- The input that a bad case is promoted with.
  unfoldable pub promotion_input : RegressionResult → String → String → BadCase → CaseCreateInput
  promotion_input result tenant_id created_by bc = record {
    tenant_id = tenant_id;
    title = "Regression: " <> bc.title;
    summary =
        "New bad case detected in regression check (score="
        <> numerics.fixed_3 bc.score
        <> ", verdict="
        <> bc.verdict
        <> "). Baseline: "
        <> result.baseline_report_id
        <> ", Candidate: "
        <> result.candidate_report_id;
    source_eval_report_id = result.candidate_report_id;
    source_eval_case_id = bc.eval_case_id;
    source_eval_run_id = "";
    created_by = created_by;
  }

  -- The loop, which goes on after an error and counts the cases created.
  unfoldable pub promote_each : RegressionResult → String → String → List BadCase → S → ℕ × S
  unfolding promotion_input
  promote_each result tenant_id created_by [] s = (0, s)
  promote_each result tenant_id created_by (bc ∷ bcs) s =
      let (created, s₁) = create_case (promotion_input result tenant_id created_by bc) s in
      let (count, s₂) = promote_each result tenant_id created_by bcs s₁ in
      (if created then count + 1 else count, s₂)

-- `cases` is none where no `CaseCreator` is configured.
unfoldable pub promote_regression_cases :
    {S : Type 0}
    → Numerics
    → Option (CaseCreateInput → S → Bool × S)
    → RegressionResult
    → String
    → String
    → S
    → Result EvalError ℕ × S
unfolding promote_each
promote_regression_cases numerics none result tenant_id created_by s =
    (err (message "case creator not configured"), s)
promote_regression_cases numerics (some create_case) result tenant_id created_by s =
    if result.verdict == verdict_regression
    then (let (promoted, s') =
          promote_each numerics create_case result tenant_id created_by result.new_bad_cases s in
        (ok promoted, s'))
    else (ok 0, s)
