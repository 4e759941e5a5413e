-- ===== src/Eval/Comparison.antt =====
-- internal/eval/report_service.go: the comparison of two reports. `decode` is `json.Unmarshal`, where none
-- is an error, `deep_equal` is `reflect.DeepEqual`, and `seconds_between` the whole seconds from one time
-- to another, as `Sub` and `Seconds` give them.
pub mod Agreement
use opspilot_go_dev_kit.Prelude.{
  ℕ, String, Bool, true, not, Option, none, some, Result, ok, err, ◌==◌, ◌&&◌, if◌then◌else◌,
  length,
}
use opspilot_go_dev_kit.Prelude.Paging.{ℤ}
use opspilot_go_dev_kit.Prelude.Floats.{Float64}
use opspilot_go_dev_kit.Eval.Types.{EvalReport, EvalError, message}
use opspilot_go_dev_kit.Eval.Store.{Store}
use opspilot_go_dev_kit.Eval.Store.Reports.{get_eval_report}
use opspilot_go_dev_kit.Eval.Reports.{Numerics}
use opspilot_go_dev_kit.Eval.Regression.{◌−◌, overlap_eval_bad_cases}

pub record ComparisonSummary : Type 0 where
  pub same_tenant : Bool
  pub same_dataset : Bool
  pub same_run_status : Bool
  pub judge_version_changed : Bool
  pub metadata_changed : Bool
  pub total_items_delta : ℤ
  pub recorded_results_delta : ℤ
  pub passed_items_delta : ℤ
  pub failed_items_delta : ℤ
  pub missing_results_delta : ℤ
  pub average_score_delta : Float64
  pub bad_case_count_delta : ℤ
  pub bad_case_overlap_count : ℕ
  pub ready_at_delta_second : ℤ

pub record Comparison : Type 0 where
  pub left : EvalReport
  pub right : EvalReport
  pub summary : ComparisonSummary

module _ {J : Type 0} (decode : String → Option J) (deep_equal : J → J → Bool)
    (seconds_between : ℕ → ℕ → ℤ) (numerics : Numerics) where
  unfoldable pub equal_eval_json : String → String → Bool
  equal_eval_json left right = if left == "" && right == "" then true else elim (decode left) [
    | none ↦ left == right
    | some left_value ↦ elim (decode right) [
      | none ↦ left == right
      | some right_value ↦ deep_equal left_value right_value
    ]
  ]

  unfoldable pub comparison_summary : EvalReport → EvalReport → ComparisonSummary
  unfolding equal_eval_json overlap_eval_bad_cases
  comparison_summary left right = record {
    same_tenant = left.tenant_id == right.tenant_id;
    same_dataset = left.dataset_id == right.dataset_id;
    same_run_status = left.run_status == right.run_status;
    judge_version_changed = not (left.judge_version == right.judge_version);
    metadata_changed = not (equal_eval_json left.metadata_json right.metadata_json);
    total_items_delta = right.total_items − left.total_items;
    recorded_results_delta = right.recorded_results − left.recorded_results;
    passed_items_delta = right.passed_items − left.passed_items;
    failed_items_delta = right.failed_items − left.failed_items;
    missing_results_delta = right.missing_results − left.missing_results;
    average_score_delta = numerics.subtract right.average_score left.average_score;
    bad_case_count_delta = length right.bad_cases − length left.bad_cases;
    bad_case_overlap_count = overlap_eval_bad_cases left.bad_cases right.bad_cases;
    ready_at_delta_second = seconds_between left.ready_at right.ready_at;
  }

  unfoldable pub compare_eval_reports : String → String → Store → Result EvalError Comparison
  unfolding get_eval_report comparison_summary
  compare_eval_reports left_id right_id s =
      if left_id == ""
      then err (message "left_report_id is required")
      else if right_id == ""
      then err (message "right_report_id is required")
      else elim (get_eval_report left_id s) [
        | err e ↦ err e
        | ok left ↦ elim (get_eval_report right_id s) [
          | err e ↦ err e
          | ok right ↦
              ok (record { left = left; right = right; summary = comparison_summary left right })
        ]
      ]
