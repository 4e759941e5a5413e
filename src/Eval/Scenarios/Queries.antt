-- ===== src/Eval/Scenarios/Queries.antt =====
-- Tests of the listing of evaluation cases and of the comparison of reports (internal/eval), and the
-- theorems about them at work.
use opspilot_go_dev_kit.Prelude.{
  Bool, Option, ◌==◌, ℕ, String, ◌≡◌, ◌≢◌, refl, true, some, List, [], ◌∷◌, ok, arith, map, keep,
}
use opspilot_go_dev_kit.Prelude.Floats.{float_zero, float_lt, float_le, negate}
use opspilot_go_dev_kit.Prelude.Decimal.{decimal, write_digits}
use opspilot_go_dev_kit.Prelude.Strings.{trim_space, trim_left, trim_right}
use opspilot_go_dev_kit.Prelude.Dict.{find, put}
use opspilot_go_dev_kit.Prelude.Sorting.{sort, insert}
use opspilot_go_dev_kit.Prelude.Paging.{ℤ, pos, page_limit}
use opspilot_go_dev_kit.Eval.Types.{EvalReport, ListFilter, BadCase}
use opspilot_go_dev_kit.Eval.Services.{new_evals, new_id, fallback_string}
use opspilot_go_dev_kit.Cases.Memory.{MemoryStore, new_memory_store}
use opspilot_go_dev_kit.Cases.Service.{service_summarize_by_source_eval_case_ids}
use opspilot_go_dev_kit.Cases.Summaries.Keys.{eval_case_summary, eval_case_summaries}
use opspilot_go_dev_kit.Eval.Store.{Store, new_store}
use opspilot_go_dev_kit.Eval.Store.Cases.{listed, skips}
use opspilot_go_dev_kit.Eval.Store.Reports.{get_eval_report}
use opspilot_go_dev_kit.Eval.Services.Listing.{returned, list_eval_cases, is_match}
use opspilot_go_dev_kit.Eval.Services.Listing.Pages.{page_at}
use opspilot_go_dev_kit.Eval.Services.Listing.FollowUp.{
  Summarizes, followed, list_eval_cases-page_at,
}
use opspilot_go_dev_kit.Eval.Regression.{
  RegressionResult, detect_regression, regression_between, diff_bad_cases, classify_regression,
  default_regression_thresholds,
}
use opspilot_go_dev_kit.Eval.Regression.Differences.{Describes}
use opspilot_go_dev_kit.Eval.Comparison.{Comparison, compare_eval_reports}
use opspilot_go_dev_kit.Eval.Comparison.Agreement.{Agrees, detect_regression-compare}
use opspilot_go_dev_kit.Eval.Store.Cases as StoredCases
use opspilot_go_dev_kit.Eval.Services.Cases.{
  Summarizer, promote_case, promoted_case, with_trace, after_save, enrich_eval_case,
  apply_follow_up_summaries, reused,
}
use opspilot_go_dev_kit.Eval.Reports.{Numerics}
use opspilot_go_dev_kit.Eval.Scenarios.{operator_case, eval_case_id, with_case}

-- The summaries of the case service, for a store with an open case that follows the evaluation case up.
abbrev case_store : MemoryStore
case_store = record new_memory_store {
  records =
      ("case-2", record operator_case { id = "case-2"; source_eval_case_id = eval_case_id }) ∷ [];
}

abbrev case_summaries : Summarizer
case_summaries tenant_id ids = service_summarize_by_source_eval_case_ids tenant_id ids case_store

case_summaries-Summarizes : Summarizes case_summaries (eval_case_summary case_store)
unfolding service_summarize_by_source_eval_case_ids
case_summaries-Summarizes = record { answers = eval_case_summaries case_store }

abbrev open_ones : ListFilter
open_ones = record {
  tenant_id = "t1";
  source_case_id = "";
  source_task_id = "";
  source_report_id = "";
  version_id = "";
  needs_follow_up = some true;
  limit = pos 5;
  offset = pos 0;
}

list_eval_cases-page_at_example :
    list_eval_cases 2 (some case_summaries) open_ones with_case.0
    ≡ returned (
        ok (
          page_at 5 0 (
            keep (is_match true) (
              map (followed (eval_case_summary case_store)) (listed open_ones with_case.0.store)))))
unfolding page_limit listed sort insert keep find put skips new_evals new_store promote_case
    StoredCases.get_by_source_case StoredCases.save promoted_case with_trace after_save
    enrich_eval_case apply_follow_up_summaries reused fallback_string trim_space trim_left
    trim_right decimal write_digits new_id
list_eval_cases-page_at_example =
    list_eval_cases-page_at case_summaries (eval_case_summary case_store) case_summaries-Summarizes
      open_ones with_case.0 true 0 2 refl refl has_tenant ((λ e. has_id e), tt) (omega arith)
      (omega arith)
  where
    has_tenant : ◌≢◌ {A = String} "t1" ""
    has_tenant e = cc

    has_id : ◌≢◌ {A = String} "eval-case-1000-1" ""
    has_id e = cc

-- A report of which only the bad cases matter.
abbrev report_with : String → List BadCase → EvalReport
report_with id bad = record {
  id = id;
  tenant_id = "t1";
  run_id = "";
  dataset_id = "";
  dataset_name = "";
  run_status = "succeeded";
  status = "ready";
  summary = "";
  total_items = 2;
  recorded_results = 2;
  passed_items = 1;
  failed_items = 1;
  missing_results = 0;
  average_score = float_zero;
  judge_version = "";
  metadata_json = "";
  bad_cases = bad;
  created_at = 1;
  updated_at = 1;
  ready_at = 1;
}

abbrev bad : String → BadCase
bad id = record {
  eval_case_id = id;
  title = id;
  source_case_id = "";
  source_task_id = "";
  source_report_id = "";
  trace_id = "";
  version_id = "";
  verdict = "fail";
  detail = "";
  score = float_zero;
}

abbrev two_reports : Store
two_reports = record new_store {
  eval_reports =
      ("a", report_with "a" (bad "x" ∷ bad "y" ∷ []))
      ∷ ("b", report_with "b" (bad "y" ∷ bad "z" ∷ []))
      ∷ [];
}

-- No arithmetic is needed: every number is 0.
abbrev no_numerics : Numerics
no_numerics = record {
  add = λ x y. float_zero;
  subtract = λ x y. float_zero;
  divide = λ x y. float_zero;
  of_int = λ n. float_zero;
  fixed_3 = λ x. "0.000";
  marshal = λ m. "{}";
  prompt_path = λ s. "";
}

abbrev found_regression : RegressionResult
found_regression = record {
  baseline_report_id = "a";
  candidate_report_id = "b";
  verdict = "regression";
  average_score_delta = float_zero;
  passed_items_delta = pos 0;
  failed_items_delta = pos 0;
  new_bad_cases = bad "z" ∷ [];
  resolved_bad_cases = bad "x" ∷ [];
  thresholds = default_regression_thresholds;
}

regression_test :
    detect_regression no_numerics "a" "b" default_regression_thresholds two_reports
    ≡ ok found_regression
unfolding detect_regression get_eval_report new_store find regression_between diff_bad_cases keep
    classify_regression float_lt float_le negate default_regression_thresholds
regression_test = refl

-- A stand-in for the codec of JSON: a text is its own value.
abbrev as_text : String → Option String
as_text text = some text

abbrev same_text : String → String → Bool
same_text a b = a == b

abbrev no_seconds : ℕ → ℕ → ℤ
no_seconds from to = pos 0

detect_regression-compare_example :
    (compared : Comparison) × (compare_eval_reports as_text same_text no_seconds no_numerics "a" "b"
        two_reports
      ≡ ok compared)
    × Describes no_numerics compared.left compared.right default_regression_thresholds
        found_regression
    × Agrees compared.left compared.right found_regression compared.summary
detect_regression-compare_example =
    detect_regression-compare as_text same_text no_seconds no_numerics "a" "b"
      default_regression_thresholds two_reports found_regression regression_test
