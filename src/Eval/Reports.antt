-- ===== src/Eval/Reports.antt =====
-- internal/eval/report_service.go: the report of a finished run. The arithmetic of `float64`, its format
-- and the codec of JSON are arguments: the report stores what they give.
pub mod Terminal
use opspilot_go_dev_kit.Prelude.{
  ℕ, String, ◌<>◌, Bool, ◌||◌, not, Option, none, some, List, [], ◌∷◌, ◌++◌, Result, ok, err, ◌==◌,
  if◌then◌else◌, eqb, ltb, any, length,
}
use opspilot_go_dev_kit.Prelude.Decimal.{decimal}
use opspilot_go_dev_kit.Prelude.Dict.{Dict, find, put}
use opspilot_go_dev_kit.Prelude.Paging.{Page, pos, page_limit}
use opspilot_go_dev_kit.Prelude.Floats.{Float64}
use opspilot_go_dev_kit.Eval.Types.{
  EvalRun, EvalReport, ReportListFilter, RunDetail, RunResultSummary, BadCase, Item, ItemResult,
  EvalError, message, run_status_succeeded, run_status_failed, report_status_ready, verdict_fail,
  item_result_failed, eval_report_id_from_run_id,
}
use opspilot_go_dev_kit.Eval.Store.{Store}
use opspilot_go_dev_kit.Eval.Store.Runs.{summarize_run_results_for_total, get_run_detail}
use opspilot_go_dev_kit.Eval.Store.Reports as Stored
use opspilot_go_dev_kit.Eval.Judge.{score_zero}

-- The map that `buildEvalReport` marshals. `ready_at` is the time before it is formatted.
pub record Metadata : Type 0 where
  pub run_status : String
  pub judge_versions : List String
  pub judge_prompt_paths : List String
  pub version_ids : List String
  pub dataset_item_count : ℕ
  pub recorded_results : ℕ
  pub bad_case_count : ℕ
  pub ready_at : ℕ
  pub result_summary : RunResultSummary

-- `add`, `divide` and `subtract` are the machine's arithmetic, `of_int` is `float64(n)`, `fixed_3` is
-- `%.3f`, `marshal` is `json.Marshal`, and `prompt_path` is `judgePromptPathFromOutput`.
pub record Numerics : Type 0 where
  pub add : Float64 → Float64 → Float64
  pub subtract : Float64 → Float64 → Float64
  pub divide : Float64 → Float64 → Float64
  pub of_int : ℕ → Float64
  pub fixed_3 : Float64 → String
  pub marshal : Metadata → String
  pub prompt_path : String → String

unfoldable pub append_if_missing : List String → String → List String
append_if_missing values candidate =
    if candidate == "" || any (λ v. v == candidate) values then values else values ++ candidate ∷ []

unfoldable pub collapse_single : List String → String
collapse_single [] = ""
collapse_single (value ∷ []) = value
collapse_single (value ∷ other ∷ rest) = ""

-- `itemByCaseID`
unfoldable pub items_by_case_id : List Item → Dict Item → Dict Item
items_by_case_id [] found = found
items_by_case_id (item ∷ items) found = items_by_case_id items (put item.eval_case_id item found)

abbrev pub is_bad : ItemResult → Bool
is_bad r = r.verdict == verdict_fail || r.status == item_result_failed

unfoldable pub bad_case : ItemResult → Item → BadCase
bad_case r item = record {
  eval_case_id = r.eval_case_id;
  title = item.title;
  source_case_id = item.source_case_id;
  source_task_id = item.source_task_id;
  source_report_id = item.source_report_id;
  trace_id = item.trace_id;
  version_id = item.version_id;
  verdict = r.verdict;
  detail = r.detail;
  score = r.score;
}

-- The bad cases that the loop collects.
unfoldable pub bad_cases : Dict Item → List ItemResult → List BadCase
unfolding bad_case
bad_cases items [] = []
bad_cases items (r ∷ rs) =
    let rest = bad_cases items rs in
    elim (find r.eval_case_id items) [
      | none ↦ rest
      | some item ↦ if is_bad r then bad_case r item ∷ rest else rest
    ]

-- The distinct texts, in the order of their first occurrence.
abbrev pub collect : List String → List String → List String
collect seen [] = seen
collect seen (v ∷ vs) = collect (append_if_missing seen v) vs

abbrev pub texts_of : (ItemResult → String) → List ItemResult → List String
texts_of text [] = []
texts_of text (r ∷ rs) = text r ∷ texts_of text rs

abbrev pub version_of : Option Item → String
version_of none = ""
version_of (some item) = item.version_id

module _ (numerics : Numerics) where
  abbrev pub total_score : Float64 → List ItemResult → Float64
  total_score total [] = total
  total_score total (r ∷ rs) = total_score (numerics.add total r.score) rs

  unfoldable pub average_score : RunResultSummary → List ItemResult → Float64
  average_score summary results =
      if ltb 0 summary.recorded_results
      then numerics.divide (total_score score_zero results)
          (numerics.of_int summary.recorded_results)
      else score_zero

  unfoldable pub report_summary : RunResultSummary → Float64 → String
  report_summary summary average =
      decimal summary.failed_items
      <> " failed / "
      <> decimal summary.succeeded_items
      <> " passed / "
      <> decimal summary.total_items
      <> " total (avg score "
      <> numerics.fixed_3 average
      <> ")"

  abbrev pub ready_at : EvalRun → ℕ
  ready_at run = if eqb run.finished_at 0 then run.updated_at else run.finished_at

  -- The report, given the summary of the results.
  unfoldable pub report_of : RunDetail → RunResultSummary → EvalReport
  unfolding bad_cases items_by_case_id average_score report_summary collapse_single
      append_if_missing
  report_of detail summary =
      let run = detail.run in
      let results = detail.item_results in
      let items = items_by_case_id detail.items [] in
      let bad = bad_cases items results in
      let judge_versions = collect [] (texts_of (λ r. r.judge_version) results) in
      let average = average_score summary results in
      record {
        id = eval_report_id_from_run_id run.id;
        tenant_id = run.tenant_id;
        run_id = run.id;
        dataset_id = run.dataset_id;
        dataset_name = run.dataset_name;
        run_status = run.status;
        status = report_status_ready;
        summary = report_summary summary average;
        total_items = summary.total_items;
        recorded_results = summary.recorded_results;
        passed_items = summary.succeeded_items;
        failed_items = summary.failed_items;
        missing_results = summary.missing_results;
        average_score = average;
        judge_version = collapse_single judge_versions;
        metadata_json = numerics.marshal (record {
          run_status = run.status;
          judge_versions = judge_versions;
          judge_prompt_paths =
              collect [] (texts_of (λ r. numerics.prompt_path r.judge_output) results);
          version_ids = collect [] (texts_of (λ r. version_of (find r.eval_case_id items)) results);
          dataset_item_count = run.dataset_item_count;
          recorded_results = summary.recorded_results;
          bad_case_count = length bad;
          ready_at = ready_at run;
          result_summary = summary;
        });
        bad_cases = bad;
        created_at = run.created_at;
        updated_at = ready_at run;
        ready_at = ready_at run;
      }

  abbrev pub is_terminal : EvalRun → Bool
  is_terminal run = run.status == run_status_succeeded || run.status == run_status_failed

  -- `summary := run.ResultSummary`, or the one made of the results where that is nil.
  abbrev pub summary_for : RunDetail → Option RunResultSummary
  summary_for detail = elim detail.run.result_summary [
    | some summary ↦ some summary
    | none ↦ summarize_run_results_for_total detail.run.dataset_item_count detail.item_results
  ]

  unfoldable pub build_eval_report : RunDetail → Result EvalError EvalReport
  unfolding report_of summarize_run_results_for_total
  build_eval_report detail =
      if not (is_terminal detail.run)
      then err (message "eval report requires terminal run state")
      else elim (summary_for detail) [
        | none ↦ err (message "eval report requires item results")
        | some summary ↦ ok (report_of detail summary)
      ]

  unfoldable pub materialize_run_report : String → Store → Result EvalError EvalReport × Store
  unfolding get_run_detail build_eval_report Stored.save_eval_report
  materialize_run_report run_id s = elim (get_run_detail run_id s) [
    | err e ↦ (err e, s)
    | ok detail ↦ elim (build_eval_report detail) [
      | err e ↦ (err e, s)
      | ok report ↦ Stored.save_eval_report report s
    ]
  ]

unfoldable pub get_eval_report : String → Store → Result EvalError EvalReport
unfolding Stored.get_eval_report
get_eval_report id s = Stored.get_eval_report id s

-- None is a panic of the store.
unfoldable pub list_eval_reports : ReportListFilter → Store → Option (Page EvalReport)
unfolding Stored.list_eval_reports
list_eval_reports f s = Stored.list_eval_reports (record f { limit = pos (page_limit f.limit) }) s
