-- ===== src/Eval/Scenarios.antt =====
-- A case promoted into a dataset that is published and run (internal/eval): tests of the services, and the
-- theorems of the modules beside this one at work.
mod Queries
use opspilot_go_dev_kit.Prelude.{
  ℕ, ◌+◌, String, ◌≡◌, ◌≢◌, ◌⊎◌, refl, true, none, some, List, [], ◌∷◌, Result, ok, err, All,
  AllPairs, arith, is_some, length, map, keep,
}
use opspilot_go_dev_kit.Prelude.Clock.{next_uint64}
use opspilot_go_dev_kit.Prelude.Floats.{float_zero, float_lt, float_le, negate}
use opspilot_go_dev_kit.Prelude.Decimal.{decimal, write_digits}
use opspilot_go_dev_kit.Prelude.Ids.{number_of, number_from}
use opspilot_go_dev_kit.Prelude.Strings.{trim_space, trim_left, trim_right}
use opspilot_go_dev_kit.Prelude.Dict.{find, put}
use opspilot_go_dev_kit.Prelude.Sorting.{sort, insert}
use opspilot_go_dev_kit.Prelude.Paging.{pos, page_limit}
use opspilot_go_dev_kit.Cases.Types.{Case, CaseError}
use opspilot_go_dev_kit.Eval.Types.{
  EvalRun, EvalDataset, EvalReport, RunDetail, EvalError, CreateInput, CreateDatasetInput,
  AddDatasetItemInput, PublishDatasetInput, CreateRunInput, ListFilter, BadCase, wrapped,
  run_not_found,
}
use opspilot_go_dev_kit.Eval.Judge.{placeholder_judge, placeholder_item_result}
use opspilot_go_dev_kit.Eval.Services.{Evals, new_evals, new_id, fallback_string}
use opspilot_go_dev_kit.Cases.Memory.{MemoryStore, new_memory_store}
use opspilot_go_dev_kit.Cases.Service.{service_summarize_by_source_eval_case_ids}
use opspilot_go_dev_kit.Cases.Summaries.Keys.{eval_case_summary, eval_case_summaries}
use opspilot_go_dev_kit.Eval.Store.{Store, new_store}
use opspilot_go_dev_kit.Eval.Store.Cases.{listed, skips}
use opspilot_go_dev_kit.Eval.Store.Reports.{get_eval_report}
use opspilot_go_dev_kit.Eval.Services.Listing.{returned, list_eval_cases, is_match}
use opspilot_go_dev_kit.Eval.Services.Listing.Pages.{page_at}
use opspilot_go_dev_kit.Eval.Services.Listing.FollowUp.{
  Summarizes, followed, list_eval_cases-page_at,
}
use opspilot_go_dev_kit.Eval.Regression.{
  RegressionResult, detect_regression, regression_between, diff_bad_cases, classify_regression,
  default_regression_thresholds,
}
use opspilot_go_dev_kit.Eval.Regression.Differences.{Describes, detect_regression-Describes}
use opspilot_go_dev_kit.Eval.Store.Cases as StoredCases
use opspilot_go_dev_kit.Eval.Store.Datasets as StoredSets
use opspilot_go_dev_kit.Eval.Store.Runs as StoredRuns
use opspilot_go_dev_kit.Eval.Store.Runs.{
  append_run_event_locked, with_run_result_summary, summarize_run_results_for_total, delete,
}
use opspilot_go_dev_kit.Eval.Store.Claims as Changes
use opspilot_go_dev_kit.Eval.Store.Claims.{
  claim_each, claim_run, claimed as claimed_run, queued_runs, is_older, finished,
  retried as retried_run,
}
use opspilot_go_dev_kit.Eval.Services.Cases.{
  Summarizer, promote_case, promoted_case, with_trace, after_save, enrich_eval_case,
  apply_follow_up_summaries, reused, get_eval_case,
}
use opspilot_go_dev_kit.Eval.Services.Datasets.{
  get_dataset, add_dataset_item, create_dataset, dataset_items, new_dataset, publish_dataset,
}
use opspilot_go_dev_kit.Eval.Services.Runs.{
  get_run_detail, claim_queued_runs, create_run, new_run, claim_limit, mark_run_failed, finalize,
  retry_run,
}
use opspilot_go_dev_kit.Eval.Lifecycle.{
  Step, Reach, started, then_step, promoted, dataset_created, item_added, published, run_created,
  claimed, failed, retried,
}
use opspilot_go_dev_kit.Eval.Lifecycle.Replay.{replay}
use opspilot_go_dev_kit.Eval.Lifecycle.Timeline.{get_run_detail-replay}
use opspilot_go_dev_kit.Eval.Lifecycle.Members.{Differ}
use opspilot_go_dev_kit.Eval.Lifecycle.Published.{get_dataset-Differ, published_stays}
use opspilot_go_dev_kit.Eval.Reports.{Numerics}
use opspilot_go_dev_kit.Eval.Runner.{Times, process_next_batch}
use opspilot_go_dev_kit.Eval.Reports.Terminal.{no_results}
use opspilot_go_dev_kit.Eval.Runner.Marks.{Ended}
use opspilot_go_dev_kit.Eval.Runner.Ends.{process_next_batch_ends}

abbrev start_time : ℕ
start_time = 62135596800000001000

abbrev pub operator_case : Case
operator_case = record {
  id = "case-1";
  tenant_id = "t1";
  status = "open";
  title = "wrong total";
  summary = "the total is wrong";
  source_task_id = "task-1";
  source_report_id = "";
  source_eval_report_id = "";
  source_eval_case_id = "";
  source_eval_run_id = "";
  compare_origin = record {
    left_eval_report_id = "";
    right_eval_report_id = "";
    selected_side = "";
  };
  created_by = "ann";
  assigned_to = "";
  assigned_at = 0;
  closed_by = "";
  created_at = 1;
  updated_at = 1;
}

abbrev read_case : String → Result CaseError Case
read_case id = ok operator_case

abbrev promotion : CreateInput
promotion = record {
  tenant_id = "t1";
  source_case_id = "case-1";
  operator_note = "";
  created_by = "ann";
}

abbrev pub eval_case_id : String
eval_case_id = "eval-case-1000-1"

abbrev dataset_id : String
dataset_id = "eval-dataset-1001-1"

abbrev run_id : String
run_id = "eval-run-1003-1"

abbrev dataset_input : CreateDatasetInput
dataset_input = record {
  tenant_id = "t1";
  name = "totals";
  description = "";
  eval_case_ids = eval_case_id ∷ [];
  created_by = "ann";
}

abbrev publish_input : PublishDatasetInput
publish_input = record { tenant_id = "t1"; published_by = "ann" }

abbrev run_input : CreateRunInput
run_input = record { tenant_id = "t1"; dataset_id = dataset_id; created_by = "ann" }

-- The states behind each call, with the calls that lead to them.
abbrev Reached : Type 0
Reached = (s : Evals) × Reach s

abbrev after : (r : Reached) {s : Evals} → Step r.0 s → Reached
after r {s} w = (s, then_step r.1 w)

abbrev at_start : Reached
at_start = (new_evals, started)

abbrev pub with_case : Reached
with_case = after at_start (promoted read_case none none start_time start_time promotion)

abbrev with_dataset : Reached
with_dataset = after with_case (dataset_created none (start_time + 1) dataset_input)

abbrev with_published : Reached
with_published = after with_dataset (published (start_time + 2) dataset_id publish_input)

abbrev with_run : Reached
with_run = after with_published (run_created (start_time + 3) run_input)

abbrev with_claim : Reached
with_claim = after with_run (claimed (pos 1) (start_time + 4))

abbrev with_failure : Reached
with_failure = after with_claim (failed placeholder_judge (start_time + 5) run_id "boom")

abbrev with_retry : Reached
with_retry = after with_failure (retried (start_time + 6) run_id)

get_run_detail-replay_example :
    ((d : RunDetail) × (get_run_detail run_id with_retry.0 ≡ ok d)
      × (replay d.events ≡ some d.run.status))
    ⊎ (get_run_detail run_id with_retry.0 ≡ err (run_not_found run_id))
get_run_detail-replay_example = get_run_detail-replay with_retry.1 run_id

abbrev batch : List EvalRun
batch = (claim_queued_runs (pos 0) (start_time + 7) with_retry.0).0

abbrev times : EvalRun → Times
times run = record { first = start_time + 8; second = start_time + 9 }

abbrev after_batch : Result EvalError ℕ × Evals
after_batch =
    process_next_batch placeholder_judge none (λ run. none) times (pos 0) (start_time + 7)
      with_retry.0

process_next_batch_ends_example :
    Reach after_batch.1
    × (((after_batch.0 ≡ ok (length batch)) × All (λ run. Ended after_batch.1.store run.id) batch)
        ⊎ ((is_some {A = Numerics} none ≡ true)
            × (after_batch.0 ≡ err (wrapped "materialize eval report" no_results))))
process_next_batch_ends_example =
    process_next_batch_ends with_retry.1 placeholder_judge none (λ run. none) times (pos 0)
      (start_time + 7)

abbrev actions : Result EvalError RunDetail → List String
actions (ok d) = map (λ e. e.action) d.events
actions (err _) = []

timeline_test :
    actions (get_run_detail run_id with_retry.0) ≡ "created" ∷ "claimed" ∷ "failed" ∷ "retried" ∷ []
unfolding new_evals new_store promote_case StoredCases.get_by_source_case StoredCases.save
    promoted_case with_trace after_save enrich_eval_case apply_follow_up_summaries reused
    fallback_string trim_space trim_left trim_right decimal write_digits new_id find put
    create_dataset dataset_items new_dataset StoredSets.create_dataset publish_dataset
    StoredSets.get_dataset StoredSets.publish_dataset get_dataset create_run new_run
    StoredRuns.create_run append_run_event_locked claim_queued_runs claim_limit
    Changes.claim_queued_runs claim_each claim_run claimed_run queued_runs sort insert keep is_older
    mark_run_failed finalize StoredRuns.get_run_detail with_run_result_summary
    summarize_run_results_for_total placeholder_judge placeholder_item_result
    Changes.mark_run_failed finished retry_run Changes.retry_run retried_run delete get_run_detail
    get_eval_case StoredCases.get
timeline_test = refl

abbrev published_dataset : EvalDataset
published_dataset = record {
  id = dataset_id;
  tenant_id = "t1";
  name = "totals";
  description = "";
  status = "published";
  created_by = "ann";
  created_at = start_time + 1;
  updated_at = start_time + 2;
  published_by = "ann";
  published_at = start_time + 2;
  items =
      record {
        eval_case_id = eval_case_id;
        title = "wrong total";
        source_case_id = "case-1";
        source_task_id = "task-1";
        source_report_id = "";
        trace_id = "";
        version_id = "";
      }
      ∷ [];
}

published_test : get_dataset dataset_id with_published.0 ≡ ok published_dataset
unfolding new_evals new_store promote_case StoredCases.get_by_source_case StoredCases.save
    promoted_case with_trace after_save enrich_eval_case apply_follow_up_summaries reused
    fallback_string trim_space trim_left trim_right decimal write_digits new_id find put
    create_dataset dataset_items new_dataset StoredSets.create_dataset publish_dataset
    StoredSets.get_dataset StoredSets.publish_dataset get_dataset get_eval_case StoredCases.get
    StoredSets.published
published_test = refl

get_dataset-Differ_example : AllPairs Differ published_dataset.items
get_dataset-Differ_example =
    get_dataset-Differ with_published.1 dataset_id published_dataset published_test

abbrev addition : AddDatasetItemInput
addition = record { tenant_id = "t1"; eval_case_id = eval_case_id; added_by = "ann" }

next_number : number_of dataset_id ≢ next_uint64 with_published.0.eval_dataset_id_sequence
unfolding number_from new_evals new_store promote_case StoredCases.get_by_source_case
    StoredCases.save promoted_case with_trace after_save enrich_eval_case apply_follow_up_summaries
    reused fallback_string trim_space trim_left trim_right decimal write_digits new_id find put
    create_dataset dataset_items new_dataset StoredSets.create_dataset publish_dataset
    StoredSets.get_dataset StoredSets.publish_dataset get_dataset get_eval_case StoredCases.get
    StoredSets.published
next_number e = omega arith

published_stays_example :
    get_dataset dataset_id
      (add_dataset_item
        (λ id. get_eval_case none id with_published.0)
        (start_time + 3)
        dataset_id
        addition
        with_published.0).1
    ≡ ok published_dataset
published_stays_example =
    published_stays with_published.1 (item_added none (start_time + 3) dataset_id addition)
      dataset_id published_dataset published_test refl next_number
