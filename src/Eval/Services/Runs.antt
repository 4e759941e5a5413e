-- ===== src/Eval/Services/Runs.antt =====
-- internal/eval/run_service.go: the service of the runs. `get_dataset` is its reader of datasets.
use opspilot_go_dev_kit.Prelude.{
  ℕ, zero, suc, String, ◌<>◌, ◌||◌, not, Option, none, List, Result, ok, err, ◌==◌, if◌then◌else◌,
  length,
}
use opspilot_go_dev_kit.Prelude.Clock.{next_uint64}
use opspilot_go_dev_kit.Prelude.Strings.{trim_space}
use opspilot_go_dev_kit.Prelude.Paging.{Page, ℤ, pos, negsuc, page_limit}
use opspilot_go_dev_kit.Eval.Types.{
  EvalDataset, EvalRun, RunEvent, RunDetail, RunListFilter, ItemResult, EvalError, message,
  dataset_missing, invalid_dataset, invalid_dataset_state, dataset_status_published,
  run_status_queued, item_result_succeeded, item_result_failed, CreateRunInput,
}
use opspilot_go_dev_kit.Eval.Store.{Store}
use opspilot_go_dev_kit.Eval.Store.Runs as Stored
use opspilot_go_dev_kit.Eval.Store.Claims as Changes
use opspilot_go_dev_kit.Eval.Judge.{RunJudge, placeholder_judge}
use opspilot_go_dev_kit.Eval.Services.{Evals, fallback_string, new_id}
use opspilot_go_dev_kit.Eval.Services.Datasets.{is_blank, on_store}

-- The run that `CreateRun` builds.
unfoldable pub new_run : ℕ → String → CreateRunInput → EvalDataset → EvalRun
unfolding fallback_string
new_run now id input dataset = record {
  id = id;
  tenant_id = dataset.tenant_id;
  dataset_id = dataset.id;
  dataset_name = dataset.name;
  dataset_item_count = length dataset.items;
  result_summary = none;
  status = run_status_queued;
  created_by = fallback_string (trim_space input.created_by) "operator";
  error_reason = "";
  created_at = now;
  updated_at = now;
  started_at = 0;
  finished_at = 0;
}

-- The items of the run are those of the dataset: the loop copies field by field.
unfoldable pub create_run :
    (String → Result EvalError EvalDataset)
    → ℕ
    → CreateRunInput
    → Evals
    → Result EvalError EvalRun × Evals
unfolding new_run new_id Stored.create_run
create_run get_dataset now input s =
    if is_blank input.tenant_id || is_blank input.dataset_id
    then (err invalid_dataset, s)
    else elim (get_dataset (trim_space input.dataset_id)) [
      | err e ↦ (err e, s)
      | ok dataset ↦
          if not (dataset.tenant_id == trim_space input.tenant_id)
          then (err dataset_missing, s)
          else if not (dataset.status == dataset_status_published)
          then (err invalid_dataset_state, s)
          else (let n = next_uint64 s.eval_run_id_sequence in
              on_store (record s { eval_run_id_sequence = n })
                (Stored.create_run (new_run now (new_id "eval-run-" now n) input dataset)
                  dataset.items s.store))
    ]

unfoldable pub get_run : String → Evals → Result EvalError EvalRun
unfolding Stored.get_run
get_run id s = Stored.get_run id s.store

unfoldable pub get_run_detail : String → Evals → Result EvalError RunDetail
unfolding Stored.get_run_detail
get_run_detail id s = Stored.get_run_detail id s.store

-- None is a panic of the store.
unfoldable pub list_runs : RunListFilter → Evals → Option (Page EvalRun)
unfolding Stored.list_runs
list_runs f s = Stored.list_runs (record f { limit = pos (page_limit f.limit) }) s.store

unfoldable pub list_run_events : String → Evals → Result EvalError (List RunEvent)
unfolding Stored.list_run_events
list_run_events id s = Stored.list_run_events id s.store

-- `if limit <= 0 { limit = 10 }`
unfoldable pub claim_limit : ℤ → ℕ
claim_limit (pos zero) = 10
claim_limit (pos (suc n)) = suc n
claim_limit (negsuc n) = 10

unfoldable pub claim_queued_runs : ℤ → ℕ → Evals → List EvalRun × Evals
unfolding claim_limit Changes.claim_queued_runs
claim_queued_runs limit now s =
    on_store s (Changes.claim_queued_runs (claim_limit limit) now s.store)

-- The judge builds the results for the items of the run, and the store takes them. The judge's error is
-- wrapped with what it was asked for.
unfoldable pub finalize :
    RunJudge
    → String
    → String
    → String
    → ℕ
    → (List ItemResult → Store → Result EvalError EvalRun × Store)
    → String
    → Evals
    → Result EvalError EvalRun × Evals
unfolding Stored.get_run_detail
finalize judge what status detail now mark id s = elim (Stored.get_run_detail id s.store) [
  | err e ↦ (err e, s)
  | ok found ↦ elim (judge found.items status detail now) [
    | err e ↦ (err (message (what <> ": " <> e)), s)
    | ok results ↦ on_store s (mark results s.store)
  ]
]

unfoldable pub mark_run_succeeded : RunJudge → ℕ → String → Evals → Result EvalError EvalRun × Evals
unfolding finalize Changes.mark_run_succeeded
mark_run_succeeded judge now id s =
    finalize judge "build succeeded item results" item_result_succeeded "placeholder eval passed"
      now (Changes.mark_run_succeeded id now) id s

unfoldable pub mark_run_failed :
    RunJudge → ℕ → String → String → Evals → Result EvalError EvalRun × Evals
unfolding finalize Changes.mark_run_failed
mark_run_failed judge now id reason s =
    finalize judge "build failed item results" item_result_failed (trim_space reason) now
      (Changes.mark_run_failed id (trim_space reason) now) id s

unfoldable pub mark_run_failed_with_fallback :
    ℕ → String → String → Evals → Result EvalError EvalRun × Evals
unfolding finalize Changes.mark_run_failed placeholder_judge
mark_run_failed_with_fallback now id reason s =
    finalize placeholder_judge "build fallback failed item results" item_result_failed
      (trim_space reason) now (Changes.mark_run_failed id (trim_space reason) now) id s

unfoldable pub retry_run : ℕ → String → Evals → Result EvalError EvalRun × Evals
unfolding Changes.retry_run
retry_run now id s = on_store s (Changes.retry_run id now s.store)
