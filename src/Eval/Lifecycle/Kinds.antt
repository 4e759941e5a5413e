-- ===== src/Eval/Lifecycle/Kinds.antt =====
-- The writes to the store that calls of the evaluation services make (internal/eval).
use opspilot_go_dev_kit.Prelude.{ℕ, String, ◌≡◌, some, List, [], Result, ok}
use opspilot_go_dev_kit.Prelude.Ids.{number_of}
use opspilot_go_dev_kit.Prelude.Dict.{find}
use opspilot_go_dev_kit.Eval.Types.{
  EvalReport, EvalCase, EvalDataset, EvalRun, Item, ItemResult, EvalError, dataset_status_draft,
  run_status_queued,
}
use opspilot_go_dev_kit.Eval.Store.Reports.{save_eval_report}
use opspilot_go_dev_kit.Eval.Store.{Store}
use opspilot_go_dev_kit.Eval.Store.Cases as StoredCases
use opspilot_go_dev_kit.Eval.Store.Datasets as StoredSets
use opspilot_go_dev_kit.Eval.Store.Datasets.{has_item}
use opspilot_go_dev_kit.Eval.Store.Runs as StoredRuns
use opspilot_go_dev_kit.Eval.Store.Claims as Changes
use opspilot_go_dev_kit.Eval.Services.Datasets.{dataset_items}
use opspilot_go_dev_kit.Eval.Lifecycle.Readers.{Reader}

-- `n` is the number that the next id of a dataset takes.
pub data Write (n : ℕ) : Store → Store → Type 0 where
  unchanged : {s : Store} → Write n s s
  case_saved : {s : Store} (item : EvalCase) → Write n s (StoredCases.save item s).1
  dataset_made :
      {s : Store} (get : String → Result EvalError EvalCase) (item : EvalDataset)
      (ids : List String)
      → Reader s get
      → dataset_items get item.tenant_id [] ids ≡ ok item.items
      → item.status ≡ dataset_status_draft
      → number_of item.id ≡ n
      → Write n s (StoredSets.create_dataset item s).1
  item_pushed :
      {s : Store} (id : String) (dataset : EvalDataset) (item : Item) (now : ℕ)
      → find id s.datasets ≡ some dataset
      → dataset.status ≡ dataset_status_draft
      → Write n s (StoredSets.add_dataset_item dataset.id item now s).1
  dataset_frozen :
      {s : Store} (id by : String) (now : ℕ) → Write n s (StoredSets.publish_dataset id by now s).1
  run_made :
      {s : Store} (run : EvalRun) (items : List Item)
      → run.status ≡ run_status_queued
      → Write n s (StoredRuns.create_run run items s).1
  runs_claimed : {s : Store} (limit now : ℕ) → Write n s (Changes.claim_queued_runs limit now s).1
  run_succeeded :
      {s : Store} (id : String) (now : ℕ) (results : List ItemResult)
      → Write n s (Changes.mark_run_succeeded id now results s).1
  run_failed :
      {s : Store} (id reason : String) (now : ℕ) (results : List ItemResult)
      → Write n s (Changes.mark_run_failed id reason now results s).1
  run_retried : {s : Store} (id : String) (now : ℕ) → Write n s (Changes.retry_run id now s).1
  report_saved : {s : Store} (item : EvalReport) → Write n s (save_eval_report item s).1
