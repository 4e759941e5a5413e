-- ===== src/Eval/Lifecycle.antt =====
-- The life of evaluation cases, datasets and runs (internal/eval): the calls of the services as steps on
-- the state that they share, in any order and number. A call runs from its first line to its return here.
pub mod Readers
pub mod Kinds
pub mod Writes
pub mod Replay
pub mod Timeline
pub mod Members
pub mod Stocked
pub mod Published
use opspilot_go_dev_kit.Prelude.{ℕ, String, Result, Option}
use opspilot_go_dev_kit.Prelude.Paging.{ℤ}
use opspilot_go_dev_kit.Cases.Types.{Case, CaseError}
use opspilot_go_dev_kit.Eval.Types.{
  CreateInput, CreateDatasetInput, AddDatasetItemInput, PublishDatasetInput, CreateRunInput,
}
use opspilot_go_dev_kit.Eval.Judge.{RunJudge}
use opspilot_go_dev_kit.Eval.Reports.{Numerics, materialize_run_report}
use opspilot_go_dev_kit.Eval.Services.{Evals, new_evals}
use opspilot_go_dev_kit.Eval.Services.Cases.{Summarizer, TraceLookup, promote_case, get_eval_case}
use opspilot_go_dev_kit.Eval.Services.Datasets.{
  create_dataset, add_dataset_item, publish_dataset, get_dataset,
}
use opspilot_go_dev_kit.Eval.Services.Runs.{
  create_run, claim_queued_runs, mark_run_succeeded, mark_run_failed, mark_run_failed_with_fallback,
  retry_run,
}

-- What a call reads of the rest of the system, the operator cases, the summaries, the traces and the judge,
-- is arbitrary and may differ from call to call.
pub data Step : Evals → Evals → Type 0 where
  promoted :
      {s : Evals} (get_case : String → Result CaseError Case) (summaries : Option Summarizer)
      (traces : Option TraceLookup) (now created_at : ℕ) (input : CreateInput)
      → Step s (promote_case get_case summaries traces now created_at input s).1
  dataset_created :
      {s : Evals} (summaries : Option Summarizer) (now : ℕ) (input : CreateDatasetInput)
      → Step s (create_dataset (λ id. get_eval_case summaries id s) now input s).1
  item_added :
      {s : Evals} (summaries : Option Summarizer) (now : ℕ) (id : String)
      (input : AddDatasetItemInput)
      → Step s (add_dataset_item (λ id. get_eval_case summaries id s) now id input s).1
  published :
      {s : Evals} (now : ℕ) (id : String) (input : PublishDatasetInput)
      → Step s (publish_dataset now id input s).1
  run_created :
      {s : Evals} (now : ℕ) (input : CreateRunInput)
      → Step s (create_run (λ id. get_dataset id s) now input s).1
  claimed : {s : Evals} (limit : ℤ) (now : ℕ) → Step s (claim_queued_runs limit now s).1
  succeeded :
      {s : Evals} (judge : RunJudge) (now : ℕ) (id : String)
      → Step s (mark_run_succeeded judge now id s).1
  failed :
      {s : Evals} (judge : RunJudge) (now : ℕ) (id reason : String)
      → Step s (mark_run_failed judge now id reason s).1
  failed_with_fallback :
      {s : Evals} (now : ℕ) (id reason : String)
      → Step s (mark_run_failed_with_fallback now id reason s).1
  retried : {s : Evals} (now : ℕ) (id : String) → Step s (retry_run now id s).1
  reported :
      {s : Evals} (numerics : Numerics) (id : String)
      → Step s (record s { store = (materialize_run_report numerics id s.store).1 })

pub data Reach : Evals → Type 0 where
  started : Reach new_evals
  then_step : {s s' : Evals} → Reach s → Step s s' → Reach s'
