-- ===== src/Eval/Services.antt =====
-- The state that the evaluation services share: one store, and the counters of the package internal/eval
-- from which they make ids. Each `time.Now().UTC()` is an argument of the operations.
pub mod Cases
pub mod Listing
pub mod Datasets
pub mod Runs
use opspilot_go_dev_kit.Prelude.{ℕ, String, ◌<>◌, Bool, true, false, ◌==◌, if◌then◌else◌}
use opspilot_go_dev_kit.Prelude.Decimal.{decimal}
use opspilot_go_dev_kit.Prelude.Clock.{unix_nano}
use opspilot_go_dev_kit.Cases.Types as Case
use opspilot_go_dev_kit.Cases.Types.{CaseError}
use opspilot_go_dev_kit.Eval.Types.{
  EvalError, case_not_found, invalid_source, case_exists, case_missing, dataset_missing,
  dataset_not_found, invalid_dataset, invalid_dataset_state, run_not_found, invalid_run_state,
  report_not_found, of_case_service, wrapped, message,
}
use opspilot_go_dev_kit.Eval.Store.{Store, new_store}

pub record Evals : Type 0 where
  pub store : Store
  pub eval_case_id_sequence : ℕ
  pub eval_dataset_id_sequence : ℕ
  pub eval_run_id_sequence : ℕ

unfoldable pub new_evals : Evals
unfolding new_store
new_evals = record {
  store = new_store;
  eval_case_id_sequence = 0;
  eval_dataset_id_sequence = 0;
  eval_run_id_sequence = 0;
}

unfoldable pub fallback_string : String → String → String
fallback_string value fallback = if value == "" then fallback else value

-- `newEvalCaseID`, `newEvalDatasetID` and `newEvalRunID`, which differ in the prefix.
unfoldable pub new_id : String → ℕ → ℕ → String
new_id prefix now sequence = prefix <> decimal (unix_nano now) <> "-" <> decimal sequence

-- `err.Error()` of the errors of internal/case.
abbrev case_error_text : CaseError → String
case_error_text (Case.case_not_found id) = "case not found: " <> id
case_error_text Case.invalid_case_state = "invalid case state"
case_error_text Case.case_conflict = "case conflict"
case_error_text Case.invalid_note = "invalid case note"

-- `err.Error()`
unfoldable pub error_text : EvalError → String
error_text (case_not_found id) = "eval case not found: " <> id
error_text invalid_source = "invalid eval source"
error_text (case_exists id) = "eval case already exists: " <> id
error_text case_missing = "eval case not found"
error_text dataset_missing = "eval dataset not found"
error_text (dataset_not_found id) = "eval dataset not found: " <> id
error_text invalid_dataset = "invalid eval dataset"
error_text invalid_dataset_state = "invalid eval dataset state"
error_text (run_not_found id) = "eval run not found: " <> id
error_text invalid_run_state = "invalid eval run state"
error_text (of_case_service e) = case_error_text e
error_text (wrapped prefix e) = prefix <> ": " <> error_text e
error_text (report_not_found id) = "eval report not found: " <> id
error_text (message text) = text
