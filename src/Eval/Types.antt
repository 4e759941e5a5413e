-- ===== src/Eval/Types.antt =====
-- internal/eval/types.go: the records of the evaluation services and the errors of their stores.
-- A `time.Time` is its number of nanoseconds since year 1, so the zero time is 0. A
-- `json.RawMessage` is its text.
use opspilot_go_dev_kit.Prelude.{ℕ, String, ◌<>◌, Bool, Option, List}
use opspilot_go_dev_kit.Prelude.Floats.{Float64}
use opspilot_go_dev_kit.Prelude.Paging.{ℤ}
use opspilot_go_dev_kit.Cases.Types.{CaseError}

abbrev pub dataset_status_draft : String
dataset_status_draft = "draft"

abbrev pub dataset_status_published : String
dataset_status_published = "published"

abbrev pub run_status_queued : String
run_status_queued = "queued"

abbrev pub run_status_running : String
run_status_running = "running"

abbrev pub run_status_succeeded : String
run_status_succeeded = "succeeded"

abbrev pub run_status_failed : String
run_status_failed = "failed"

abbrev pub run_event_created : String
run_event_created = "created"

abbrev pub run_event_claimed : String
run_event_claimed = "claimed"

abbrev pub run_event_succeeded : String
run_event_succeeded = "succeeded"

abbrev pub run_event_failed : String
run_event_failed = "failed"

abbrev pub run_event_retried : String
run_event_retried = "retried"

abbrev pub item_result_succeeded : String
item_result_succeeded = "succeeded"

abbrev pub item_result_failed : String
item_result_failed = "failed"

abbrev pub verdict_pass : String
verdict_pass = "pass"

abbrev pub verdict_fail : String
verdict_fail = "fail"

abbrev pub report_status_ready : String
report_status_ready = "ready"

-- The `not_found` errors and `case_exists` carry the id that the sentinel is wrapped with; the `missing`
-- ones are the sentinels themselves. `of_case_service` is an error of the package internal/case. `wrapped` is a prefix and `: %w`. `message` is an error that the
-- code makes where it returns it, by `fmt.Errorf` or `errors.New`.
pub data EvalError : Type 0 where
  case_not_found : String → EvalError
  invalid_source : EvalError
  case_exists : String → EvalError
  case_missing : EvalError
  dataset_missing : EvalError
  dataset_not_found : String → EvalError
  invalid_dataset : EvalError
  invalid_dataset_state : EvalError
  run_not_found : String → EvalError
  invalid_run_state : EvalError
  of_case_service : CaseError → EvalError
  wrapped : String → EvalError → EvalError
  report_not_found : String → EvalError
  message : String → EvalError

pub record EvalCase : Type 0 where
  pub id : String
  pub tenant_id : String
  pub source_case_id : String
  pub source_task_id : String
  pub source_report_id : String
  pub follow_up_case_count : ℕ
  pub open_follow_up_case_count : ℕ
  pub latest_follow_up_case_id : String
  pub latest_follow_up_case_status : String
  pub trace_id : String
  pub version_id : String
  pub title : String
  pub summary : String
  pub operator_note : String
  pub created_by : String
  pub created_at : ℕ

-- `needs_follow_up` is none for the nil pointer.
pub record ListFilter : Type 0 where
  pub tenant_id : String
  pub source_case_id : String
  pub source_task_id : String
  pub source_report_id : String
  pub version_id : String
  pub needs_follow_up : Option Bool
  pub limit : ℤ
  pub offset : ℤ

-- `EvalDatasetItem` and `EvalRunItem` have these seven fields.
pub record Item : Type 0 where
  pub eval_case_id : String
  pub title : String
  pub source_case_id : String
  pub source_task_id : String
  pub source_report_id : String
  pub trace_id : String
  pub version_id : String

pub record EvalDataset : Type 0 where
  pub id : String
  pub tenant_id : String
  pub name : String
  pub description : String
  pub status : String
  pub created_by : String
  pub created_at : ℕ
  pub updated_at : ℕ
  pub published_by : String
  pub published_at : ℕ
  pub items : List Item

pub record DatasetSummary : Type 0 where
  pub id : String
  pub tenant_id : String
  pub name : String
  pub status : String
  pub created_by : String
  pub created_at : ℕ
  pub updated_at : ℕ
  pub item_count : ℕ

pub record DatasetListFilter : Type 0 where
  pub tenant_id : String
  pub status : String
  pub created_by : String
  pub limit : ℤ
  pub offset : ℤ

pub record RunResultSummary : Type 0 where
  pub total_items : ℕ
  pub recorded_results : ℕ
  pub succeeded_items : ℕ
  pub failed_items : ℕ
  pub missing_results : ℕ

pub record EvalRun : Type 0 where
  pub id : String
  pub tenant_id : String
  pub dataset_id : String
  pub dataset_name : String
  pub dataset_item_count : ℕ
  pub result_summary : Option RunResultSummary
  pub status : String
  pub created_by : String
  pub error_reason : String
  pub created_at : ℕ
  pub updated_at : ℕ
  pub started_at : ℕ
  pub finished_at : ℕ

pub record RunEvent : Type 0 where
  pub id : ℕ
  pub run_id : String
  pub action : String
  pub actor : String
  pub detail : String
  pub created_at : ℕ

pub record ItemResult : Type 0 where
  pub eval_case_id : String
  pub status : String
  pub verdict : String
  pub detail : String
  pub score : Float64
  pub judge_version : String
  pub judge_output : String
  pub updated_at : ℕ

pub record RunDetail : Type 0 where
  pub run : EvalRun
  pub events : List RunEvent
  pub items : List Item
  pub item_results : List ItemResult

pub record BadCase : Type 0 where
  pub eval_case_id : String
  pub title : String
  pub source_case_id : String
  pub source_task_id : String
  pub source_report_id : String
  pub trace_id : String
  pub version_id : String
  pub verdict : String
  pub detail : String
  pub score : Float64

pub record EvalReport : Type 0 where
  pub id : String
  pub tenant_id : String
  pub run_id : String
  pub dataset_id : String
  pub dataset_name : String
  pub run_status : String
  pub status : String
  pub summary : String
  pub total_items : ℕ
  pub recorded_results : ℕ
  pub passed_items : ℕ
  pub failed_items : ℕ
  pub missing_results : ℕ
  pub average_score : Float64
  pub judge_version : String
  pub metadata_json : String
  pub bad_cases : List BadCase
  pub created_at : ℕ
  pub updated_at : ℕ
  pub ready_at : ℕ

pub record ReportListFilter : Type 0 where
  pub report_id : String
  pub tenant_id : String
  pub dataset_id : String
  pub run_status : String
  pub status : String
  pub limit : ℤ
  pub offset : ℤ

pub record RunListFilter : Type 0 where
  pub tenant_id : String
  pub dataset_id : String
  pub status : String
  pub limit : ℤ
  pub offset : ℤ

pub record CreateInput : Type 0 where
  pub tenant_id : String
  pub source_case_id : String
  pub operator_note : String
  pub created_by : String

pub record CreateDatasetInput : Type 0 where
  pub tenant_id : String
  pub name : String
  pub description : String
  pub eval_case_ids : List String
  pub created_by : String

pub record AddDatasetItemInput : Type 0 where
  pub tenant_id : String
  pub eval_case_id : String
  pub added_by : String

pub record PublishDatasetInput : Type 0 where
  pub tenant_id : String
  pub published_by : String

pub record CreateRunInput : Type 0 where
  pub tenant_id : String
  pub dataset_id : String
  pub created_by : String

unfoldable pub eval_report_id_from_run_id : String → String
eval_report_id_from_run_id run_id = "eval-report-" <> run_id
