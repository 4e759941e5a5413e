-- ===== src/Cases/Types.antt =====
-- internal/case/types.go: the records of the case service, and the errors of its store.
-- A `time.Time` is its number of nanoseconds since year 1, so the zero time is 0.
use opspilot_go_dev_kit.Prelude.{ℕ, String, Bool, List}
use opspilot_go_dev_kit.Prelude.Paging.{ℤ}

abbrev pub status_open : String
status_open = "open"

abbrev pub status_closed : String
status_closed = "closed"

-- `case_not_found` carries the id that `ErrCaseNotFound` is wrapped with.
pub data CaseError : Type 0 where
  case_not_found : String → CaseError
  invalid_case_state : CaseError
  case_conflict : CaseError
  invalid_note : CaseError

pub record CompareOrigin : Type 0 where
  pub left_eval_report_id : String
  pub right_eval_report_id : String
  pub selected_side : String

pub record Case : Type 0 where
  pub id : String
  pub tenant_id : String
  pub status : String
  pub title : String
  pub summary : String
  pub source_task_id : String
  pub source_report_id : String
  pub source_eval_report_id : String
  pub source_eval_case_id : String
  pub source_eval_run_id : String
  pub compare_origin : CompareOrigin
  pub created_by : String
  pub assigned_to : String
  pub assigned_at : ℕ
  pub closed_by : String
  pub created_at : ℕ
  pub updated_at : ℕ

pub record Note : Type 0 where
  pub id : String
  pub tenant_id : String
  pub case_id : String
  pub body : String
  pub created_by : String
  pub created_at : ℕ

pub record CreateInput : Type 0 where
  pub tenant_id : String
  pub title : String
  pub summary : String
  pub source_task_id : String
  pub source_report_id : String
  pub source_eval_report_id : String
  pub source_eval_case_id : String
  pub source_eval_run_id : String
  pub compare_origin : CompareOrigin
  pub created_by : String

pub record ListFilter : Type 0 where
  pub tenant_id : String
  pub status : String
  pub assigned_to : String
  pub unassigned_only : Bool
  pub eval_backed_only : Bool
  pub run_backed_only : Bool
  pub compare_origin_only : Bool
  pub exclude_compare_origin : Bool
  pub plain_eval_report_only : Bool
  pub source_task_id : String
  pub source_report_id : String
  pub source_eval_report_id : String
  pub source_eval_report_ids : List String
  pub source_eval_case_id : String
  pub source_eval_run_id : String
  pub limit : ℤ
  pub offset : ℤ

-- `EvalReportFollowUpSummary`, `EvalReportCompareFollowUpSummary` and `EvalCaseFollowUpSummary` have
-- these five fields, with the word Compare or the kind of source in some of their names.
pub record FollowUpSummary : Type 0 where
  pub source_id : String
  pub follow_up_case_count : ℕ
  pub open_follow_up_case_count : ℕ
  pub latest_follow_up_case_id : String
  pub latest_follow_up_case_status : String

pub record EvalRunFollowUpSummary : Type 0 where
  pub source_eval_run_id : String
  pub follow_up_case_count : ℕ
  pub open_follow_up_case_count : ℕ
  pub latest_follow_up_case_id : String
  pub latest_follow_up_case_status : String
  pub latest_follow_up_assigned_to : String
