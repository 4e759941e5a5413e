-- ===== src/Workflow/Types.antt =====
-- internal/workflow/types.go: tasks, audit events and list filters.
-- A time is the number of nanoseconds since Go's zero time, which is 0. `json.RawMessage` is its text.
use opspilot_go_dev_kit.Prelude.{ℕ, String, Bool, Option}
use opspilot_go_dev_kit.Prelude.Paging.{ℤ}

abbrev pub status_draft : String
status_draft = "draft"

abbrev pub status_queued : String
status_queued = "queued"

abbrev pub status_running : String
status_running = "running"

abbrev pub status_succeeded : String
status_succeeded = "succeeded"

abbrev pub status_failed : String
status_failed = "failed"

abbrev pub status_waiting_approval : String
status_waiting_approval = "waiting_approval"

abbrev pub task_type_report_generation : String
task_type_report_generation = "report_generation"

abbrev pub task_type_approved_tool_execution : String
task_type_approved_tool_execution = "approved_tool_execution"

abbrev pub promotion_reason_workflow_required : String
promotion_reason_workflow_required = "workflow_required"

abbrev pub promotion_reason_approval_required : String
promotion_reason_approval_required = "approval_required"

abbrev pub audit_action_created : String
audit_action_created = "created"

abbrev pub audit_action_claimed : String
audit_action_claimed = "claimed"

abbrev pub audit_action_approved : String
audit_action_approved = "approved"

abbrev pub audit_action_retried : String
audit_action_retried = "retried"

abbrev pub audit_action_succeeded : String
audit_action_succeeded = "succeeded"

abbrev pub audit_action_failed : String
audit_action_failed = "failed"

pub record PromoteRequest : Type 0 where
  pub request_id : String
  pub tenant_id : String
  pub session_id : String
  pub task_type : String
  pub reason : String
  pub requires_approval : Bool
  pub tool_name : String
  pub tool_arguments : String

pub record Task : Type 0 where
  pub id : String
  pub request_id : String
  pub tenant_id : String
  pub session_id : String
  pub task_type : String
  pub version_id : String
  pub tool_name : String
  pub tool_arguments : String
  pub status : String
  pub reason : String
  pub error_reason : String
  pub audit_ref : String
  pub requires_approval : Bool
  pub created_at : ℕ
  pub updated_at : ℕ

-- `id` is the bit pattern of the source's int64.
pub record AuditEvent : Type 0 where
  pub id : ℕ
  pub task_id : String
  pub action : String
  pub actor : String
  pub detail : String
  pub created_at : ℕ

pub record TaskListFilter : Type 0 where
  pub tenant_id : String
  pub status : String
  pub task_type : String
  pub reason : String
  pub requires_approval : Option Bool
  pub created_after : Option ℕ
  pub created_before : Option ℕ
  pub updated_after : Option ℕ
  pub updated_before : Option ℕ
  pub limit : ℤ
  pub offset : ℤ

-- The `error` values of the package: the two sentinels with what wraps them, and the text of an error
-- that a collaborator returned.
pub data WorkflowError : Type 0 where
  task_not_found : String → WorkflowError
  invalid_task_transition : String → WorkflowError
  external : String → WorkflowError
