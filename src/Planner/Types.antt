-- ===== src/Planner/Types.antt =====
-- internal/agent/planner/types.go and the answer of the language model in prompt.go.
-- A `json.RawMessage` is its text, "" where it is nil. `PlanInput.Context` is left out: only the prompt
-- reads it.
use opspilot_go_dev_kit.Prelude.{ℕ, String, Bool, List}
use opspilot_go_dev_kit.Prelude.Paging.{ℤ}

abbrev pub intent_knowledge_qa : String
intent_knowledge_qa = "knowledge_qa"

abbrev pub intent_incident_assist : String
intent_incident_assist = "incident_assist"

abbrev pub intent_report_request : String
intent_report_request = "report_request"

abbrev pub step_kind_retrieve : String
step_kind_retrieve = "retrieve"

abbrev pub step_kind_tool : String
step_kind_tool = "tool"

abbrev pub step_kind_synthesize : String
step_kind_synthesize = "synthesize"

abbrev pub step_kind_critic : String
step_kind_critic = "critic"

abbrev pub step_kind_promote_workflow : String
step_kind_promote_workflow = "promote_workflow"

pub record ToolParameterDesc : Type 0 where
  pub name : String
  pub param_type : String
  pub required : Bool
  pub description : String

pub record ToolDescriptor : Type 0 where
  pub name : String
  pub description : String
  pub read_only : Bool
  pub requires_approval : Bool
  pub async_only : Bool
  pub parameters : List ToolParameterDesc

pub record TenantPolicy : Type 0 where
  pub configured : Bool
  pub allow_tool_use : Bool
  pub allow_tool_use_explicit : Bool
  pub allowed_tools : List String
  pub forbidden_tools : List String
  pub max_steps : ℤ
  pub require_approval_for_write : Bool

pub record PlanInput : Type 0 where
  pub request_id : String
  pub trace_id : String
  pub tenant_id : String
  pub session_id : String
  pub mode : String
  pub user_message : String
  pub available_tools : List ToolDescriptor
  pub tenant_policy : TenantPolicy
  pub user_permissions : List String

pub record PlanStep : Type 0 where
  pub step_id : String
  pub kind : String
  pub name : String
  pub depends_on : List String
  pub tool_name : String
  pub tool_arguments : String
  pub read_only : Bool
  pub needs_approval : Bool

pub record ExecutionPlan : Type 0 where
  pub plan_id : String
  pub intent : String
  pub requires_retrieval : Bool
  pub requires_tool : Bool
  pub requires_workflow : Bool
  pub requires_approval : Bool
  pub max_steps : ℕ
  pub output_schema : String
  pub steps : List PlanStep
  pub planner_reasoning_short : String
  pub source : String
  pub prompt_version : String

pub record LlmPlanStep : Type 0 where
  pub kind : String
  pub name : String
  pub depends_on : List String
  pub tool_name : String
  pub tool_arguments : String
  pub read_only : Bool
  pub needs_approval : Bool

pub record LlmPlanResponse : Type 0 where
  pub intent : String
  pub reasoning : String
  pub requires_retrieval : Bool
  pub requires_tool : Bool
  pub requires_workflow : Bool
  pub requires_approval : Bool
  pub output_schema : String
  pub steps : List LlmPlanStep

pub record ExecutedStep : Type 0 where
  pub step_id : String
  pub kind : String
  pub tool_name : String
  pub status : String
  pub summary : String

pub record ReplanInput : Type 0 where
  pub original_plan : ExecutionPlan
  pub executed_steps : List ExecutedStep
  pub input : PlanInput
  pub replan_reason : String

-- The errors of the validation, with the values that their texts show.
pub data PlanError : Type 0 where
  invalid_intent : String → PlanError
  no_steps : PlanError
  invalid_kind : ℕ → String → PlanError
  empty_tool_name : ℕ → PlanError
  unknown_tool : ℕ → String → PlanError
  empty_name : ℕ → PlanError
  duplicate_name : ℕ → String → PlanError
  unknown_dependency : ℕ → String → String → PlanError
  not_one_promotion : ℕ → PlanError
  promotion_without_workflow : ℕ → PlanError
  tool_use_disallowed : ℕ → String → PlanError
  too_many_steps : ℕ → ℕ → PlanError
  forbidden_tool : ℕ → String → PlanError
  tool_not_allowed : ℕ → String → PlanError
  write_needs_approval : ℕ → String → PlanError
  async_only_tool : ℕ → String → PlanError
  approval_missing : ℕ → String → PlanError
  write_marked_read_only : ℕ → String → PlanError
