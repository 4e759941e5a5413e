-- ===== src/Planner/Plan.antt =====
-- internal/agent/planner/service.go: `Plan` and `Replan`. The language model is a parameter: it answers a
-- request with a plan, or with the text of an error, that of the call or that of `json.Unmarshal`.
pub mod Permitted
pub mod Kept
use opspilot_go_dev_kit.Prelude.{
  ℕ, String, ◌<>◌, Bool, true, false, Option, none, some, List, [], ◌∷◌, map, Result, ok, err,
  if◌then◌else◌,
}
use opspilot_go_dev_kit.Prelude.Dict.{Dict, put}
use opspilot_go_dev_kit.Planner.Types.{
  TenantPolicy, ToolDescriptor, LlmPlanResponse, PlanInput, ExecutionPlan, PlanError, ReplanInput,
}
use opspilot_go_dev_kit.Planner.Validation.{
  validate_llm_plan, validate_plan_policy, to_llm_plan_response,
}
use opspilot_go_dev_kit.Planner.Keywords.{plan_with_keywords, derive_plan_id}

pub data PlanFailure : Type 0 where
  no_provider : PlanFailure
  completion_failed : String → PlanFailure
  plan_refused : PlanError → PlanFailure

abbrev pub prompt_version : String
prompt_version = "planner-v2"

-- The loop that fills `toolDescriptors`: of two tools with one name the later stays.
unfoldable pub tool_descriptors : List ToolDescriptor → Dict ToolDescriptor → Dict ToolDescriptor
tool_descriptors [] tools = tools
tool_descriptors (tool ∷ rest) tools = tool_descriptors rest (put tool.name tool tools)

abbrev tool_name : ToolDescriptor → String
tool_name tool = tool.name

-- The first error of the two validations, run one after the other.
unfoldable pub refusal : PlanInput → LlmPlanResponse → Option PlanError
unfolding validate_llm_plan validate_plan_policy tool_descriptors
refusal input resp = elim (validate_llm_plan resp (map tool_name input.available_tools)) [
  | some e ↦ some e
  | none ↦ validate_plan_policy resp (tool_descriptors input.available_tools []) input.tenant_policy
]

-- What `planWithLLM` and `Replan` do with the answer of the model.
unfoldable pub accept :
    String → String → PlanInput → Result String LlmPlanResponse → Result PlanFailure ExecutionPlan
unfolding refusal to_llm_plan_response
accept source plan_id input (err message) = err (completion_failed message)
accept source plan_id input (ok resp) = elim (refusal input resp) [
  | some e ↦ err (plan_refused e)
  | none ↦ ok (record (to_llm_plan_response plan_id resp) {
    source = source;
    prompt_version = prompt_version;
  })
]

unfoldable pub plan_with_llm :
    (PlanInput → Result String LlmPlanResponse)
    → String
    → PlanInput
    → Result PlanFailure ExecutionPlan
unfolding accept
plan_with_llm complete plan_id input = accept "llm" plan_id input (complete input)

-- A plan that could not be had from the model gives way to the one from keywords.
abbrev or_keywords : PlanInput → Result PlanFailure ExecutionPlan → ExecutionPlan
or_keywords input (ok plan) = plan
or_keywords input (err _) = plan_with_keywords input (derive_plan_id input)

unfoldable pub plan : Option (PlanInput → Result String LlmPlanResponse) → PlanInput → ExecutionPlan
unfolding plan_with_llm plan_with_keywords derive_plan_id
plan none input = plan_with_keywords input (derive_plan_id input)
plan (some complete) input = or_keywords input (plan_with_llm complete (derive_plan_id input) input)

unfoldable pub replan :
    Option (ReplanInput → Result String LlmPlanResponse)
    → ReplanInput
    → Result PlanFailure ExecutionPlan
unfolding accept
replan none r = err no_provider
replan (some complete) r =
    accept "replan" (r.original_plan.plan_id <> "-replan") r.input (complete r)
