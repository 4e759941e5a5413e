-- ===== src/Planner/Scenarios.antt =====
-- The planner on concrete requests (internal/agent/planner): tests of its parts, and the theorems of the
-- modules beside this one at work.
use opspilot_go_dev_kit.Prelude.{
  ◌≡◌, ◌≢◌, refl, true, false, ◌||◌, none, some, [], ◌∷◌, ok, ◌==◌, All,
}
use opspilot_go_dev_kit.Prelude.Dict.{find, put}
use opspilot_go_dev_kit.Prelude.Strings.{to_lower}
use opspilot_go_dev_kit.Prelude.Sorting.{sort, insert}
use opspilot_go_dev_kit.Prelude.Paging.{pos}
use opspilot_go_dev_kit.Planner.Types.{
  TenantPolicy, ToolDescriptor, PlanInput, PlanStep, ExecutionPlan, LlmPlanStep, LlmPlanResponse,
  ReplanInput, step_kind_tool, unknown_dependency,
}
use opspilot_go_dev_kit.Planner.Policy.{
  empty_policy, merge_policies, merge_layer, union_strings, distinct, is_in, forbids,
  demands_approval, merge_policies-tightens, is_tenant_tool_allowed,
}
use opspilot_go_dev_kit.Planner.Validation.{
  validate_llm_plan, check_steps, check_step, validate_plan_policy, check_tool_use, check_tenant,
  check_registry, effective_max, to_llm_plan_response, convert_steps,
}
use opspilot_go_dev_kit.Planner.Keywords.{
  select_tool, no_tool, asks_search, is_search_tool, is_ticket_tool, plan_with_keywords,
  derive_plan_id,
}
use opspilot_go_dev_kit.Planner.Plan.{
  plan, replan, accept, refusal, tool_descriptors, prompt_version,
}
use opspilot_go_dev_kit.Planner.Plan.Permitted.{KeepsTo}
use opspilot_go_dev_kit.Planner.Plan.Kept.{plan-KeepsTo, replan-KeepsTo}
use opspilot_go_dev_kit.Planner.Merged.{forbidden_tool-not_planned, partial_policies_disable_tools}
use opspilot_go_dev_kit.Planner.Approvals.{accepted-Registered, Registered}

abbrev org : TenantPolicy
org = record empty_policy {
  configured = true;
  allow_tool_use = true;
  allow_tool_use_explicit = true;
  forbidden_tools = "shell" ∷ [];
}

abbrev tenant : TenantPolicy
tenant = record empty_policy {
  configured = true;
  max_steps = pos 3;
  forbidden_tools = "ticket_delete" ∷ "shell" ∷ [];
  require_approval_for_write = true;
}

abbrev user : TenantPolicy
user = empty_policy

abbrev search : ToolDescriptor
search = record no_tool { name = "ticket_search"; read_only = true }

abbrev comment : ToolDescriptor
comment = record no_tool { name = "ticket_comment"; requires_approval = true }

abbrev request : PlanInput
request = record {
  request_id = "r1";
  trace_id = "";
  tenant_id = "t1";
  session_id = "";
  mode = "chat";
  user_message = "Query the TICKET history";
  available_tools = comment ∷ search ∷ [];
  tenant_policy = merge_policies org tenant user;
  user_permissions = [];
}

abbrev comment_step : LlmPlanStep
comment_step = record {
  kind = "tool";
  name = "comment";
  depends_on = "answer" ∷ [];
  tool_name = "ticket_comment";
  tool_arguments = "{}";
  read_only = false;
  needs_approval = true;
}

abbrev answer_step : LlmPlanStep
answer_step = record {
  kind = "synthesize";
  name = "answer";
  depends_on = [];
  tool_name = "";
  tool_arguments = "";
  read_only = false;
  needs_approval = false;
}

abbrev answer : LlmPlanResponse
answer = record {
  intent = "incident_assist";
  reasoning = "";
  requires_retrieval = false;
  requires_tool = true;
  requires_workflow = false;
  requires_approval = true;
  output_schema = "markdown";
  steps = comment_step ∷ answer_step ∷ [];
}

merge_test : (merge_policies org tenant user).forbidden_tools ≡ "shell" ∷ "ticket_delete" ∷ []
unfolding merge_policies merge_layer union_strings distinct sort insert
merge_test = refl

select_tool_test : select_tool request ≡ search
unfolding select_tool asks_search is_search_tool is_ticket_tool to_lower merge_policies merge_layer
    union_strings distinct sort insert is_tenant_tool_allowed
select_tool_test = refl

-- A step may depend on one that comes after it.
forward_dependency_test : validate_llm_plan answer [] ≡ none
unfolding validate_llm_plan check_steps check_step
forward_dependency_test = refl

unknown_dependency_test :
    validate_llm_plan (record answer { steps = comment_step ∷ [] }) []
    ≡ some (unknown_dependency 0 "comment" "answer")
unfolding validate_llm_plan check_steps check_step
unknown_dependency_test = refl

merge_policies-tightens_example :
    (is_in "shell" (merge_policies org tenant user).forbidden_tools
      ≡ (forbids org "shell" || forbids tenant "shell" || forbids user "shell"))
    × ((merge_policies org tenant user).require_approval_for_write
        ≡ (demands_approval org || demands_approval tenant || demands_approval user))
merge_policies-tightens_example = merge_policies-tightens org tenant user "shell"

request_configured : request.tenant_policy.configured ≡ true
unfolding merge_policies merge_layer
request_configured = refl

plan-KeepsTo_example : KeepsTo request.tenant_policy (plan (some (λ _. ok answer)) request)
plan-KeepsTo_example = plan-KeepsTo (some (λ _. ok answer)) request request_configured

abbrev replan_request : ReplanInput
replan_request = record {
  original_plan = plan none request;
  executed_steps = [];
  input = request;
  replan_reason = "tool failed";
}

abbrev replanned : ExecutionPlan
replanned = record (to_llm_plan_response "plan-r1-replan" answer) {
  source = "replan";
  prompt_version = prompt_version;
}

replan_accepted : replan (some (λ _. ok answer)) replan_request ≡ ok replanned
unfolding replan accept refusal validate_llm_plan check_steps check_step validate_plan_policy
    check_tool_use check_tenant check_registry effective_max to_llm_plan_response convert_steps
    tool_descriptors put find plan plan_with_keywords derive_plan_id merge_policies merge_layer
    union_strings distinct sort insert
replan_accepted = refl

replan-KeepsTo_example : KeepsTo request.tenant_policy replanned
replan-KeepsTo_example =
    replan-KeepsTo (some (λ _. ok answer)) replan_request replanned request_configured
      replan_accepted

forbidden_tool-not_planned_example :
    All
      (λ (s : PlanStep). (s.kind == step_kind_tool) ≡ true → s.tool_name ≢ "ticket_delete")
      (plan (some (λ _. ok answer)) request).steps
forbidden_tool-not_planned_example =
    forbidden_tool-not_planned org tenant user "ticket_delete" (some (λ _. ok answer)) request refl
      refl

abbrev steps_only : TenantPolicy
steps_only = record empty_policy { configured = true; max_steps = pos 5 }

partial_policies_disable_tools_example :
    ((merge_policies empty_policy steps_only empty_policy).configured ≡ true)
    × ((merge_policies empty_policy steps_only empty_policy).allow_tool_use ≡ false)
    × (select_tool
          (record request { tenant_policy = merge_policies empty_policy steps_only empty_policy })
        ≡ no_tool)
partial_policies_disable_tools_example =
    partial_policies_disable_tools empty_policy steps_only empty_policy
      (record request { tenant_policy = merge_policies empty_policy steps_only empty_policy }) refl
      refl refl refl refl

abbrev accepted : ExecutionPlan
accepted = record (to_llm_plan_response "plan-r1" answer) {
  source = "llm";
  prompt_version = prompt_version;
}

answer-accepted : accept "llm" "plan-r1" request (ok answer) ≡ ok accepted
unfolding accept refusal validate_llm_plan check_steps check_step validate_plan_policy
    check_tool_use check_tenant check_registry effective_max to_llm_plan_response convert_steps
    tool_descriptors put find merge_policies merge_layer union_strings distinct sort insert
answer-accepted = refl

accepted-Registered_example :
    All
      (λ s.
        Registered
          (tool_descriptors request.available_tools [])
          request.tenant_policy
          accepted.requires_workflow
          s.kind
          s.tool_name
          s.read_only
          s.needs_approval)
      accepted.steps
accepted-Registered_example =
    accepted-Registered "llm" "plan-r1" request (ok answer) accepted answer-accepted
