-- ===== src/Planner/Keywords.antt =====
-- internal/agent/planner/service.go: the plan from keywords, which needs no language model.
use opspilot_go_dev_kit.Prelude.{
  ℕ, ◌+◌, String, ◌<>◌, Bool, true, false, ◌&&◌, ◌||◌, not, List, [], ◌∷◌, ◌==◌, if◌then◌else◌,
  length, take, ltb,
}
use opspilot_go_dev_kit.Prelude.Decimal.{decimal}
use opspilot_go_dev_kit.Prelude.Strings.{contains, to_lower}
use opspilot_go_dev_kit.Planner.Types.{
  TenantPolicy, ToolDescriptor, PlanInput, PlanStep, ExecutionPlan, intent_knowledge_qa,
  intent_incident_assist, intent_report_request, step_kind_retrieve, step_kind_tool,
  step_kind_synthesize, step_kind_critic, step_kind_promote_workflow,
}
use opspilot_go_dev_kit.Planner.Policy.{is_tenant_tool_allowed}
use opspilot_go_dev_kit.Planner.Validation.{max_steps, effective_max}

unfoldable pub classify_intent : PlanInput → String
classify_intent input =
    let message = to_lower input.user_message in
    if input.mode == "task"
    then intent_report_request
    else if contains message "report" || contains message "export"
    then intent_report_request
    else if contains message "ticket"
    then intent_incident_assist
    else intent_knowledge_qa

unfoldable pub should_promote_workflow : PlanInput → String → Bool
should_promote_workflow input intent = input.mode == "task" || intent == intent_report_request

-- `ToolDescriptor{}`, which stands for no tool.
abbrev pub no_tool : ToolDescriptor
no_tool = record {
  name = "";
  description = "";
  read_only = false;
  requires_approval = false;
  async_only = false;
  parameters = [];
}

-- The first tool that passes a test, or what follows the loop.
abbrev pub first_tool :
    (ToolDescriptor → Bool) → List ToolDescriptor → ToolDescriptor → ToolDescriptor
first_tool p [] otherwise = otherwise
first_tool p (tool ∷ rest) otherwise =
    let later = first_tool p rest otherwise in if p tool then tool else later

-- A message that asks to search the tickets.
unfoldable pub asks_search : String → Bool
asks_search message =
    contains message "ticket"
    && (contains message "search" || contains message "history" || contains message "query")

unfoldable pub is_search_tool : TenantPolicy → ToolDescriptor → Bool
unfolding is_tenant_tool_allowed
is_search_tool policy tool = tool.name == "ticket_search" && is_tenant_tool_allowed tool.name policy

unfoldable pub is_ticket_tool : TenantPolicy → String → ToolDescriptor → Bool
unfolding is_tenant_tool_allowed
is_ticket_tool policy message tool =
    contains message "ticket"
    && contains tool.name "ticket"
    && is_tenant_tool_allowed tool.name policy

unfoldable pub select_tool : PlanInput → ToolDescriptor
unfolding asks_search is_search_tool is_ticket_tool to_lower
select_tool input =
    let policy = input.tenant_policy in
    let message = to_lower input.user_message in
    let second = first_tool (is_ticket_tool policy message) input.available_tools no_tool in
    if policy.configured && not policy.allow_tool_use
    then no_tool
    else if asks_search message
    then first_tool (is_search_tool policy) input.available_tools second
    else second

abbrev bare_step : String → String → String → List String → PlanStep
bare_step id kind name depends_on = record {
  step_id = id;
  kind = kind;
  name = name;
  depends_on = depends_on;
  tool_name = "";
  tool_arguments = "";
  read_only = false;
  needs_approval = false;
}

abbrev step_number : ℕ → String
step_number n = "step-" <> decimal n

abbrev pub tool_step : ToolDescriptor → PlanStep
tool_step tool = record {
  step_id = "step-2";
  kind = step_kind_tool;
  name = "run " <> tool.name;
  depends_on = "step-1" ∷ [];
  tool_name = tool.name;
  tool_arguments = "";
  read_only = tool.read_only;
  needs_approval = tool.requires_approval;
}

-- The two steps that close the plan: `n` steps stand before them, the last one under the id `last`.
abbrev pub closing_steps : ℕ → String → List PlanStep
closing_steps n last =
    bare_step (step_number (n + 1)) step_kind_synthesize "compose grounded answer" (last ∷ [])
    ∷ bare_step (step_number (n + 2)) step_kind_critic "validate response"
        (step_number (n + 1) ∷ [])
    ∷ []

unfoldable pub build_steps : Bool → ToolDescriptor → List PlanStep
build_steps requires_workflow tool =
    let retrieve = bare_step "step-1" step_kind_retrieve "retrieve supporting evidence" [] in
    if requires_workflow
    then record (bare_step "step-1" step_kind_promote_workflow "promote to workflow" []) {
      tool_name = tool.name;
    }
      ∷ []
    else if tool.name == ""
    then retrieve ∷ closing_steps 1 "step-1"
    else retrieve ∷ tool_step tool ∷ closing_steps 2 "step-2"

unfoldable pub select_output_schema : String → String
select_output_schema intent =
    if intent == intent_report_request then "structured_summary" else "markdown"

-- `strings.Join` of the intent and the two words that apply.
unfoldable pub summarize_reasoning : String → Bool → Bool → String
summarize_reasoning intent requires_tool requires_workflow =
    intent
    <> (if requires_tool then ", tool" else "")
    <> (if requires_workflow then ", workflow" else "")

-- The tool with the approval that the tenant demands of writes.
unfoldable pub with_approval : TenantPolicy → ToolDescriptor → ToolDescriptor
with_approval policy tool =
    if not (tool.name == "") && not tool.read_only && policy.require_approval_for_write
    then record tool { requires_approval = true }
    else tool

abbrev pub keyword_max : TenantPolicy → ℕ
keyword_max policy = if policy.configured then effective_max policy else max_steps

unfoldable pub plan_with_keywords : PlanInput → String → ExecutionPlan
unfolding classify_intent should_promote_workflow select_tool select_output_schema
    summarize_reasoning build_steps with_approval effective_max
plan_with_keywords input plan_id =
    let intent = classify_intent input in
    let workflow = should_promote_workflow input intent in
    let tool = with_approval input.tenant_policy (select_tool input) in
    let requires_tool = not (tool.name == "") in
    let steps = build_steps (workflow || tool.async_only) tool in
    let most = keyword_max input.tenant_policy in
    record {
      plan_id = plan_id;
      intent = intent;
      requires_retrieval = not (requires_tool && tool.read_only) && not workflow;
      requires_tool = requires_tool;
      requires_workflow = workflow || tool.async_only;
      requires_approval = tool.requires_approval;
      max_steps = if ltb most (length steps) then most else length steps;
      output_schema = select_output_schema intent;
      steps = take most steps;
      planner_reasoning_short =
          summarize_reasoning intent requires_tool (workflow || tool.async_only);
      source = "keyword";
      prompt_version = "";
    }

unfoldable pub derive_plan_id : PlanInput → String
derive_plan_id input =
    if not (input.request_id == "")
    then "plan-" <> input.request_id
    else if not (input.session_id == "")
    then "plan-" <> input.session_id
    else "plan-generated"
