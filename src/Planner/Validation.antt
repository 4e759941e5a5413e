-- ===== src/Planner/Validation.antt =====
-- internal/agent/planner/prompt.go: the validation of a plan from the language model, and its conversion.
-- The error of a validation is an option: none is Go's nil.
use opspilot_go_dev_kit.Prelude.{
  ℕ, ◌+◌, String, ◌<>◌, Bool, false, ◌&&◌, not, Option, none, some, List, [], ◌∷◌, map, ◌==◌,
  if◌then◌else◌, length, take, ltb, eqb,
}
use opspilot_go_dev_kit.Prelude.Decimal.{decimal}
use opspilot_go_dev_kit.Prelude.Dict.{Dict, find}
use opspilot_go_dev_kit.Prelude.Paging.{ℤ, pos, negsuc}
use opspilot_go_dev_kit.Planner.Types.{
  TenantPolicy, ToolDescriptor, LlmPlanStep, LlmPlanResponse, PlanStep, ExecutionPlan, PlanError,
  invalid_intent, no_steps, invalid_kind, empty_tool_name, unknown_tool, empty_name, duplicate_name,
  unknown_dependency, not_one_promotion, promotion_without_workflow, tool_use_disallowed,
  too_many_steps, forbidden_tool, tool_not_allowed, write_needs_approval, async_only_tool,
  approval_missing, write_marked_read_only, intent_knowledge_qa, intent_incident_assist,
  intent_report_request, step_kind_retrieve, step_kind_tool, step_kind_synthesize, step_kind_critic,
  step_kind_promote_workflow,
}
use opspilot_go_dev_kit.Planner.Policy.{is_in, is_empty}

abbrev pub max_steps : ℕ
max_steps = 6

abbrev pub valid_intents : List String
valid_intents = intent_knowledge_qa ∷ intent_incident_assist ∷ intent_report_request ∷ []

abbrev pub valid_kinds : List String
valid_kinds =
    step_kind_retrieve ∷ step_kind_tool ∷ step_kind_synthesize ∷ step_kind_critic
    ∷ step_kind_promote_workflow ∷ []

-- `if err != nil { return err }`, then the next check.
abbrev pub or_then : Option PlanError → Option PlanError → Option PlanError
or_then none next = next
or_then (some e) next = some e

-- A loop over the steps, the first at index `i`, that returns the first error.
abbrev pub check_each :
    (ℕ → LlmPlanStep → Option PlanError) → ℕ → List LlmPlanStep → Option PlanError
check_each check i [] = none
check_each check i (step ∷ rest) = or_then (check i step) (check_each check (i + 1) rest)

abbrev pub is_tool : LlmPlanStep → Bool
is_tool step = step.kind == step_kind_tool

-- The body of the first loop: `names` are those of the steps before.
unfoldable pub check_step : List String → List String → ℕ → LlmPlanStep → Option PlanError
check_step available names i step =
    if not (is_in step.kind valid_kinds)
    then some (invalid_kind i step.kind)
    else if is_tool step && step.tool_name == ""
    then some (empty_tool_name i)
    else if is_tool step && not (is_empty available) && not (is_in step.tool_name available)
    then some (unknown_tool i step.tool_name)
    else if step.name == ""
    then some (empty_name i)
    else if is_in step.name names
    then some (duplicate_name i step.name)
    else none

unfoldable pub check_steps : List String → List String → ℕ → List LlmPlanStep → Option PlanError
unfolding check_step
check_steps available names i [] = none
check_steps available names i (step ∷ rest) =
    or_then (check_step available names i step)
      (check_steps available (step.name ∷ names) (i + 1) rest)

abbrev step_name : LlmPlanStep → String
step_name step = step.name

abbrev check_deps : List String → ℕ → LlmPlanStep → List String → Option PlanError
check_deps names i step [] = none
check_deps names i step (dep ∷ deps) =
    let rest = check_deps names i step deps in
    if is_in dep names then rest else some (unknown_dependency i step.name dep)

abbrev pub is_one_promotion : List LlmPlanStep → Bool
is_one_promotion [] = false
is_one_promotion (step ∷ []) = step.kind == step_kind_promote_workflow
is_one_promotion (_ ∷ _ ∷ _) = false

abbrev pub check_promotion : ℕ → LlmPlanStep → Option PlanError
check_promotion i step =
    if step.kind == step_kind_promote_workflow then some (promotion_without_workflow i) else none

unfoldable pub validate_llm_plan : LlmPlanResponse → List String → Option PlanError
unfolding check_steps
validate_llm_plan resp available =
    if not (is_in resp.intent valid_intents)
    then some (invalid_intent resp.intent)
    else if eqb (length resp.steps) 0
    then some no_steps
    else or_then (check_steps available [] 0 resp.steps) (
        or_then
          (check_each (λ i step. check_deps (map step_name resp.steps) i step step.depends_on) 0
            resp.steps)
          (if resp.requires_workflow
            then (if is_one_promotion resp.steps
                then none
                else some (not_one_promotion (length resp.steps)))
            else check_each check_promotion 0 resp.steps))

-- A positive maximum below the system's.
abbrev pub below_max : ℤ → ℕ
below_max (pos n) = if ltb 0 n && ltb n max_steps then n else max_steps
below_max (negsuc n) = max_steps

-- `effectiveMax` under a configured policy, which the keyword planner computes the same way.
unfoldable pub effective_max : TenantPolicy → ℕ
effective_max policy = below_max policy.max_steps

unfoldable pub check_tool_use : TenantPolicy → ℕ → LlmPlanStep → Option PlanError
check_tool_use policy i step =
    if not policy.allow_tool_use && is_tool step
    then some (tool_use_disallowed i step.tool_name)
    else none

-- A write tool of the registry.
abbrev pub is_write : Option ToolDescriptor → Bool
is_write none = false
is_write (some desc) = not desc.read_only

-- The body of the loop under `policy.Configured`.
unfoldable pub check_tenant :
    Dict ToolDescriptor → TenantPolicy → ℕ → LlmPlanStep → Option PlanError
check_tenant tools policy i step =
    if not (is_tool step)
    then none
    else if is_in step.tool_name policy.forbidden_tools
    then some (forbidden_tool i step.tool_name)
    else if not (is_empty policy.allowed_tools) && not (is_in step.tool_name policy.allowed_tools)
    then some (tool_not_allowed i step.tool_name)
    else if policy.require_approval_for_write
        && is_write (find step.tool_name tools)
        && not step.needs_approval
    then some (write_needs_approval i step.tool_name)
    else none

abbrev pub check_described : Bool → Option ToolDescriptor → ℕ → LlmPlanStep → Option PlanError
check_described requires_workflow none i step = none
check_described requires_workflow (some desc) i step =
    if desc.async_only && not requires_workflow
    then some (async_only_tool i step.tool_name)
    else if not desc.read_only && desc.requires_approval && not step.needs_approval
    then some (approval_missing i step.tool_name)
    else if not desc.read_only && step.read_only
    then some (write_marked_read_only i step.tool_name)
    else none

-- The body of the last loop, which runs whether the policy is configured or not.
unfoldable pub check_registry : Dict ToolDescriptor → Bool → ℕ → LlmPlanStep → Option PlanError
check_registry tools requires_workflow i step =
    if is_tool step
    then check_described requires_workflow (find step.tool_name tools) i step
    else none

unfoldable pub validate_plan_policy :
    LlmPlanResponse → Dict ToolDescriptor → TenantPolicy → Option PlanError
unfolding check_tool_use check_tenant check_registry effective_max
validate_plan_policy resp tools policy =
    or_then
      (if policy.configured
        then or_then (check_each (check_tool_use policy) 0 resp.steps) (
            if ltb (effective_max policy) (length resp.steps)
            then some (too_many_steps (length resp.steps) (effective_max policy))
            else check_each (check_tenant tools policy) 0 resp.steps)
        else none)
      (check_each (check_registry tools resp.requires_workflow) 0 resp.steps)

abbrev convert_step : ℕ → LlmPlanStep → PlanStep
convert_step i s = record {
  step_id = "step-" <> decimal (i + 1);
  kind = s.kind;
  name = s.name;
  depends_on = s.depends_on;
  tool_name = s.tool_name;
  tool_arguments = s.tool_arguments;
  read_only = s.read_only;
  needs_approval = s.needs_approval;
}

unfoldable pub convert_steps : ℕ → List LlmPlanStep → List PlanStep
convert_steps i [] = []
convert_steps i (s ∷ rest) = convert_step i s ∷ convert_steps (i + 1) rest

-- `take` leaves a plan within the maximum whole.
unfoldable pub to_llm_plan_response : String → LlmPlanResponse → ExecutionPlan
unfolding convert_steps
to_llm_plan_response plan_id resp =
    let steps = convert_steps 0 resp.steps in
    record {
      plan_id = plan_id;
      intent = resp.intent;
      requires_retrieval = resp.requires_retrieval;
      requires_tool = resp.requires_tool;
      requires_workflow = resp.requires_workflow;
      requires_approval = resp.requires_approval;
      max_steps = if ltb max_steps (length steps) then max_steps else length steps;
      output_schema = resp.output_schema;
      steps = take max_steps steps;
      planner_reasoning_short = resp.reasoning;
      source = "";
      prompt_version = "";
    }
