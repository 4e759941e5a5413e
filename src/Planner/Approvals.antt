-- ===== src/Planner/Approvals.antt =====
-- What the validation of a plan from the language model secures for each tool of the registry
-- (internal/agent/planner/prompt.go).
use opspilot_go_dev_kit.Prelude.{
  ℕ, ◌+◌, String, ◌≡◌, inl, inr, ap, ◌∙◌, subst, Bool, true, false, ◌&&◌, ◌||◌, not, none, some,
  List, [], ◌∷◌, arith, ◌==◌, if◌then◌else◌, All, All-take, Bool-cases, Option-cases, Result, ok,
  err, length, ltb,
}
use opspilot_go_dev_kit.Prelude.Dict.{Dict, find}
use opspilot_go_dev_kit.Planner.Types.{
  TenantPolicy, ToolDescriptor, PlanInput, ExecutionPlan, LlmPlanStep, LlmPlanResponse,
  step_kind_tool, write_needs_approval, too_many_steps,
}
use opspilot_go_dev_kit.Planner.Policy.{is_in, is_empty}
use opspilot_go_dev_kit.Planner.Validation.{
  check_each, or_then, check_tenant, check_registry, check_tool_use, is_write, effective_max,
  max_steps, validate_plan_policy, convert_steps, to_llm_plan_response,
}
use opspilot_go_dev_kit.Planner.Plan.{
  accept, refusal, tool_descriptors, PlanFailure, prompt_version,
}
use opspilot_go_dev_kit.Planner.Plan
use opspilot_go_dev_kit.Planner.Plan.Permitted.{or_then-none, guard-none, refusal-none}

-- A step that runs a tool which the registry describes.
abbrev pub Registered :
    Dict ToolDescriptor → TenantPolicy → Bool → String → String → Bool → Bool → Type 0
Registered tools policy workflow kind tool_name read_only needs_approval =
    (desc : ToolDescriptor)
    → (kind == step_kind_tool) ≡ true
    → find tool_name tools ≡ some desc
    → (desc.async_only ≡ true → workflow ≡ true)
      × (desc.read_only ≡ false → read_only ≡ false)
      × (desc.read_only ≡ false
          → (desc.requires_approval || (policy.configured && policy.require_approval_for_write))
            ≡ true
          → needs_approval ≡ true)

abbrev StepRegistered : Dict ToolDescriptor → TenantPolicy → Bool → LlmPlanStep → Type 0
StepRegistered tools policy w s =
    Registered tools policy w s.kind s.tool_name s.read_only s.needs_approval

-- A tool step that passed the tenant's check, where writes need an approval.
tenant_step :
    (tools : Dict ToolDescriptor) (policy : TenantPolicy) (i : ℕ) (s : LlmPlanStep)
    (desc : ToolDescriptor)
    → (s.kind == step_kind_tool) ≡ true
    → find s.tool_name tools ≡ some desc
    → desc.read_only ≡ false
    → check_tenant tools policy i s ≡ none
    → policy.require_approval_for_write ≡ true
    → s.needs_approval ≡ true
unfolding check_tenant
tenant_step tools policy i s desc t f write h on =
    let (_, h₁) =
      guard-none (is_in s.tool_name policy.forbidden_tools) _ _ (rw (t, check_tenant) at h) in
    let (_, h₂) =
      guard-none
        (not (is_empty policy.allowed_tools) && not (is_in s.tool_name policy.allowed_tools)) _ _
        h₁ in
    let (x, _) =
      guard-none
        (policy.require_approval_for_write
          && is_write (find s.tool_name tools)
          && not s.needs_approval)
        (write_needs_approval i s.tool_name) none h₂ in
    let written : is_write (find s.tool_name tools) ≡ true = ap is_write f ∙ ap not write in
    ground arith

first_true : (a b : Bool) → (a && b) ≡ true → a ≡ true
first_true a b h = ground arith

second_true : (a b : Bool) → (a && b) ≡ true → b ≡ true
second_true a b h = ground arith

registry_step :
    (tools : Dict ToolDescriptor) (policy : TenantPolicy) (w : Bool) (i : ℕ) (s : LlmPlanStep)
    → check_registry tools w i s ≡ none
    → (policy.configured ≡ true → check_tenant tools policy i s ≡ none)
    → StepRegistered tools policy w s
unfolding check_registry check_tenant
registry_step tools policy w i s h k desc t f =
    let h' = (rw (t, f, check_registry) at h) in
    let (a, h₁) = guard-none (desc.async_only && not w) _ _ h' in
    let (b, h₂) =
      guard-none (not desc.read_only && desc.requires_approval && not s.needs_approval) _ _ h₁ in
    let (c, _) = guard-none (not desc.read_only && s.read_only) _ _ h₂ in
    (
      λ on. ground arith,
      λ write. ground arith,
      λ write demanded. elim (Bool-cases (policy.configured && policy.require_approval_for_write)) [
        | inr off ↦ ground arith
        | inl on ↦
            tenant_step tools policy i s desc t f write (k (first_true _ _ on)) (second_true _ _ on)
      ],
    )

All-Registered :
    (tools : Dict ToolDescriptor) (policy : TenantPolicy) (w : Bool) (i : ℕ)
    (steps : List LlmPlanStep)
    → check_each (check_registry tools w) i steps ≡ none
    → (policy.configured ≡ true → check_each (check_tenant tools policy) i steps ≡ none)
    → All (StepRegistered tools policy w) steps
All-Registered tools policy w i [] p q = tt
All-Registered tools policy w i (s ∷ steps) p q =
    let (p₁, p₂) =
      or_then-none (check_registry tools w i s) (check_each (check_registry tools w) (i + 1) steps)
        p in
    let parts = λ (c : policy.configured ≡ true).
      or_then-none (check_tenant tools policy i s)
        (check_each (check_tenant tools policy) (i + 1) steps) (q c) in
    (
      registry_step tools policy w i s p₁ (λ c. (parts c).0),
      All-Registered tools policy w (i + 1) steps p₂ (λ c. (parts c).1),
    )

validated :
    (resp : LlmPlanResponse) (tools : Dict ToolDescriptor) (policy : TenantPolicy)
    → validate_plan_policy resp tools policy ≡ none
    → All (StepRegistered tools policy resp.requires_workflow) resp.steps
unfolding validate_plan_policy
validated resp tools policy h =
    let (tenant, registry) =
      or_then-none
        (if policy.configured
          then or_then (check_each (check_tool_use policy) 0 resp.steps) (
              if ltb (effective_max policy) (length resp.steps)
              then some (too_many_steps (length resp.steps) (effective_max policy))
              else check_each (check_tenant tools policy) 0 resp.steps)
          else none)
        (check_each (check_registry tools resp.requires_workflow) 0 resp.steps) h in
    All-Registered tools policy resp.requires_workflow 0 resp.steps registry (λ c.
      let (_, rest) =
        or_then-none (check_each (check_tool_use policy) 0 resp.steps)
          (if ltb (effective_max policy) (length resp.steps)
            then some (too_many_steps (length resp.steps) (effective_max policy))
            else check_each (check_tenant tools policy) 0 resp.steps)
          (rw c at tenant) in
      (guard-none (ltb (effective_max policy) (length resp.steps)) _ _ rest).1)

converted-Registered :
    (tools : Dict ToolDescriptor) (policy : TenantPolicy) (w : Bool) (i : ℕ)
    (steps : List LlmPlanStep)
    → All (StepRegistered tools policy w) steps
    → All
        (λ s. Registered tools policy w s.kind s.tool_name s.read_only s.needs_approval)
        (convert_steps i steps)
unfolding convert_steps
converted-Registered tools policy w i [] h = tt
converted-Registered tools policy w i (s ∷ steps) h =
    (h.0, converted-Registered tools policy w (i + 1) steps h.1)

-- Of a plan that is accepted from the language model, configured policy or not: a step that runs a tool
-- of the registry stands in a plan with a workflow if the tool is for asynchronous use only; and if the
-- tool writes, the step is not marked read-only, and it carries the approval where the registry demands it
-- of the tool or a configured policy demands it of writes.
pub accepted-Registered :
    (source plan_id : String) (input : PlanInput) (r : Result String LlmPlanResponse)
    (p : ExecutionPlan)
    → accept source plan_id input r ≡ ok p
    → All
        (λ s.
          Registered
            (tool_descriptors input.available_tools [])
            input.tenant_policy
            p.requires_workflow
            s.kind
            s.tool_name
            s.read_only
            s.needs_approval)
        p.steps
unfolding accept to_llm_plan_response
accepted-Registered source plan_id input (err message) p h = absurd (cc)
accepted-Registered source plan_id input (ok resp) p h = elim (Option-cases (refusal input resp)) [
  | inr (x, e) ↦
      absurd (let y : Result.err (Plan.plan_refused x) ≡ Result.ok p = (rw (e, accept) at h) in cc)
  | inl e ↦
      let policy = input.tenant_policy in
      let tools = tool_descriptors input.available_tools [] in
      let q : ExecutionPlan = record (to_llm_plan_response plan_id resp) {
        source = source;
        prompt_version = prompt_version;
      } in
      let y : Result.ok q ≡ ok p = (rw (e, accept) at h) in
      let q_eq : q ≡ p = cc in
      subst
        (λ x.
          All
            (λ s.
              Registered tools policy x.requires_workflow s.kind s.tool_name s.read_only
                s.needs_approval)
            x.steps)
        q_eq
        (All-take
          (λ s.
            Registered tools policy resp.requires_workflow s.kind s.tool_name s.read_only
              s.needs_approval)
          max_steps (convert_steps 0 resp.steps)
          (converted-Registered tools policy resp.requires_workflow 0 resp.steps
            (validated resp tools policy (refusal-none input resp e))))
]
