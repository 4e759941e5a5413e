-- ===== src/Planner/Plan/Permitted.antt =====
-- What the policy of the tenant permits of a plan, and the part of the language model's answer
-- (internal/agent/planner/service.go and prompt.go).
use opspilot_go_dev_kit.Prelude.{
  ℕ, suc, ◌+◌, ◌≤◌, min, String, ◌≡◌, inl, inr, refl, sym, ap, ◌∙◌, subst, Bool, true, false,
  Option, none, some, List, [], ◌∷◌, map, arith, ◌==◌, if◌then◌else◌, length, ltb, length-take, All,
  All-take, Option-cases, Result, ok, err,
}
use opspilot_go_dev_kit.Prelude.Dict.{Dict}
use opspilot_go_dev_kit.Planner.Types.{
  TenantPolicy, ToolDescriptor, PlanInput, ExecutionPlan, LlmPlanStep, LlmPlanResponse, PlanError,
  step_kind_tool,
}
use opspilot_go_dev_kit.Planner.Policy.{is_tenant_tool_allowed}
use opspilot_go_dev_kit.Planner.Validation.{
  or_then, check_each, check_tool_use, check_tenant, effective_max, below_max, max_steps,
  validate_plan_policy, validate_llm_plan, convert_steps, to_llm_plan_response,
}
use opspilot_go_dev_kit.Prelude.Paging.{ℤ, pos, negsuc}
use opspilot_go_dev_kit.Planner.Plan
use opspilot_go_dev_kit.Planner.Plan.{
  plan, plan_with_llm, accept, refusal, tool_descriptors, PlanFailure, replan,
}

-- A step that runs a tool runs one that the policy lets the tenant use.
abbrev pub IsPermitted : TenantPolicy → String → String → Type 0
IsPermitted policy kind tool_name =
    (kind == step_kind_tool) ≡ true
    → (policy.allow_tool_use ≡ true) × (is_tenant_tool_allowed tool_name policy ≡ true)

pub or_then-none : (a b : Option PlanError) → or_then a b ≡ none → (a ≡ none) × (b ≡ none)
or_then-none none b h = (refl, h)
or_then-none (some e) b h = absurd (cc)

-- Two loops over the steps that found no error.
both_passed :
    (f g : ℕ → LlmPlanStep → Option PlanError) (P : LlmPlanStep → Type 0)
    → ((i : ℕ) (s : LlmPlanStep) → f i s ≡ none → g i s ≡ none → P s)
    → (i : ℕ) (steps : List LlmPlanStep) → check_each f i steps ≡ none
    → check_each g i steps ≡ none
    → All P steps
both_passed f g P h i [] p q = tt
both_passed f g P h i (s ∷ steps) p q =
    let (p₁, p₂) = or_then-none (f i s) (check_each f (i + 1) steps) p in
    let (q₁, q₂) = or_then-none (g i s) (check_each g (i + 1) steps) q in
    (h i s p₁ q₁, both_passed f g P h (i + 1) steps p₂ q₂)

checked_step :
    (tools : Dict ToolDescriptor) (policy : TenantPolicy)
    → policy.configured ≡ true
    → (i : ℕ) (s : LlmPlanStep) → check_tool_use policy i s ≡ none
    → check_tenant tools policy i s ≡ none
    → IsPermitted policy s.kind s.tool_name
unfolding check_tool_use check_tenant is_tenant_tool_allowed
checked_step tools policy c i s p q t = ground arith

converted-IsPermitted :
    (policy : TenantPolicy) (i : ℕ) (steps : List LlmPlanStep)
    → All (λ s. IsPermitted policy s.kind s.tool_name) steps
    → All (λ s. IsPermitted policy s.kind s.tool_name) (convert_steps i steps)
unfolding convert_steps
converted-IsPermitted policy i [] h = tt
converted-IsPermitted policy i (s ∷ steps) h = (h.0, converted-IsPermitted policy (i + 1) steps h.1)

length-convert_steps :
    (i : ℕ) (steps : List LlmPlanStep) → length (convert_steps i steps) ≡ length steps
unfolding convert_steps
length-convert_steps i [] = refl
length-convert_steps i (s ∷ steps) = ap (λ n. suc n) (length-convert_steps (i + 1) steps)

pub guard-none :
    (b : Bool) (e : PlanError) (next : Option PlanError)
    → (if b then some e else next) ≡ none
    → (b ≡ false) × (next ≡ none)
guard-none true e next h = absurd (cc)
guard-none false e next h = (refl, h)

not_longer : (m n : ℕ) → ltb m n ≡ false → n ≤ m
not_longer m n h = ground arith

pub capped : (m n : ℕ) → (if ltb m n then m else n) ≡ min m n
capped m n = ground arith

-- What a passed validation says of the answer of the model.
policy_passed :
    (resp : LlmPlanResponse) (tools : Dict ToolDescriptor) (policy : TenantPolicy)
    → policy.configured ≡ true
    → validate_plan_policy resp tools policy ≡ none
    → All (λ s. IsPermitted policy s.kind s.tool_name) resp.steps
      × (length resp.steps ≤ effective_max policy)
unfolding validate_plan_policy
policy_passed resp tools policy c h =
    let (tenant, _) = or_then-none _ _ (rw (c, validate_plan_policy) at h) in
    let (use_ok, rest) = or_then-none _ _ tenant in
    let (short, tools_ok) = guard-none (ltb (effective_max policy) (length resp.steps)) _ _ rest in
    (
      both_passed (check_tool_use policy) (check_tenant tools policy)
          (λ s. IsPermitted policy s.kind s.tool_name) (checked_step tools policy c) 0 resp.steps
          use_ok tools_ok,
      not_longer (effective_max policy) (length resp.steps) short,
    )

abbrev pub KeepsTo : TenantPolicy → ExecutionPlan → Type 0
KeepsTo policy p =
    All (λ s. IsPermitted policy s.kind s.tool_name) p.steps
    × (length p.steps ≤ effective_max policy)
    × (p.max_steps ≡ length p.steps)

effective_max-le : (policy : TenantPolicy) → effective_max policy ≤ max_steps
unfolding effective_max
effective_max-le policy = below (policy.max_steps)
  where
    below : (l : ℤ) → below_max l ≤ max_steps
    below (pos n) = ground arith
    below (negsuc n) = omega arith

pub refusal-none :
    (input : PlanInput) (resp : LlmPlanResponse)
    → refusal input resp ≡ none
    → validate_plan_policy resp (tool_descriptors input.available_tools []) input.tenant_policy
      ≡ none
unfolding refusal
refusal-none input resp h =
    elim (Option-cases (validate_llm_plan resp (map (λ t. t.name) input.available_tools))) [
      | inl e ↦ (rw (e, refusal) at h)
      | inr (x, e) ↦ absurd (let y : some x ≡ none = (rw (e, refusal) at h) in cc)
    ]

pub accepted-KeepsTo :
    (source plan_id : String) (input : PlanInput) (r : Result String LlmPlanResponse)
    (p : ExecutionPlan)
    → input.tenant_policy.configured ≡ true
    → accept source plan_id input r ≡ ok p
    → KeepsTo input.tenant_policy p
unfolding accept to_llm_plan_response
accepted-KeepsTo source plan_id input (err message) p c h = absurd (cc)
accepted-KeepsTo source plan_id input (ok resp) p c h = elim (Option-cases (refusal input resp)) [
  | inr (x, e) ↦
      absurd (let y : Result.err (Plan.plan_refused x) ≡ Result.ok p = (rw (e, accept) at h) in cc)
  | inl e ↦
      let policy = input.tenant_policy in
      let q : ExecutionPlan = record (to_llm_plan_response plan_id resp) {
        source = source;
        prompt_version = Plan.prompt_version;
      } in
      let y : Result.ok q ≡ ok p = (rw (e, accept) at h) in
      let q_eq : q ≡ p = cc in
      let (allowed, short) =
        policy_passed resp (tool_descriptors input.available_tools []) policy c
          (refusal-none input resp e) in
      let len = length-convert_steps 0 resp.steps in
      subst (KeepsTo policy) q_eq (
        All-take (λ s. IsPermitted policy s.kind s.tool_name) max_steps (convert_steps 0 resp.steps)
            (converted-IsPermitted policy 0 resp.steps allowed),
        omega (arith, length-take max_steps (convert_steps 0 resp.steps), len, short),
        capped max_steps (length (convert_steps 0 resp.steps))
            ∙ sym (length-take max_steps (convert_steps 0 resp.steps)),
      )
]
