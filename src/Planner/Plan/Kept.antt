-- ===== src/Planner/Plan/Kept.antt =====
-- `Plan` and `Replan` beside the policy of the tenant, and the keyword planner's part of it
-- (internal/agent/planner/service.go).
use opspilot_go_dev_kit.Prelude.{
  ◌≤◌, String, ◌≡◌, ◌⊎◌, inl, inr, refl, sym, ap, ◌∙◌, subst, Bool, true, false, ◌&&◌, ◌||◌, not,
  Option, none, some, List, [], ◌∷◌, arith, ◌==◌, if◌then◌else◌, length, take, length-take, All,
  All-take, Bool-cases, Result-cases, Result, ok,
}
use opspilot_go_dev_kit.Prelude.Strings.{to_lower}
use opspilot_go_dev_kit.Planner.Types.{
  TenantPolicy, ToolDescriptor, PlanInput, ExecutionPlan, LlmPlanResponse, ReplanInput,
}
use opspilot_go_dev_kit.Planner.Policy.{is_tenant_tool_allowed}
use opspilot_go_dev_kit.Planner.Validation.{effective_max}
use opspilot_go_dev_kit.Planner.Keywords.{
  first_tool, is_search_tool, is_ticket_tool, select_tool, asks_search, with_approval, build_steps,
  no_tool, plan_with_keywords, keyword_max, derive_plan_id, classify_intent,
  should_promote_workflow,
}
use opspilot_go_dev_kit.Planner.Plan.{plan, plan_with_llm, accept, replan}
use opspilot_go_dev_kit.Planner.Plan.Permitted.{IsPermitted, KeepsTo, accepted-KeepsTo, capped}

-- No tool, or one that the policy lets the tenant use.
abbrev IsUsable : TenantPolicy → ToolDescriptor → Type 0
IsUsable policy tool =
    ((tool.name == "") ≡ true)
    ⊎ ((policy.allow_tool_use ≡ true) × (is_tenant_tool_allowed tool.name policy ≡ true))

first_tool-IsUsable :
    (policy : TenantPolicy) (p : ToolDescriptor → Bool)
    → ((tool : ToolDescriptor) → p tool ≡ true → IsUsable policy tool)
    → (tools : List ToolDescriptor) (otherwise : ToolDescriptor) → IsUsable policy otherwise
    → IsUsable policy (first_tool p tools otherwise)
first_tool-IsUsable policy p h [] otherwise o = o
first_tool-IsUsable policy p h (tool ∷ tools) otherwise o = elim (Bool-cases (p tool)) [
  | inl e ↦ rw e (h tool e)
  | inr e ↦ rw e (first_tool-IsUsable policy p h tools otherwise o)
]

search_tool-IsUsable :
    (policy : TenantPolicy) (tool : ToolDescriptor)
    → policy.allow_tool_use ≡ true
    → is_search_tool policy tool ≡ true
    → IsUsable policy tool
unfolding is_search_tool
search_tool-IsUsable policy tool a h = inr (a, ground arith)

ticket_tool-IsUsable :
    (policy : TenantPolicy) (message : String) (tool : ToolDescriptor)
    → policy.allow_tool_use ≡ true
    → is_ticket_tool policy message tool ≡ true
    → IsUsable policy tool
unfolding is_ticket_tool
ticket_tool-IsUsable policy message tool a h = inr (a, ground arith)

-- The conditional at the end of `selectTool`.
chosen-IsUsable :
    (policy : TenantPolicy) (barred asks : Bool) (x y z : ToolDescriptor)
    → IsUsable policy x
    → (barred ≡ false → IsUsable policy y)
    → (barred ≡ false → IsUsable policy z)
    → IsUsable policy (if barred then x else if asks then y else z)
chosen-IsUsable policy true asks x y z hx hy hz = hx
chosen-IsUsable policy false true x y z hx hy hz = hy refl
chosen-IsUsable policy false false x y z hx hy hz = hz refl

not_barred :
    (configured allow : Bool) → configured ≡ true → (configured && not allow) ≡ false → allow ≡ true
not_barred configured allow c h = ground arith

select_tool-IsUsable :
    (input : PlanInput)
    → input.tenant_policy.configured ≡ true
    → IsUsable input.tenant_policy (select_tool input)
unfolding select_tool
select_tool-IsUsable input c =
    let policy = input.tenant_policy in
    let message = to_lower input.user_message in
    let tools = input.available_tools in
    let allow = λ (h : (policy.configured && not policy.allow_tool_use) ≡ false).
      not_barred policy.configured policy.allow_tool_use c h in
    let second = first_tool (is_ticket_tool policy message) tools no_tool in
    let second_usable = λ (h : (policy.configured && not policy.allow_tool_use) ≡ false).
      first_tool-IsUsable policy (is_ticket_tool policy message)
        (λ tool t. ticket_tool-IsUsable policy message tool (allow h) t) tools no_tool (inl refl) in
    chosen-IsUsable policy (policy.configured && not policy.allow_tool_use) (asks_search message)
      no_tool (first_tool (is_search_tool policy) tools second) second (inl refl)
      (λ h.
        first_tool-IsUsable policy (is_search_tool policy)
          (λ tool t. search_tool-IsUsable policy tool (allow h) t) tools second (second_usable h))
      second_usable

with_approval-IsUsable :
    (policy : TenantPolicy) (tool : ToolDescriptor)
    → IsUsable policy tool
    → IsUsable policy (with_approval policy tool)
unfolding with_approval
with_approval-IsUsable policy tool h =
    elim (Bool-cases
      (not (tool.name == "") && not tool.read_only && policy.require_approval_for_write)) [
        | inl e ↦ rw (with_approval, e) h
        | inr e ↦ rw (with_approval, e) h
      ]

false_not_true : {A : Type 0} → false ≡ true → A
false_not_true h = absurd (cc)

build_steps-IsPermitted :
    (policy : TenantPolicy) (workflow : Bool) (tool : ToolDescriptor)
    → IsUsable policy tool
    → All (λ s. IsPermitted policy s.kind s.tool_name) (build_steps workflow tool)
unfolding build_steps
build_steps-IsPermitted policy true tool h = (λ t. false_not_true t, tt)
build_steps-IsPermitted policy false tool h = elim (Bool-cases (tool.name == "")) [
  | inl e ↦
      rw (build_steps, e)
        ((λ t. false_not_true t), ((λ t. false_not_true t), ((λ t. false_not_true t), tt)))
  | inr e ↦
      rw (build_steps, e)
        (
          (λ t. false_not_true t),
          ((λ t. usable e h), ((λ t. false_not_true t), ((λ t. false_not_true t), tt))),
        )
]
  where
    usable :
        (tool.name == "") ≡ false
        → IsUsable policy tool
        → (policy.allow_tool_use ≡ true) × (is_tenant_tool_allowed tool.name policy ≡ true)
    usable e (inl f) = false_not_true (sym e ∙ f)
    usable e (inr a) = a

keywords-KeepsTo :
    (input : PlanInput) (plan_id : String)
    → input.tenant_policy.configured ≡ true
    → KeepsTo input.tenant_policy (plan_with_keywords input plan_id)
unfolding plan_with_keywords
keywords-KeepsTo input plan_id c =
    let policy = input.tenant_policy in
    let tool = with_approval policy (select_tool input) in
    let workflow = should_promote_workflow input (classify_intent input) || tool.async_only in
    let steps = build_steps workflow tool in
    let most = keyword_max policy in
    (
      All-take (λ s. IsPermitted policy s.kind s.tool_name) most steps
          (build_steps-IsPermitted policy workflow tool
            (with_approval-IsUsable policy (select_tool input) (select_tool-IsUsable input c))),
      subst (λ n. length (take most steps) ≤ n) (keyword_max_configured policy c)
          (omega (arith, length-take most steps)),
      capped most (length steps) ∙ sym (length-take most steps),
    )
  where
    keyword_max_configured :
        (policy : TenantPolicy)
        → policy.configured ≡ true
        → keyword_max policy ≡ effective_max policy
    keyword_max_configured policy c = ap (λ b. if b then effective_max policy else 6) c

-- Under a configured policy, whatever the language model answers, and if there is none: every step of the
-- plan that runs a tool runs one that `isTenantToolAllowed` lets through, under a policy that allows
-- tools at all; the plan has at most as many steps as the policy and the system allow, and `MaxSteps` is
-- their number.
pub plan-KeepsTo :
    (provider : Option (PlanInput → Result String LlmPlanResponse)) (input : PlanInput)
    → input.tenant_policy.configured ≡ true
    → KeepsTo input.tenant_policy (plan provider input)
unfolding plan plan_with_llm
plan-KeepsTo none input c = keywords-KeepsTo input (derive_plan_id input) c
plan-KeepsTo (some complete) input c =
    elim (Result-cases (accept "llm" (derive_plan_id input) input (complete input))) [
      | inl (p, e) ↦
          rw (e, plan, plan_with_llm)
            (accepted-KeepsTo "llm" (derive_plan_id input) input (complete input) p c e)
      | inr (x, e) ↦ rw (e, plan, plan_with_llm) (keywords-KeepsTo input (derive_plan_id input) c)
    ]

-- The same of a plan that `Replan` makes while a plan is executed, where it makes one.
pub replan-KeepsTo :
    (provider : Option (ReplanInput → Result String LlmPlanResponse)) (r : ReplanInput)
    (p : ExecutionPlan)
    → r.input.tenant_policy.configured ≡ true
    → replan provider r ≡ ok p
    → KeepsTo r.input.tenant_policy p
unfolding replan
replan-KeepsTo none r p c h = absurd (cc)
replan-KeepsTo (some complete) r p c h = accepted-KeepsTo "replan" _ r.input (complete r) p c h
