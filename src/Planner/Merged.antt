-- ===== src/Planner/Merged.antt =====
-- Plans under a policy merged from those of organization, tenant and user (internal/agent/planner).
use opspilot_go_dev_kit.Prelude.{
  String, ◌≡◌, ◌≢◌, inl, inr, ap, ◌∙◌, Bool, true, false, ◌&&◌, ◌||◌, not, Option, arith, ◌==◌, All,
  All-imp, Bool-cases, Result,
}
use opspilot_go_dev_kit.Planner.Types.{
  TenantPolicy, PlanInput, PlanStep, LlmPlanResponse, step_kind_tool,
}
use opspilot_go_dev_kit.Planner.Policy.{
  is_in, is_tenant_tool_allowed, empty_policy, merge_layer, merge_policies, merge_policies-tightens,
  forbids,
}
use opspilot_go_dev_kit.Planner.Keywords.{select_tool, no_tool}
use opspilot_go_dev_kit.Planner.Plan.{plan}
use opspilot_go_dev_kit.Planner.Plan.Permitted.{IsPermitted}
use opspilot_go_dev_kit.Planner.Plan.Kept.{plan-KeepsTo}

merge_layer-configured :
    (result layer : TenantPolicy)
    → (merge_layer result layer).configured ≡ (result.configured || layer.configured)
unfolding merge_layer
merge_layer-configured result layer = elim (Bool-cases layer.configured) [
  | inr off ↦ rw off (ground arith)
  | inl on ↦ rw on (ground arith)
]

merge_policies-configured :
    (org tenant user : TenantPolicy)
    → (merge_policies org tenant user).configured
      ≡ (org.configured || tenant.configured || user.configured)
unfolding merge_policies
merge_policies-configured org tenant user =
    let one = merge_layer empty_policy org in
    let two = merge_layer one tenant in
    merge_layer-configured two user
    ∙ (ap (λ b. b || user.configured)
          (merge_layer-configured one tenant
            ∙ ap (λ b. b || tenant.configured) (merge_layer-configured empty_policy org))
        ∙ ground arith)

forbids-configured :
    (org tenant user : TenantPolicy) (t : String)
    → (forbids org t || forbids tenant t || forbids user t) ≡ true
    → (org.configured || tenant.configured || user.configured) ≡ true
forbids-configured org tenant user t h = ground arith

allowed_not_forbidden :
    (policy : TenantPolicy) (s t : String)
    → policy.configured ≡ true
    → is_in t policy.forbidden_tools ≡ true
    → is_tenant_tool_allowed s policy ≡ true
    → s ≢ t
unfolding is_tenant_tool_allowed
allowed_not_forbidden policy s t c f a e =
    let f' : is_in s policy.forbidden_tools ≡ true =
      ap (λ x. is_in x policy.forbidden_tools) e ∙ f in
    ground arith

-- A tool that the organization, the tenant or the user forbids in a configured policy is run by no step of
-- a plan under their merged policy, whatever else the three say and whatever the language model answers.
pub forbidden_tool-not_planned :
    (org tenant user : TenantPolicy) (t : String)
    (provider : Option (PlanInput → Result String LlmPlanResponse)) (input : PlanInput)
    → input.tenant_policy ≡ merge_policies org tenant user
    → (forbids org t || forbids tenant t || forbids user t) ≡ true
    → All
        (λ (s : PlanStep). (s.kind == step_kind_tool) ≡ true → s.tool_name ≢ t)
        (plan provider input).steps
forbidden_tool-not_planned org tenant user t provider input same h =
    let policy = input.tenant_policy in
    let c : policy.configured ≡ true =
      ap (λ p. p.configured) same
      ∙ (merge_policies-configured org tenant user ∙ forbids-configured org tenant user t h) in
    let f : is_in t policy.forbidden_tools ≡ true =
      ap (λ p. is_in t p.forbidden_tools) same
      ∙ ((merge_policies-tightens org tenant user t).0 ∙ h) in
    All-imp (λ s. IsPermitted policy s.kind s.tool_name)
      (λ s. (s.kind == step_kind_tool) ≡ true → s.tool_name ≢ t) (plan provider input).steps
      (λ s p k. allowed_not_forbidden policy s.tool_name t c f (p k).1)
      (plan-KeepsTo provider input c).0

merge_layer-allow :
    (result layer : TenantPolicy)
    → layer.allow_tool_use_explicit ≡ false
    → (merge_layer result layer).allow_tool_use ≡ result.allow_tool_use
unfolding merge_layer
merge_layer-allow result layer e = ground arith

-- Policies that say nothing of tool use, at least one of them configured, merge to one that takes every
-- tool away: it is configured and does not allow tool use, and the keyword planner selects no tool.
pub partial_policies_disable_tools :
    (org tenant user : TenantPolicy) (input : PlanInput)
    → (org.configured || tenant.configured || user.configured) ≡ true
    → org.allow_tool_use_explicit ≡ false
    → tenant.allow_tool_use_explicit ≡ false
    → user.allow_tool_use_explicit ≡ false
    → input.tenant_policy ≡ merge_policies org tenant user
    → ((merge_policies org tenant user).configured ≡ true)
      × ((merge_policies org tenant user).allow_tool_use ≡ false)
      × (select_tool input ≡ no_tool)
unfolding merge_policies select_tool
partial_policies_disable_tools org tenant user input c eo et eu same =
    let one = merge_layer empty_policy org in
    let two = merge_layer one tenant in
    let on = merge_policies-configured org tenant user ∙ c in
    let off : (merge_policies org tenant user).allow_tool_use ≡ false =
      merge_layer-allow two user eu
      ∙ (merge_layer-allow one tenant et ∙ merge_layer-allow empty_policy org eo) in
    let barred : (input.tenant_policy.configured && not input.tenant_policy.allow_tool_use) ≡ true =
      ap (λ p. p.configured && not p.allow_tool_use) same ∙ both _ _ on off in
    (on, off, rw (select_tool, barred))
  where
    both : (a b : Bool) → a ≡ true → b ≡ false → (a && not b) ≡ true
    both a b p q = ground arith
