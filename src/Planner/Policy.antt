-- ===== src/Planner/Policy.antt =====
-- internal/agent/planner/policy.go: the policies of organization, tenant and user merged into one; and
-- `isTenantToolAllowed` of service.go, which reads the result.
use opspilot_go_dev_kit.Prelude.{
  String, ◌≡◌, inl, inr, refl, sym, ap, ◌∙◌, Bool, true, false, ◌&&◌, ◌||◌, not, List, [], ◌∷◌,
  ◌++◌, arith, ◌==◌, eq_iff, str_lt, if◌then◌else◌, any, Bool-cases, ltb,
}
use opspilot_go_dev_kit.Prelude.Sorting.{sort, insert}
use opspilot_go_dev_kit.Prelude.Paging.{ℤ, pos, negsuc}
use opspilot_go_dev_kit.Planner.Types.{TenantPolicy}

abbrev pub is_in : String → List String → Bool
is_in t ts = any (λ other. other == t) ts

-- The keys of the map `seen`: each text once.
unfoldable pub distinct : List String → List String
distinct [] = []
distinct (t ∷ ts) = let rest = distinct ts in if is_in t rest then rest else t ∷ rest

unfoldable pub union_strings : List String → List String → List String
unfolding distinct
union_strings a b = sort str_lt (distinct (a ++ b))

abbrev pub empty_policy : TenantPolicy
empty_policy = record {
  configured = false;
  allow_tool_use = false;
  allow_tool_use_explicit = false;
  allowed_tools = [];
  forbidden_tools = [];
  max_steps = pos 0;
  require_approval_for_write = false;
}

abbrev pub is_empty : List String → Bool
is_empty [] = true
is_empty (_ ∷ _) = false

abbrev pub is_positive : ℤ → Bool
is_positive (pos n) = ltb 0 n
is_positive (negsuc n) = false

-- The body of the loop over the layers.
unfoldable pub merge_layer : TenantPolicy → TenantPolicy → TenantPolicy
unfolding union_strings
merge_layer result layer =
    if layer.configured
    then (record {
      configured = true;
      allow_tool_use =
          if layer.allow_tool_use_explicit then layer.allow_tool_use else result.allow_tool_use;
      allow_tool_use_explicit = layer.allow_tool_use_explicit || result.allow_tool_use_explicit;
      allowed_tools =
          if is_empty layer.allowed_tools then result.allowed_tools else layer.allowed_tools;
      forbidden_tools =
          if is_empty layer.forbidden_tools
          then result.forbidden_tools
          else union_strings result.forbidden_tools layer.forbidden_tools;
      max_steps = if is_positive layer.max_steps then layer.max_steps else result.max_steps;
      require_approval_for_write =
          layer.require_approval_for_write || result.require_approval_for_write;
    })
    else result

unfoldable pub merge_policies : TenantPolicy → TenantPolicy → TenantPolicy → TenantPolicy
unfolding merge_layer
merge_policies org tenant user =
    merge_layer (merge_layer (merge_layer empty_policy org) tenant) user

unfoldable pub is_tenant_tool_allowed : String → TenantPolicy → Bool
is_tenant_tool_allowed tool_name policy =
    if not policy.configured
    then true
    else if is_in tool_name policy.forbidden_tools
    then false
    else if is_empty policy.allowed_tools
    then true
    else is_in tool_name policy.allowed_tools

is_in-insert :
    (t u : String) (ts : List String) → is_in t (insert str_lt u ts) ≡ (u == t || is_in t ts)
unfolding insert
is_in-insert t u [] = refl
is_in-insert t u (v ∷ ts) = ground (arith, is_in-insert t u ts)

is_in-sort : (t : String) (ts : List String) → is_in t (sort str_lt ts) ≡ is_in t ts
unfolding sort
is_in-sort t [] = refl
is_in-sort t (u ∷ ts) = is_in-insert t u (sort str_lt ts) ∙ ap (λ b. u == t || b) (is_in-sort t ts)

is_in-distinct : (t : String) (ts : List String) → is_in t (distinct ts) ≡ is_in t ts
unfolding distinct
is_in-distinct t [] = refl
is_in-distinct t (u ∷ ts) = elim (Bool-cases (is_in u (distinct ts))) [
  | inr new ↦ rw new (ap (λ b. u == t || b) (is_in-distinct t ts))
  | inl old ↦ elim (Bool-cases (u == t)) [
    | inr other ↦ rw (old, other) (is_in-distinct t ts)
    | inl same ↦ rw (old, same) (ap (λ v. is_in v (distinct ts)) (sym ((eq_iff u t).0 same)) ∙ old)
  ]
]

is_in-append : (t : String) (a b : List String) → is_in t (a ++ b) ≡ (is_in t a || is_in t b)
is_in-append t [] b = refl
is_in-append t (u ∷ a) b = ground (arith, is_in-append t a b)

is_in-union :
    (t : String) (a b : List String) → is_in t (union_strings a b) ≡ (is_in t a || is_in t b)
unfolding union_strings
is_in-union t a b =
    is_in-sort t (distinct (a ++ b)) ∙ (is_in-distinct t (a ++ b) ∙ is_in-append t a b)

-- What a layer forbids and demands, if it is configured.
abbrev pub forbids : TenantPolicy → String → Bool
forbids layer t = layer.configured && is_in t layer.forbidden_tools

abbrev pub demands_approval : TenantPolicy → Bool
demands_approval layer = layer.configured && layer.require_approval_for_write

empty-is_in : (t : String) (ts : List String) → is_empty ts ≡ true → is_in t ts ≡ false
empty-is_in t [] h = refl
empty-is_in t (u ∷ ts) h = absurd (cc)

pub merge_layer-forbids :
    (t : String) (result layer : TenantPolicy)
    → is_in t (merge_layer result layer).forbidden_tools
      ≡ (is_in t result.forbidden_tools || forbids layer t)
unfolding merge_layer
merge_layer-forbids t result layer = elim (Bool-cases layer.configured) [
  | inr off ↦ rw off (ground arith)
  | inl on ↦ elim (Bool-cases (is_empty layer.forbidden_tools)) [
    | inl e ↦ rw (on, e) (let none_in = empty-is_in t layer.forbidden_tools e in ground arith)
    | inr e ↦ rw (on, e) (is_in-union t result.forbidden_tools layer.forbidden_tools)
  ]
]

merge_layer-demands :
    (result layer : TenantPolicy)
    → (merge_layer result layer).require_approval_for_write
      ≡ (result.require_approval_for_write || demands_approval layer)
unfolding merge_layer
merge_layer-demands result layer = elim (Bool-cases layer.configured) [
  | inr off ↦ rw off (ground arith)
  | inl on ↦ rw on (ground arith)
]

-- A tool is forbidden after the merge just when some configured layer forbids it, and writes need an
-- approval just when some configured layer demands it: no layer takes back what another forbids.
pub merge_policies-tightens :
    (org tenant user : TenantPolicy) (t : String)
    → (is_in t (merge_policies org tenant user).forbidden_tools
        ≡ (forbids org t || forbids tenant t || forbids user t))
      × ((merge_policies org tenant user).require_approval_for_write
          ≡ (demands_approval org || demands_approval tenant || demands_approval user))
unfolding merge_policies
merge_policies-tightens org tenant user t =
    let one = merge_layer empty_policy org in
    let two = merge_layer one tenant in
    (
      merge_layer-forbids t two user
          ∙ ap (λ b. b || forbids user t)
              (merge_layer-forbids t one tenant
                ∙ ap (λ b. b || forbids tenant t) (merge_layer-forbids t empty_policy org))
          ∙ ground arith,
      merge_layer-demands two user
          ∙ ap (λ b. b || demands_approval user)
              (merge_layer-demands one tenant
                ∙ ap (λ b. b || demands_approval tenant) (merge_layer-demands empty_policy org))
          ∙ ground arith,
    )
