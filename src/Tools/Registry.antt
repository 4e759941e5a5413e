-- ===== src/Tools/Registry.antt =====
-- internal/tools/registry/registry.go: the tools by name. An executor is a parameter: it takes the state
-- `W` of the world outside and its arguments, and answers with a value of type `J` or an error's text.
-- A `json.RawMessage` is its text.
use mathlib.Core.List.Permᴰ
use mathlib.Core.List.{Memᴰ}
use opspilot_go_dev_kit.Prelude.{
  String, ◌≡◌, ◌≢◌, subst, sym, AllPairs, AllPairs-perm, Memᴰ-perm, inl, inr, refl, ◌∙◌, Bool,
  Option, none, some, List, [], ◌∷◌, Result, ◌==◌, str_lt, if◌then◌else◌, Bool-cases, Option-cases,
  All, All-perm,
}
use opspilot_go_dev_kit.Prelude.TextOrder.{str_lt_asym, str_lt_cotrans}
use opspilot_go_dev_kit.Prelude.Dict.{
  Dict, find, put, values, find-put, KeyedBy, put-KeyedBy, values_found, values_distinct,
}
use opspilot_go_dev_kit.Prelude.Sorting.{sort, WeakOrder, IsSorted, sort-perm, sort-IsSorted}

pub record ParameterDef : Type 0 where
  pub name : String
  pub param_type : String
  pub required : Bool
  pub description : String

pub record Definition (W J : Type 0) : Type 0 where
  pub name : String
  pub description : String
  pub action_class : String
  pub read_only : Bool
  pub requires_approval : Bool
  pub async_only : Bool
  pub parameters : List ParameterDef
  pub stub_response : J
  pub executor : Option (W → String → Result String J × W)

module _ {W J : Type 0} where
  unfoldable pub new_registry : Dict (Definition W J)
  new_registry = []

  unfoldable pub register : Definition W J → Dict (Definition W J) → Dict (Definition W J)
  register def r = put def.name def r

  unfoldable pub lookup : String → Dict (Definition W J) → Option (Definition W J)
  lookup name r = find name r

  abbrev pub name_before : Definition W J → Definition W J → Bool
  name_before a b = str_lt a.name b.name

  unfoldable pub list_definitions : Dict (Definition W J) → List (Definition W J)
  list_definitions r = sort name_before (values r)

  -- The calls of `Register` in order.
  abbrev pub register_all : List (Definition W J) → Dict (Definition W J) → Dict (Definition W J)
  register_all [] r = r
  register_all (def ∷ defs) r = register_all defs (register def r)

  -- The last definition with a name.
  abbrev pub last_named : String → List (Definition W J) → Option (Definition W J)
  last_named name [] = none
  last_named name (def ∷ defs) = elim (last_named name defs) [
    | some later ↦ some later
    | none ↦ if def.name == name then some def else none
  ]

  abbrev name_of : Definition W J → String
  name_of def = def.name

  name_before-order : WeakOrder name_before
  name_before-order = record {
    asym = λ x y h. str_lt_asym x.name y.name h;
    cotrans = λ x y z h k. str_lt_cotrans x.name y.name z.name h k;
  }

  or_last : Option (Definition W J) → Option (Definition W J) → Option (Definition W J)
  or_last (some later) earlier = some later
  or_last none earlier = earlier

  register_all-find :
      (name : String) (defs : List (Definition W J)) (r : Dict (Definition W J))
      → find name (register_all defs r) ≡ or_last (last_named name defs) (find name r)
  unfolding register or_last
  register_all-find name [] r = refl
  register_all-find name (def ∷ defs) r =
      register_all-find name defs (register def r) ∙ (elim (Option-cases (last_named name defs)) [
        | inr (later, e) ↦ rw e
        | inl e ↦ elim (Bool-cases (def.name == name)) [
          | inl same ↦ rw (e, same, find-put, same)
          | inr other ↦ rw (e, other, find-put, other)
        ]
      ])

  register_all-KeyedBy :
      (defs : List (Definition W J)) (r : Dict (Definition W J))
      → KeyedBy name_of r
      → KeyedBy name_of (register_all defs r)
  unfolding register
  register_all-KeyedBy [] r h = h
  register_all-KeyedBy (def ∷ defs) r h =
      register_all-KeyedBy defs (register def r) (put-KeyedBy name_of def r h)

  -- What is found under a name is listed.
  find-Memᴰ :
      (name : String) (d : Definition W J) (r : Dict (Definition W J))
      → find name r ≡ some d
      → Memᴰ d (values r)
  unfolding find
  find-Memᴰ name d [] h = absurd (cc)
  find-Memᴰ name d ((j, e) ∷ r) h = elim (Bool-cases (j == name)) [
    | inl same ↦
        let found : some e ≡ some d = (rw same at h) in
        let e_eq : e ≡ d = cc in subst (λ x. Memᴰ x (e ∷ values r)) e_eq (Memᴰ.head refl)
    | inr other ↦ Memᴰ.tail (find-Memᴰ name d r (rw other at h))
  ]

  -- Registered in any number, with names repeated or not: `Lookup` gives the last definition with the name,
  -- or none. `List` is in the order of the names, no name twice; each definition that it holds is the
  -- one that `Lookup` gives for its name, and it holds each definition that `Lookup` gives.
  pub registry_lem :
      (defs : List (Definition W J)) (name : String)
      → let r = register_all defs new_registry in
        (lookup name r ≡ last_named name defs)
        × IsSorted name_before (list_definitions r)
        × AllPairs (λ d e. d.name ≢ e.name) (list_definitions r)
        × All (λ d. lookup d.name r ≡ some d) (list_definitions r)
        × ((d : Definition W J) → lookup name r ≡ some d → Memᴰ d (list_definitions r))
  unfolding new_registry lookup list_definitions or_last find
  registry_lem defs name =
      let r = register_all defs new_registry in
      let keyed = register_all-KeyedBy defs new_registry (tt, tt) in
      let same = Permᴰ.symm (sort-perm name_before (values r)) in
      (
        register_all-find name defs new_registry ∙ or_last_none (last_named name defs),
        sort-IsSorted name_before name_before-order (values r),
        AllPairs-perm (λ d e. d.name ≢ e.name) (λ d e n q. n (sym q)) same
            (values_distinct name_of r keyed),
        All-perm (λ d. lookup d.name r ≡ some d) same (values_found name_of r keyed),
        λ d h. Memᴰ-perm same (find-Memᴰ name d r h),
      )
    where
      or_last_none : (o : Option (Definition W J)) → or_last o none ≡ o
      or_last_none none = refl
      or_last_none (some d) = refl
