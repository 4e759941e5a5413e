-- ===== src/Eval/Lifecycle/Members.antt =====
-- The items of the datasets after any calls of the services (internal/eval/dataset_service.go and
-- memory_store.go).
use opspilot_go_dev_kit.Prelude.{
  String, ◌≡◌, ◌≢◌, ◌||◌, inl, inr, sym, ap, ◌∙◌, subst, Bool, true, false, List, [], ◌∷◌, ◌==◌,
  Bool-cases, Result, Result-cases, ok, err, All, AllPairs, arith, str-ne_of_false,
}
use opspilot_go_dev_kit.Prelude.Strings.{trim_space}
use opspilot_go_dev_kit.Eval.Types.{EvalCase, EvalError, Item, invalid_dataset}
use opspilot_go_dev_kit.Eval.Services.Datasets.{dataset_items, dataset_item, is_seen, item_of}

abbrev pub Differ : Item → Item → Type 0
Differ i j = i.eval_case_id ≢ j.eval_case_id

-- The reader gives for an id the case with that id.
abbrev pub Answers : (String → Result EvalError EvalCase) → Type 0
Answers get = (id : String) (c : EvalCase) → get id ≡ ok c → c.id ≡ id

abbrev item_id_in : Result EvalError Item → String
item_id_in (ok item) = item.eval_case_id
item_id_in (err _) = ""

abbrev items_in : Result EvalError (List Item) → List Item
items_in (ok items) = items
items_in (err _) = []

-- The items are of different cases, and of none that has been seen.
abbrev pub FreshIn : List String → List Item → Type 0
FreshIn seen items = AllPairs Differ items × All (λ i. is_seen i.eval_case_id seen ≡ false) items

not_seen :
    (id : String) (seen : List String) (i : Item)
    → is_seen i.eval_case_id (id ∷ seen) ≡ false
    → (id ≢ i.eval_case_id) × (is_seen i.eval_case_id seen ≡ false)
not_seen id seen i h = elim (Bool-cases (id == i.eval_case_id)) [
  | inl e ↦ let impossible : true ≡ false = (rw e at h) in absurd cc
  | inr e ↦ (str-ne_of_false e, (rw e at h))
]

All-not_seen :
    (id : String) (seen : List String) (items : List Item)
    → All (λ i. is_seen i.eval_case_id (id ∷ seen) ≡ false) items
    → All (λ i. id ≢ i.eval_case_id) items × All (λ i. is_seen i.eval_case_id seen ≡ false) items
All-not_seen id seen [] h = (tt, tt)
All-not_seen id seen (i ∷ items) h =
    let (n, s) = not_seen id seen i h.0 in
    let (ns, ss) = All-not_seen id seen items h.1 in ((n, ns), (s, ss))

cons-FreshIn :
    (id : String) (seen : List String) (item : Item) (rest : List Item)
    → item.eval_case_id ≡ id
    → is_seen id seen ≡ false
    → FreshIn (id ∷ seen) rest
    → FreshIn seen (item ∷ rest)
cons-FreshIn id seen item rest e n h =
    subst (λ j. is_seen j seen ≡ false → FreshIn (j ∷ seen) rest → FreshIn seen (item ∷ rest)) e
      (λ n h. let (ns, ss) = All-not_seen item.eval_case_id seen rest h.1 in ((ns, h.0), (n, ss))) n
      h

or_false : (a b : Bool) → (a || b) ≡ false → b ≡ false
or_false a b h = ground arith

module _ (get : String → Result EvalError EvalCase) (answers : Answers get) where
  dataset_item-id :
      (tenant_id id : String) (item : Item)
      → dataset_item get tenant_id id ≡ ok item
      → item.eval_case_id ≡ id
  dataset_item-id tenant_id id item e = elim (Result-cases (get id)) [
    | inr (x, f) ↦ let impossible : err x ≡ ok item = (rw (dataset_item, f) at e) in absurd cc
    | inl (c, f) ↦ elim (Bool-cases (c.tenant_id == tenant_id)) [
      | inr g ↦
          let impossible : err invalid_dataset ≡ ok item = (rw (dataset_item, f, g) at e) in
          absurd cc
      | inl g ↦
          let made : ok (item_of c) ≡ ok item = (rw (dataset_item, f, g) at e) in
          sym (ap item_id_in made) ∙ answers id c f
    ]
  ]

  -- The items that `CreateDataset` makes are of different cases, none of them seen before.
  pub dataset_items_distinct :
      (tenant_id : String) (seen ids : List String) (items : List Item)
      → dataset_items get tenant_id seen ids ≡ ok items
      → FreshIn seen items
  unfolding dataset_items
  dataset_items_distinct tenant_id seen [] items e = subst (FreshIn seen) (ap items_in e) (tt, tt)
  dataset_items_distinct tenant_id seen (eval_case_id ∷ ids) items e =
      let id = trim_space eval_case_id in
      elim (Bool-cases (id == "" || is_seen id seen)) [
        | inl f ↦
            let impossible : err invalid_dataset ≡ ok items = (rw (dataset_items, f) at e) in
            absurd cc
        | inr f ↦ elim (Result-cases (dataset_item get tenant_id id)) [
          | inr (x, g) ↦
              let impossible : err x ≡ ok items = (rw (dataset_items, f, g) at e) in absurd cc
          | inl (item, g) ↦ elim (Result-cases (dataset_items get tenant_id (id ∷ seen) ids)) [
            | inr (x, h) ↦
                let impossible : err x ≡ ok items = (rw (dataset_items, f, g, h) at e) in absurd cc
            | inl (rest, h) ↦
                let made : ok (item ∷ rest) ≡ ok items = (rw (dataset_items, f, g, h) at e) in
                subst (FreshIn seen) (ap items_in made) (
                  cons-FreshIn id seen item rest (dataset_item-id tenant_id id item g)
                    (or_false (id == "") (is_seen id seen) f)
                    (dataset_items_distinct tenant_id (id ∷ seen) ids rest h))
          ]
        ]
      ]
