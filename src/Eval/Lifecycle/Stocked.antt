-- ===== src/Eval/Lifecycle/Stocked.antt =====
-- The datasets of the store, write by write (internal/eval/memory_store.go).
use opspilot_go_dev_kit.Prelude.{
  ℕ, String, ◌≡◌, ◌≢◌, inl, inr, refl, subst, true, false, Option, none, some, List, [], ◌∷◌, ◌==◌,
  Bool-cases, Option-cases, All, AllPairs, AllPairs-snoc, str-ne_of_false,
}
use opspilot_go_dev_kit.Prelude.Dict.{Dict, find, put, KeyedBy, find-put, find_key, put-KeyedBy}
use opspilot_go_dev_kit.Eval.Types.{EvalCase, EvalDataset, Item, dataset_status_draft}
use opspilot_go_dev_kit.Eval.Store.{Store}
use opspilot_go_dev_kit.Eval.Store.Cases as StoredCases
use opspilot_go_dev_kit.Eval.Store.Cases.{is_taken}
use opspilot_go_dev_kit.Eval.Store.Datasets as StoredSets
use opspilot_go_dev_kit.Eval.Store.Datasets.{has_item}
use opspilot_go_dev_kit.Eval.Types.{EvalRun, ItemResult, run_status_running, run_status_failed}
use opspilot_go_dev_kit.Eval.Store.Runs as StoredRuns
use opspilot_go_dev_kit.Eval.Store.Claims.{
  claim_run, claim_each, claimed, claim_queued_runs, queued_runs, retry_run, mark_run_succeeded,
  mark_run_failed,
}
use opspilot_go_dev_kit.Prelude.{take}
use opspilot_go_dev_kit.Eval.Lifecycle.Members.{Differ}

abbrev AllDistinct : Dict EvalDataset → Type 0
AllDistinct datasets =
    (id : String) (d : EvalDataset) → find id datasets ≡ some d → AllPairs Differ d.items

pub record IsStocked (datasets : Dict EvalDataset) (by_id : Dict EvalCase) : Type 0 where
  pub keyed : KeyedBy (λ d. d.id) datasets
  pub cases_keyed : KeyedBy (λ c. c.id) by_id
  pub distinct : AllDistinct datasets

abbrev pub Stocked : Store → Type 0
Stocked s = IsStocked s.datasets s.by_id

put-AllDistinct :
    (id : String) (d : EvalDataset) (datasets : Dict EvalDataset)
    → AllPairs Differ d.items
    → AllDistinct datasets
    → AllDistinct (put id d datasets)
put-AllDistinct id d datasets p h j c e = elim (Bool-cases (id == j)) [
  | inl same ↦
      let found : some d ≡ some c = (rw (find-put, same) at e) in
      subst (λ o. AllPairs Differ (items_of o)) found p
  | inr other ↦ h j c (rw (find-put, other) at e)
]
  where
    items_of : Option EvalDataset → List Item
    items_of none = []
    items_of (some d) = d.items

pub written-Stocked :
    (id : String) (d : EvalDataset) (s : Store)
    → d.id ≡ id
    → AllPairs Differ d.items
    → Stocked s
    → IsStocked (put id d s.datasets) s.by_id
written-Stocked id d s k p v = record {
  keyed =
      subst (λ i. KeyedBy (λ d. d.id) (put i d s.datasets)) k
        (put-KeyedBy (λ d. d.id) d s.datasets v.keyed);
  cases_keyed = v.cases_keyed;
  distinct = put-AllDistinct id d s.datasets p v.distinct;
}

no_item :
    (id : String) (items : List Item)
    → has_item id items ≡ false
    → All (λ i. i.eval_case_id ≢ id) items
no_item id [] h = tt
no_item id (i ∷ items) h = elim (Bool-cases (i.eval_case_id == id)) [
  | inl e ↦ let impossible : true ≡ false = (rw e at h) in absurd cc
  | inr e ↦ (str-ne_of_false e, no_item id items (rw e at h))
]

pub pushed-Stocked :
    (id : String) (item : Item) (now : ℕ) (s : Store)
    → Stocked s
    → Stocked (StoredSets.add_dataset_item id item now s).1
unfolding StoredSets.add_dataset_item StoredSets.with_item
pushed-Stocked id item now s v = elim (Option-cases (find id s.datasets)) [
  | inl e ↦ rw (e, StoredSets.add_dataset_item) v
  | inr (d, e) ↦ elim (Bool-cases (has_item item.eval_case_id d.items)) [
    | inl t ↦ rw (e, StoredSets.add_dataset_item, t) v
    | inr t ↦
        rw (e, StoredSets.add_dataset_item, t)
          (written-Stocked id (StoredSets.with_item item now d) s
            (find_key (λ d. d.id) id d s.datasets v.keyed.0 e)
            (AllPairs-snoc Differ d.items item (v.distinct id d e)
              (no_item item.eval_case_id d.items t))
            v)
  ]
]

pub frozen-Stocked :
    (id by : String) (now : ℕ) (s : Store)
    → Stocked s
    → Stocked (StoredSets.publish_dataset id by now s).1
unfolding StoredSets.publish_dataset StoredSets.published
frozen-Stocked id by now s v = elim (Option-cases (find id s.datasets)) [
  | inl e ↦ rw (e, StoredSets.publish_dataset) v
  | inr (d, e) ↦ elim (Bool-cases (d.status == dataset_status_draft)) [
    | inr t ↦ rw (e, StoredSets.publish_dataset, t) v
    | inl t ↦
        rw (e, StoredSets.publish_dataset, t)
          (written-Stocked id (StoredSets.published by now d) s
            (find_key (λ d. d.id) id d s.datasets v.keyed.0 e) (v.distinct id d e) v)
  ]
]

pub saved-Stocked : (item : EvalCase) (s : Store) → Stocked s → Stocked (StoredCases.save item s).1
unfolding StoredCases.save
saved-Stocked item s v =
    elim (Bool-cases (is_taken (find item.source_case_id s.by_source_case) item.id)) [
      | inl t ↦ rw (t, StoredCases.save) v
      | inr t ↦
          rw (t, StoredCases.save)
            (record {
              keyed = v.keyed;
              cases_keyed = put-KeyedBy (λ c. c.id) item s.by_id v.cases_keyed;
              distinct = v.distinct;
            })
    ]

-- The changes of runs leave the datasets and the cases alone.
abbrev pub SameSets : Store → Store → Type 0
SameSets s s' = (s'.datasets ≡ s.datasets) × (s'.by_id ≡ s.by_id)

pub claim_each-SameSets :
    (now : ℕ) (runs : List EvalRun) (s : Store) → SameSets s (claim_each now runs s).1
unfolding claim_each claim_run claimed StoredRuns.append_run_event_locked
claim_each-SameSets now [] s = (refl, refl)
claim_each-SameSets now (run ∷ runs) s = claim_each-SameSets now runs (claim_run now run s)

pub marked_succeeded-SameSets :
    (id : String) (now : ℕ) (results : List ItemResult) (s : Store)
    → SameSets s (mark_run_succeeded id now results s).1
unfolding mark_run_succeeded StoredRuns.append_run_event_locked
marked_succeeded-SameSets id now results s = elim (Option-cases (find id s.runs)) [
  | inl e ↦ rw (e, mark_run_succeeded) (refl, refl)
  | inr (run, e) ↦ elim (Bool-cases (run.status == run_status_running)) [
    | inl t ↦ rw (e, mark_run_succeeded, t) (refl, refl)
    | inr t ↦ rw (e, mark_run_succeeded, t) (refl, refl)
  ]
]

pub marked_failed-SameSets :
    (id reason : String) (now : ℕ) (results : List ItemResult) (s : Store)
    → SameSets s (mark_run_failed id reason now results s).1
unfolding mark_run_failed StoredRuns.append_run_event_locked
marked_failed-SameSets id reason now results s = elim (Option-cases (find id s.runs)) [
  | inl e ↦ rw (e, mark_run_failed) (refl, refl)
  | inr (run, e) ↦ elim (Bool-cases (run.status == run_status_running)) [
    | inl t ↦ rw (e, mark_run_failed, t) (refl, refl)
    | inr t ↦ rw (e, mark_run_failed, t) (refl, refl)
  ]
]

pub retried-SameSets : (id : String) (now : ℕ) (s : Store) → SameSets s (retry_run id now s).1
unfolding retry_run StoredRuns.append_run_event_locked
retried-SameSets id now s = elim (Option-cases (find id s.runs)) [
  | inl e ↦ rw (e, retry_run) (refl, refl)
  | inr (run, e) ↦ elim (Bool-cases (run.status == run_status_failed)) [
    | inl t ↦ rw (e, retry_run, t) (refl, refl)
    | inr t ↦ rw (e, retry_run, t) (refl, refl)
  ]
]

pub created-SameSets :
    (run : EvalRun) (items : List Item) (s : Store)
    → SameSets s (StoredRuns.create_run run items s).1
unfolding StoredRuns.create_run StoredRuns.append_run_event_locked
created-SameSets run items s = (refl, refl)

pub claimed-SameSets : (limit now : ℕ) (s : Store) → SameSets s (claim_queued_runs limit now s).1
unfolding claim_queued_runs
claimed-SameSets limit now s = claim_each-SameSets now (take limit (queued_runs s)) s
