-- ===== src/Eval/Lifecycle/Published.antt =====
-- The datasets after any calls of the services (internal/eval): their items, and what publishing means.
use opspilot_go_dev_kit.Prelude.{
  ℕ, String, ◌≡◌, ◌≢◌, inl, inr, refl, sym, ap, ◌∙◌, subst, Option, none, some, [], ◌==◌,
  Bool-cases, Option-cases, Result, ok, err, AllPairs, eq_of_str_eq,
}
use opspilot_go_dev_kit.Prelude.Clock.{next_uint64}
use opspilot_go_dev_kit.Prelude.Ids.{number_of}
use opspilot_go_dev_kit.Prelude.Dict.{Dict, find, find-put_ne, find_key}
use opspilot_go_dev_kit.Eval.Types.{
  EvalCase, EvalDataset, EvalError, Item, dataset_status_draft, dataset_status_published,
  dataset_not_found,
}
use opspilot_go_dev_kit.Eval.Store.{Store, new_store}
use opspilot_go_dev_kit.Eval.Store.Cases as StoredCases
use opspilot_go_dev_kit.Eval.Store.Cases.{is_taken}
use opspilot_go_dev_kit.Eval.Store.Datasets as StoredSets
use opspilot_go_dev_kit.Eval.Store.Datasets.{has_item}
use opspilot_go_dev_kit.Eval.Services.{Evals, new_evals}
use opspilot_go_dev_kit.Eval.Services.Datasets.{get_dataset}
use opspilot_go_dev_kit.Eval.Lifecycle.{Step, Reach, started, then_step}
use opspilot_go_dev_kit.Eval.Lifecycle.Readers.{Reader}
use opspilot_go_dev_kit.Eval.Store.Reports.{save_eval_report}
use opspilot_go_dev_kit.Eval.Lifecycle.Writes.{step-Write}
use opspilot_go_dev_kit.Eval.Lifecycle.Kinds.{
  Write, unchanged, case_saved, dataset_made, item_pushed, dataset_frozen, run_made, runs_claimed,
  run_succeeded, run_failed, run_retried, report_saved,
}
use opspilot_go_dev_kit.Eval.Lifecycle.Members.{Differ, Answers, dataset_items_distinct}
use opspilot_go_dev_kit.Eval.Lifecycle.Stocked.{
  Stocked, IsStocked, written-Stocked, saved-Stocked, pushed-Stocked, frozen-Stocked,
  claimed-SameSets, created-SameSets, marked_succeeded-SameSets, marked_failed-SameSets,
  retried-SameSets,
}

-- A reader of cases that are kept under their ids gives for an id the case with that id.
Reader-Answers :
    (s : Store) (get : String → Result EvalError EvalCase) → Stocked s → Reader s get → Answers get
Reader-Answers s get v r id c e =
    let (d, (f, same)) = r id c e in same ∙ find_key (λ c. c.id) id d s.by_id v.cases_keyed.0 f

same-Stocked :
    (s : Store) {datasets : Dict EvalDataset} {by_id : Dict EvalCase}
    → (datasets ≡ s.datasets) × (by_id ≡ s.by_id)
    → Stocked s
    → IsStocked datasets by_id
same-Stocked s {datasets} {by_id} h v =
    subst (λ cases. IsStocked datasets cases) (sym h.1)
      (subst (λ sets. IsStocked sets s.by_id) (sym h.0) v)

Write-Stocked : {n : ℕ} {s s' : Store} → Write n s s' → Stocked s → Stocked s'
unfolding StoredSets.create_dataset save_eval_report
Write-Stocked unchanged v = v
Write-Stocked (case_saved {s} item) v = saved-Stocked item s v
Write-Stocked (dataset_made {s} get item ids r f d m) v =
    written-Stocked item.id item s refl
      (dataset_items_distinct get (Reader-Answers s get v r) item.tenant_id [] ids item.items f).0 v
Write-Stocked (item_pushed {s} id dataset item now e d) v = pushed-Stocked dataset.id item now s v
Write-Stocked (dataset_frozen {s} id by now) v = frozen-Stocked id by now s v
Write-Stocked (run_made {s} run items q) v = same-Stocked s (created-SameSets run items s) v
Write-Stocked (runs_claimed {s} limit now) v = same-Stocked s (claimed-SameSets limit now s) v
Write-Stocked (run_succeeded {s} id now results) v =
    same-Stocked s (marked_succeeded-SameSets id now results s) v
Write-Stocked (run_failed {s} id reason now results) v =
    same-Stocked s (marked_failed-SameSets id reason now results s) v
Write-Stocked (run_retried {s} id now) v = same-Stocked s (retried-SameSets id now s) v
Write-Stocked (report_saved item) v = v

Reach-Stocked : {s : Evals} → Reach s → Stocked s.store
unfolding new_evals new_store find
Reach-Stocked started = record {
  keyed = (tt, tt);
  cases_keyed = (tt, tt);
  distinct = λ id d e. absurd cc;
}
Reach-Stocked (then_step r w) = Write-Stocked (step-Write w) (Reach-Stocked r)

abbrev dataset_in : Result EvalError EvalDataset → Option EvalDataset
dataset_in (ok d) = some d
dataset_in (err _) = none

get_dataset-find :
    (id : String) (s : Evals) (d : EvalDataset)
    → get_dataset id s ≡ ok d
    → find id s.store.datasets ≡ some d
unfolding get_dataset StoredSets.get_dataset
get_dataset-find id s d e = elim (Option-cases (find id s.store.datasets)) [
  | inl f ↦
      let impossible : err (dataset_not_found id) ≡ ok d =
        (rw (get_dataset, StoredSets.get_dataset, f) at e) in
      absurd cc
  | inr (c, f) ↦
      let found : ok c ≡ ok d = (rw (get_dataset, StoredSets.get_dataset, f) at e) in
      f ∙ ap dataset_in found
]

-- After any calls of the services from their start, the items of a dataset that `GetDataset` returns are of
-- different evaluation cases.
pub get_dataset-Differ :
    {s : Evals} (r : Reach s) (id : String) (d : EvalDataset)
    → get_dataset id s ≡ ok d
    → AllPairs Differ d.items
get_dataset-Differ {s} r id d e = (Reach-Stocked r).distinct id d (get_dataset-find id s d e)

abbrev status_in : Option EvalDataset → String
status_in none = ""
status_in (some d) = d.status

-- A draft stands under another id than a published dataset.
draft_elsewhere :
    (id j : String) (d c : EvalDataset) (s : Store)
    → d.status ≡ dataset_status_published
    → c.status ≡ dataset_status_draft
    → find id s.datasets ≡ some d
    → find j s.datasets ≡ some c
    → j ≢ id
draft_elsewhere id j d c s p q f g e =
    let same : some c ≡ some d = sym g ∙ (ap (λ i. find i s.datasets) e ∙ f) in
    let clash : "draft" ≡ "published" = sym q ∙ (ap status_in same ∙ p) in differ clash
  where
    differ : ◌≢◌ {A = String} "draft" "published"
    differ e = cc

-- A dataset that is published is found as it is after a write, unless the write makes a dataset with the
-- same number in its id.
frozen-pushed :
    (id : String) (d dataset : EvalDataset) (item : Item) (now : ℕ) (s : Store)
    → dataset.id ≢ id
    → find id s.datasets ≡ some d
    → find id (StoredSets.add_dataset_item dataset.id item now s).1.datasets ≡ some d
unfolding StoredSets.add_dataset_item
frozen-pushed id d dataset item now s n f = elim (Option-cases (find dataset.id s.datasets)) [
  | inl e ↦ rw (e, StoredSets.add_dataset_item) f
  | inr (c, e) ↦ elim (Bool-cases (has_item item.eval_case_id c.items)) [
    | inl t ↦ rw (e, StoredSets.add_dataset_item, t) f
    | inr t ↦ rw (e, StoredSets.add_dataset_item, t) (find-put_ne dataset.id id _ s.datasets n ∙ f)
  ]
]

frozen-frozen :
    (id j by : String) (d : EvalDataset) (now : ℕ) (s : Store)
    → d.status ≡ dataset_status_published
    → find id s.datasets ≡ some d
    → find id (StoredSets.publish_dataset j by now s).1.datasets ≡ some d
unfolding StoredSets.publish_dataset
frozen-frozen id j by d now s p f = elim (Option-cases (find j s.datasets)) [
  | inl e ↦ rw (e, StoredSets.publish_dataset) f
  | inr (c, e) ↦ elim (Bool-cases (c.status == dataset_status_draft)) [
    | inr t ↦ rw (e, StoredSets.publish_dataset, t) f
    | inl t ↦
        rw (e, StoredSets.publish_dataset, t)
          (find-put_ne j id _ s.datasets (draft_elsewhere id j d c s p (eq_of_str_eq t) f e) ∙ f)
  ]
]

saved_datasets : (item : EvalCase) (s : Store) → (StoredCases.save item s).1.datasets ≡ s.datasets
unfolding StoredCases.save
saved_datasets item s =
    elim (Bool-cases (is_taken (find item.source_case_id s.by_source_case) item.id)) [
      | inl t ↦ rw (t, StoredCases.save)
      | inr t ↦ rw (t, StoredCases.save)
    ]

Write-published :
    {n : ℕ} {s s' : Store} (id : String) (d : EvalDataset)
    → Write n s s'
    → Stocked s
    → number_of id ≢ n
    → d.status ≡ dataset_status_published
    → find id s.datasets ≡ some d
    → find id s'.datasets ≡ some d
unfolding StoredSets.create_dataset save_eval_report
Write-published id d unchanged v k p f = f
Write-published id d (case_saved {s} item) v k p f = ap (find id) (saved_datasets item s) ∙ f
Write-published id d (dataset_made {s} get item ids r g q m) v k p f =
    find-put_ne item.id id item s.datasets (λ e. k (sym (ap number_of e) ∙ m)) ∙ f
Write-published id d (item_pushed {s} j dataset item now e q) v k p f =
    let key = find_key (λ c. c.id) j dataset s.datasets v.keyed.0 e in
    frozen-pushed id d dataset item now s
      (λ g. draft_elsewhere id j d dataset s p q f e (sym key ∙ g)) f
Write-published id d (dataset_frozen {s} j by now) v k p f = frozen-frozen id j by d now s p f
Write-published id d (run_made {s} run items q) v k p f =
    ap (find id) (created-SameSets run items s).0 ∙ f
Write-published id d (runs_claimed {s} limit now) v k p f =
    ap (find id) (claimed-SameSets limit now s).0 ∙ f
Write-published id d (run_succeeded {s} j now results) v k p f =
    ap (find id) (marked_succeeded-SameSets j now results s).0 ∙ f
Write-published id d (run_failed {s} j reason now results) v k p f =
    ap (find id) (marked_failed-SameSets j reason now results s).0 ∙ f
Write-published id d (run_retried {s} j now) v k p f = ap (find id) (retried-SameSets j now s).0 ∙ f
Write-published id d (report_saved item) v k p f = f

-- No call of the services changes a dataset that is published, in any state that calls from their start
-- reach: `GetDataset` returns it as before. The number that the next dataset's id takes must not be the
-- one in the id of this dataset, as the counter of the ids promises until it wraps around.
pub published_stays :
    {s s' : Evals} (r : Reach s) (w : Step s s') (id : String) (d : EvalDataset)
    → get_dataset id s ≡ ok d
    → d.status ≡ dataset_status_published
    → number_of id ≢ next_uint64 s.eval_dataset_id_sequence
    → get_dataset id s' ≡ ok d
unfolding get_dataset StoredSets.get_dataset
published_stays {s} {s'} r w id d e p n =
    let found : find id s'.store.datasets ≡ some d =
      Write-published id d (step-Write w) (Reach-Stocked r) n p (get_dataset-find id s d e) in
    rw (get_dataset, StoredSets.get_dataset, found)
