-- ===== src/Eval/Services/Datasets.antt =====
-- internal/eval/dataset_service.go: the service of the datasets. `get_eval_case` is its reader of
-- evaluation cases.
use opspilot_go_dev_kit.Prelude.{
  ℕ, String, ◌<>◌, Bool, true, false, ◌||◌, not, Option, List, [], ◌∷◌, Result, ok, err, ◌==◌,
  if◌then◌else◌, any,
}
use opspilot_go_dev_kit.Prelude.Clock.{next_uint64}
use opspilot_go_dev_kit.Prelude.Strings.{trim_space}
use opspilot_go_dev_kit.Prelude.Paging.{Page, pos, page_limit}
use opspilot_go_dev_kit.Eval.Types.{
  EvalCase, EvalDataset, Item, DatasetSummary, DatasetListFilter, EvalError, case_missing,
  dataset_missing, invalid_dataset, invalid_dataset_state, dataset_status_draft, CreateDatasetInput,
  AddDatasetItemInput, PublishDatasetInput,
}
use opspilot_go_dev_kit.Eval.Store.{Store}
use opspilot_go_dev_kit.Eval.Store.Datasets as Stored
use opspilot_go_dev_kit.Eval.Store.Datasets.{has_item}
use opspilot_go_dev_kit.Eval.Services.{Evals, fallback_string, new_id}

abbrev pub item_of : EvalCase → Item
item_of c = record {
  eval_case_id = c.id;
  title = c.title;
  source_case_id = c.source_case_id;
  source_task_id = c.source_task_id;
  source_report_id = c.source_report_id;
  trace_id = c.trace_id;
  version_id = c.version_id;
}

abbrev pub is_blank : String → Bool
is_blank s = trim_space s == ""

abbrev pub is_seen : String → List String → Bool
is_seen id seen = any (λ other. other == id) seen

abbrev pub set_store : Evals → Store → Evals
set_store s store = record s { store = store }

-- An answer of the store, and the state with the store that it leaves.
abbrev pub on_store : Evals → {A : Type 0} → A × Store → A × Evals
on_store s (answer, store) = (answer, set_store s store)

abbrev pub dataset_name : String → List Item → String
dataset_name name [] = name
dataset_name name (item ∷ _) =
    if name == "" then "Dataset seeded from " <> item.eval_case_id else name

-- The dataset that `CreateDataset` builds.
unfoldable pub new_dataset : ℕ → String → CreateDatasetInput → List Item → EvalDataset
unfolding fallback_string
new_dataset now id input items = record {
  id = id;
  tenant_id = input.tenant_id;
  name = dataset_name (trim_space input.name) items;
  description = trim_space input.description;
  status = dataset_status_draft;
  created_by = fallback_string (trim_space input.created_by) "operator";
  created_at = now;
  updated_at = now;
  published_by = "";
  published_at = 0;
  items = items;
}

abbrev pub is_empty : List String → Bool
is_empty [] = true
is_empty (_ ∷ _) = false

module _ (get_eval_case : String → Result EvalError EvalCase) where
  -- The item for an id that is trimmed and new.
  abbrev pub dataset_item : String → String → Result EvalError Item
  dataset_item tenant_id id = elim (get_eval_case id) [
    | err e ↦ err e
    | ok item ↦ if item.tenant_id == tenant_id then ok (item_of item) else err invalid_dataset
  ]

  -- The loop over the ids, with the ids seen so far.
  unfoldable pub dataset_items : String → List String → List String → Result EvalError (List Item)
  dataset_items tenant_id seen [] = ok []
  dataset_items tenant_id seen (eval_case_id ∷ ids) =
      let id = trim_space eval_case_id in
      let rest = dataset_items tenant_id (id ∷ seen) ids in
      if id == "" || is_seen id seen
      then err invalid_dataset
      else elim (dataset_item tenant_id id) [
        | err e ↦ err e
        | ok item ↦ elim rest [ err e ↦ err e | ok items ↦ ok (item ∷ items) ]
      ]

  unfoldable pub create_dataset :
      ℕ → CreateDatasetInput → Evals → Result EvalError EvalDataset × Evals
  unfolding new_dataset dataset_items Stored.create_dataset new_id
  create_dataset now input s =
      if is_blank input.tenant_id || is_empty input.eval_case_ids
      then (err invalid_dataset, s)
      else elim (dataset_items input.tenant_id [] input.eval_case_ids) [
        | err e ↦ (err e, s)
        | ok items ↦
            let n = next_uint64 s.eval_dataset_id_sequence in
            on_store (record s { eval_dataset_id_sequence = n })
              (Stored.create_dataset (new_dataset now (new_id "eval-dataset-" now n) input items)
                s.store)
      ]

  unfoldable pub add_dataset_item :
      ℕ → String → AddDatasetItemInput → Evals → Result EvalError EvalDataset × Evals
  unfolding Stored.get_dataset Stored.add_dataset_item
  add_dataset_item now id input s =
      if is_blank input.tenant_id || is_blank input.eval_case_id
      then (err invalid_dataset, s)
      else elim (Stored.get_dataset id s.store) [
        | err e ↦ (err e, s)
        | ok dataset ↦
            if not (dataset.tenant_id == trim_space input.tenant_id)
            then (err dataset_missing, s)
            else if not (dataset.status == dataset_status_draft)
            then (err invalid_dataset_state, s)
            else elim (get_eval_case (trim_space input.eval_case_id)) [
              | err e ↦ (err e, s)
              | ok eval_case ↦
                  if not (eval_case.tenant_id == dataset.tenant_id)
                  then (err case_missing, s)
                  else if has_item eval_case.id dataset.items
                  then (ok dataset, s)
                  else on_store s
                      (Stored.add_dataset_item dataset.id (item_of eval_case) now s.store)
            ]
      ]

unfoldable pub get_dataset : String → Evals → Result EvalError EvalDataset
unfolding Stored.get_dataset
get_dataset id s = Stored.get_dataset id s.store

-- None is a panic of the store.
unfoldable pub list_datasets : DatasetListFilter → Evals → Option (Page DatasetSummary)
unfolding Stored.list_datasets
list_datasets f s = Stored.list_datasets (record f { limit = pos (page_limit f.limit) }) s.store

unfoldable pub publish_dataset :
    ℕ → String → PublishDatasetInput → Evals → Result EvalError EvalDataset × Evals
unfolding Stored.get_dataset Stored.publish_dataset fallback_string
publish_dataset now id input s =
    if is_blank input.tenant_id
    then (err invalid_dataset, s)
    else elim (Stored.get_dataset id s.store) [
      | err e ↦ (err e, s)
      | ok dataset ↦
          if not (dataset.tenant_id == trim_space input.tenant_id)
          then (err dataset_missing, s)
          else if not (dataset.status == dataset_status_draft)
          then (err invalid_dataset_state, s)
          else on_store s (
              Stored.publish_dataset dataset.id
                (fallback_string (trim_space input.published_by) "operator") now s.store)
    ]
