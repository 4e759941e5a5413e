-- ===== src/Eval/Store/Datasets.antt =====
-- internal/eval/memory_store.go: the datasets of the store.
use opspilot_go_dev_kit.Prelude.{
  ℕ, String, Bool, ◌||◌, not, Option, none, some, List, [], ◌∷◌, ◌++◌, Result, ok, err, ◌==◌,
  if◌then◌else◌, differs, eqb, ltb, str_lt, keep, any, map, length,
}
use opspilot_go_dev_kit.Prelude.Dict.{find, put, values}
use opspilot_go_dev_kit.Prelude.Sorting.{sort}
use opspilot_go_dev_kit.Prelude.Paging.{Page}
use opspilot_go_dev_kit.Eval.Types.{
  EvalDataset, Item, DatasetSummary, DatasetListFilter, EvalError, dataset_not_found,
  invalid_dataset_state, dataset_status_draft, dataset_status_published,
}
use opspilot_go_dev_kit.Eval.Store.{Store, cut_page}

abbrev pub set_dataset : String → EvalDataset → Store → Store
set_dataset id item s = record s { datasets = put id item s.datasets }

unfoldable pub create_dataset : EvalDataset → Store → Result EvalError EvalDataset × Store
create_dataset item s = (ok item, set_dataset item.id item s)

unfoldable pub get_dataset : String → Store → Result EvalError EvalDataset
get_dataset id s = elim (find id s.datasets) [
  | none ↦ err (dataset_not_found id)
  | some item ↦ ok item
]

unfoldable pub summary_of : EvalDataset → DatasetSummary
summary_of item = record {
  id = item.id;
  tenant_id = item.tenant_id;
  name = item.name;
  status = item.status;
  created_by = item.created_by;
  created_at = item.created_at;
  updated_at = item.updated_at;
  item_count = length item.items;
}

-- The `continue` guards of `ListDatasets`.
unfoldable pub skips : DatasetListFilter → EvalDataset → Bool
skips f item =
    differs f.tenant_id item.tenant_id
    || differs f.status item.status
    || differs f.created_by item.created_by

unfoldable pub is_newer : DatasetSummary → DatasetSummary → Bool
is_newer a b =
    if eqb a.updated_at b.updated_at then str_lt b.id a.id else ltb b.updated_at a.updated_at

unfoldable pub list_datasets : DatasetListFilter → Store → Option (Page DatasetSummary)
unfolding skips is_newer cut_page summary_of
list_datasets f s =
    cut_page
      (sort is_newer (map summary_of (keep (λ item. not (skips f item)) (values s.datasets))))
      f.limit f.offset

-- The loop over the items with its early return.
abbrev pub has_item : String → List Item → Bool
has_item eval_case_id items = any (λ existing. existing.eval_case_id == eval_case_id) items

unfoldable pub with_item : Item → ℕ → EvalDataset → EvalDataset
with_item item updated_at dataset = record dataset {
  items = dataset.items ++ item ∷ [];
  updated_at = updated_at;
}

unfoldable pub add_dataset_item : String → Item → ℕ → Store → Result EvalError EvalDataset × Store
unfolding with_item
add_dataset_item id item updated_at s = elim (find id s.datasets) [
  | none ↦ (err (dataset_not_found id), s)
  | some dataset ↦
      if has_item item.eval_case_id dataset.items
      then (ok dataset, s)
      else (let grown = with_item item updated_at dataset in (ok grown, set_dataset id grown s))
]

unfoldable pub published : String → ℕ → EvalDataset → EvalDataset
published by at dataset = record dataset {
  status = dataset_status_published;
  published_by = by;
  published_at = at;
  updated_at = at;
}

unfoldable pub publish_dataset : String → String → ℕ → Store → Result EvalError EvalDataset × Store
unfolding published
publish_dataset id by at s = elim (find id s.datasets) [
  | none ↦ (err (dataset_not_found id), s)
  | some dataset ↦
      if dataset.status == dataset_status_draft
      then (let frozen = published by at dataset in (ok frozen, set_dataset id frozen s))
      else (err invalid_dataset_state, s)
]
