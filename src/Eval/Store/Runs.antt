-- ===== src/Eval/Store/Runs.antt =====
-- internal/eval/memory_store.go: the runs of the store, with their events, items and results.
use opspilot_go_dev_kit.Prelude.{
  ℕ, ◌-◌, String, Bool, ◌||◌, not, Option, none, some, List, [], ◌∷◌, ◌++◌, Result, ok, err, ◌==◌,
  if◌then◌else◌, differs, eqb, ltb, str_lt, keep, map, length, or_else, is_some,
}
use opspilot_go_dev_kit.Prelude.Clock.{next_uint64}
use opspilot_go_dev_kit.Prelude.Dict.{Dict, find, put, values}
use opspilot_go_dev_kit.Prelude.Sorting.{sort}
use opspilot_go_dev_kit.Prelude.Paging.{Page}
use opspilot_go_dev_kit.Eval.Types.{
  EvalRun, RunEvent, RunDetail, RunResultSummary, RunListFilter, Item, ItemResult, EvalError,
  run_not_found, run_event_created, item_result_succeeded, item_result_failed,
}
use opspilot_go_dev_kit.Eval.Store.{Store, cut_page}

-- A read of a map of slices: nil where the key is missing.
abbrev pub slice_of {ℓ} : {A : Type ℓ} → String → Dict (List A) → List A
slice_of id m = or_else (find id m) []

-- `delete(m, k)`
unfoldable pub delete {ℓ} : {V : Type ℓ} → String → Dict V → Dict V
delete k [] = []
delete k ((j, v) ∷ m) = let rest = delete k m in if j == k then rest else (j, v) ∷ rest

-- The counter is an int64, read here as its 64 bits.
unfoldable pub append_run_event_locked : RunEvent → Store → Store
append_run_event_locked event s =
    let n = next_uint64 s.next_run_event in
    record s {
      next_run_event = n;
      run_events =
          put event.run_id (slice_of event.run_id s.run_events ++ record event { id = n } ∷ [])
            s.run_events;
    }

-- An event before it has its id.
abbrev pub event_of : EvalRun → String → String → String → ℕ → RunEvent
event_of item action actor detail at = record {
  id = 0;
  run_id = item.id;
  action = action;
  actor = actor;
  detail = detail;
  created_at = at;
}

unfoldable pub create_run : EvalRun → List Item → Store → Result EvalError EvalRun × Store
unfolding append_run_event_locked
create_run item items s = (
  ok item,
  append_run_event_locked
      (event_of item run_event_created item.created_by item.status item.created_at)
      (record s { runs = put item.id item s.runs; run_items = put item.id items s.run_items }),
)

abbrev pub count_status : String → List ItemResult → ℕ
count_status status results = length (keep (λ r. r.status == status) results)

-- None is nil.
unfoldable pub summarize_run_results_for_total : ℕ → List ItemResult → Option RunResultSummary
summarize_run_results_for_total total_items [] = none
summarize_run_results_for_total total_items (r ∷ rs) =
    let recorded = length (r ∷ rs) in
    let total = if eqb total_items 0 then recorded else total_items in
    some (record {
      total_items = total;
      recorded_results = recorded;
      succeeded_items = count_status item_result_succeeded (r ∷ rs);
      failed_items = count_status item_result_failed (r ∷ rs);
      missing_results = if ltb recorded total then total - recorded else 0;
    })

unfoldable pub with_run_result_summary : EvalRun → List ItemResult → EvalRun
unfolding summarize_run_results_for_total
with_run_result_summary item results = record item {
  result_summary = summarize_run_results_for_total item.dataset_item_count results;
}

unfoldable pub get_run : String → Store → Result EvalError EvalRun
unfolding with_run_result_summary
get_run id s = elim (find id s.runs) [
  | none ↦ err (run_not_found id)
  | some item ↦ ok (with_run_result_summary item (slice_of id s.run_item_results))
]

unfoldable pub get_run_detail : String → Store → Result EvalError RunDetail
unfolding with_run_result_summary
get_run_detail id s = elim (find id s.runs) [
  | none ↦ err (run_not_found id)
  | some item ↦
      let results = slice_of id s.run_item_results in
      ok (record {
        run = with_run_result_summary item results;
        events = slice_of id s.run_events;
        items = slice_of id s.run_items;
        item_results = results;
      })
]

-- The `continue` guards of `ListRuns`.
unfoldable pub skips : RunListFilter → EvalRun → Bool
skips f item =
    differs f.tenant_id item.tenant_id
    || differs f.dataset_id item.dataset_id
    || differs f.status item.status

unfoldable pub is_newer : EvalRun → EvalRun → Bool
is_newer a b =
    if eqb a.updated_at b.updated_at then str_lt b.id a.id else ltb b.updated_at a.updated_at

unfoldable pub list_runs : RunListFilter → Store → Option (Page EvalRun)
unfolding skips is_newer cut_page with_run_result_summary
list_runs f s =
    cut_page
      (sort is_newer (
        map (λ item. with_run_result_summary item (slice_of item.id s.run_item_results))
          (keep (λ item. not (skips f item)) (values s.runs))))
      f.limit f.offset

unfoldable pub list_run_events : String → Store → Result EvalError (List RunEvent)
list_run_events id s =
    if is_some (find id s.runs) then ok (slice_of id s.run_events) else err (run_not_found id)

unfoldable pub update_run : EvalRun → Store → Result EvalError EvalRun × Store
update_run item s =
    if is_some (find item.id s.runs)
    then (ok item, record s { runs = put item.id item s.runs })
    else (err (run_not_found item.id), s)
