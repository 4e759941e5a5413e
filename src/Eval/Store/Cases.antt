-- ===== src/Eval/Store/Cases.antt =====
-- internal/eval/memory_store.go: the evaluation cases of the store.
use opspilot_go_dev_kit.Prelude.{
  String, Bool, ◌||◌, not, Option, none, some, List, Result, ok, err, ◌==◌, if◌then◌else◌, differs,
  or_else, false, eqb, ltb, str_lt, keep,
}
use opspilot_go_dev_kit.Prelude.Dict.{find, put, values}
use opspilot_go_dev_kit.Prelude.Sorting.{sort}
use opspilot_go_dev_kit.Prelude.Paging.{Page}
use opspilot_go_dev_kit.Eval.Types.{EvalCase, EvalError, case_not_found, case_exists, ListFilter}
use opspilot_go_dev_kit.Eval.Store.{Store, cut_page}

-- `existingID, ok := s.bySourceCase[item.SourceCaseID]; ok && existingID != item.ID`
abbrev pub is_taken : Option String → String → Bool
is_taken none id = false
is_taken (some existing_id) id = not (existing_id == id)

unfoldable pub save : EvalCase → Store → Result EvalError EvalCase × Store
save item s =
    if is_taken (find item.source_case_id s.by_source_case) item.id
    then (err (case_exists item.source_case_id), s)
    else (
      ok item,
      record s {
        by_id = put item.id item s.by_id;
        by_source_case = put item.source_case_id item.id s.by_source_case;
      },
    )

unfoldable pub get : String → Store → Result EvalError EvalCase
get id s = elim (find id s.by_id) [ none ↦ err (case_not_found id) | some item ↦ ok item ]

-- The zero value of the struct, which `s.byID[evalCaseID]` is where the id is missing.
abbrev pub zero_case : EvalCase
zero_case = record {
  id = "";
  tenant_id = "";
  source_case_id = "";
  source_task_id = "";
  source_report_id = "";
  follow_up_case_count = 0;
  open_follow_up_case_count = 0;
  latest_follow_up_case_id = "";
  latest_follow_up_case_status = "";
  trace_id = "";
  version_id = "";
  title = "";
  summary = "";
  operator_note = "";
  created_by = "";
  created_at = 0;
}

unfoldable pub get_by_source_case : String → Store → Result EvalError EvalCase
get_by_source_case source_case_id s = elim (find source_case_id s.by_source_case) [
  | none ↦ err (case_not_found source_case_id)
  | some id ↦ ok (or_else (find id s.by_id) zero_case)
]

-- The `continue` guards of `List`.
unfoldable pub skips : ListFilter → EvalCase → Bool
skips f item =
    differs f.tenant_id item.tenant_id
    || differs f.source_case_id item.source_case_id
    || differs f.source_task_id item.source_task_id
    || differs f.source_report_id item.source_report_id
    || differs f.version_id item.version_id

-- `List` shows the newest first.
unfoldable pub is_newer : EvalCase → EvalCase → Bool
is_newer a b =
    if eqb a.created_at b.created_at then str_lt b.id a.id else ltb b.created_at a.created_at

-- The rows of `List` before the page is cut.
unfoldable pub listed : ListFilter → Store → List EvalCase
unfolding skips is_newer
listed f s = sort is_newer (keep (λ item. not (skips f item)) (values s.by_id))

unfoldable pub list : ListFilter → Store → Option (Page EvalCase)
unfolding listed cut_page
list f s = cut_page (listed f s) f.limit f.offset
