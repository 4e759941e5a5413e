-- ===== src/Eval/Store/Reports.antt =====
-- internal/eval/memory_store.go: the reports of the store. A slice is a value here, so the copies that
-- the code makes of the bad cases are the slices themselves.
use opspilot_go_dev_kit.Prelude.{
  String, Bool, ◌||◌, not, Option, none, some, Result, ok, err, if◌then◌else◌, differs, eqb, ltb,
  str_lt, keep,
}
use opspilot_go_dev_kit.Prelude.Dict.{find, put, values}
use opspilot_go_dev_kit.Prelude.Sorting.{sort}
use opspilot_go_dev_kit.Prelude.Paging.{Page}
use opspilot_go_dev_kit.Eval.Types.{EvalReport, ReportListFilter, EvalError, report_not_found}
use opspilot_go_dev_kit.Eval.Store.{Store, cut_page}

unfoldable pub save_eval_report : EvalReport → Store → Result EvalError EvalReport × Store
save_eval_report item s = (ok item, record s { eval_reports = put item.id item s.eval_reports })

unfoldable pub get_eval_report : String → Store → Result EvalError EvalReport
get_eval_report id s = elim (find id s.eval_reports) [
  | none ↦ err (report_not_found id)
  | some item ↦ ok item
]

-- The `continue` guards of `ListEvalReports`.
unfoldable pub skips : ReportListFilter → EvalReport → Bool
skips f item =
    differs f.report_id item.id
    || differs f.tenant_id item.tenant_id
    || differs f.dataset_id item.dataset_id
    || differs f.run_status item.run_status
    || differs f.status item.status

unfoldable pub is_newer : EvalReport → EvalReport → Bool
is_newer a b =
    if eqb a.updated_at b.updated_at then str_lt b.id a.id else ltb b.updated_at a.updated_at

unfoldable pub list_eval_reports : ReportListFilter → Store → Option (Page EvalReport)
unfolding skips is_newer cut_page
list_eval_reports f s =
    cut_page (sort is_newer (keep (λ item. not (skips f item)) (values s.eval_reports))) f.limit
      f.offset
