-- ===== src/Eval/Reports/Terminal.antt =====
-- internal/eval/report_service.go: the report of a run that has come to its end.
use opspilot_go_dev_kit.Prelude.{
  String, ◌≡◌, ◌⊎◌, inl, inr, ap, true, some, Option-cases, ok, err, ◌==◌, ◌||◌,
}
use opspilot_go_dev_kit.Prelude.Dict.{find}
use opspilot_go_dev_kit.Eval.Types.{
  EvalRun, EvalReport, RunDetail, EvalError, message, run_status_succeeded, run_status_failed,
}
use opspilot_go_dev_kit.Eval.Store.{Store}
use opspilot_go_dev_kit.Eval.Store.Runs.{get_run_detail, with_run_result_summary, slice_of}
use opspilot_go_dev_kit.Eval.Store.Reports.{save_eval_report}
use opspilot_go_dev_kit.Eval.Reports.{
  Numerics, is_terminal, summary_for, report_of, build_eval_report, materialize_run_report,
}

-- The one error that a run at its end leaves.
abbrev pub no_results : EvalError
no_results = message "eval report requires item results"

abbrev pub AtEnd : String → Type 0
AtEnd status = (status ≡ run_status_succeeded) ⊎ (status ≡ run_status_failed)

AtEnd-terminal :
    (status : String)
    → AtEnd status
    → (status == run_status_succeeded || status == run_status_failed) ≡ true
AtEnd-terminal status (inl e) = ap (λ x. x == run_status_succeeded || x == run_status_failed) e
AtEnd-terminal status (inr e) = ap (λ x. x == run_status_succeeded || x == run_status_failed) e

module _ (numerics : Numerics) where
  build_eval_report-AtEnd :
      (d : RunDetail)
      → AtEnd d.run.status
      → ((r : EvalReport) × (build_eval_report numerics d ≡ ok r))
        ⊎ (build_eval_report numerics d ≡ err no_results)
  unfolding build_eval_report
  build_eval_report-AtEnd d t =
      let terminal : is_terminal numerics d.run ≡ true = AtEnd-terminal d.run.status t in
      elim (Option-cases (summary_for numerics d)) [
        | inl e ↦ inr (rw (build_eval_report, terminal, e))
        | inr (summary, e) ↦ inl (report_of numerics d summary, rw (build_eval_report, terminal, e))
      ]

  pub materialize_run_report-AtEnd :
      (id : String) (s : Store) (run : EvalRun)
      → find id s.runs ≡ some run
      → AtEnd run.status
      → ((r : EvalReport) × ((materialize_run_report numerics id s).0 ≡ ok r))
        ⊎ ((materialize_run_report numerics id s).0 ≡ err no_results)
  unfolding materialize_run_report get_run_detail with_run_result_summary save_eval_report
  materialize_run_report-AtEnd id s run f t =
      let results = slice_of id s.run_item_results in
      let d : RunDetail = record {
        run = with_run_result_summary run results;
        events = slice_of id s.run_events;
        items = slice_of id s.run_items;
        item_results = results;
      } in
      let found : get_run_detail id s ≡ ok d = rw (f, get_run_detail) in
      elim (build_eval_report-AtEnd d t) [
        | inl (r, e) ↦ inl (r, rw (materialize_run_report, found, e))
        | inr e ↦ inr (rw (materialize_run_report, found, e))
      ]
