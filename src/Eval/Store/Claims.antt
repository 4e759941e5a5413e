-- ===== src/Eval/Store/Claims.antt =====
-- internal/eval/memory_store.go: the changes of a run's status, each with its event.
use opspilot_go_dev_kit.Prelude.{
  ℕ, String, Bool, none, some, List, [], ◌∷◌, Result, ok, err, ◌==◌, if◌then◌else◌, eqb, ltb,
  str_lt, keep, take,
}
use opspilot_go_dev_kit.Prelude.Dict.{find, put, values}
use opspilot_go_dev_kit.Prelude.Sorting.{sort}
use opspilot_go_dev_kit.Eval.Types.{
  EvalRun, ItemResult, EvalError, run_not_found, invalid_run_state, run_status_queued,
  run_status_running, run_status_succeeded, run_status_failed, run_event_claimed,
  run_event_succeeded, run_event_failed, run_event_retried,
}
use opspilot_go_dev_kit.Eval.Store.{Store}
use opspilot_go_dev_kit.Eval.Store.Runs.{append_run_event_locked, event_of, delete}

abbrev pub set_run : String → EvalRun → Store → Store
set_run id item s = record s { runs = put id item s.runs }

unfoldable pub is_older : EvalRun → EvalRun → Bool
is_older a b =
    if eqb a.created_at b.created_at then str_lt a.id b.id else ltb a.created_at b.created_at

abbrev pub is_queued : EvalRun → Bool
is_queued item = item.status == run_status_queued

-- The rows that `ClaimQueuedRuns` takes its first `limit` of.
unfoldable pub queued_runs : Store → List EvalRun
unfolding is_older
queued_runs s = sort is_older (keep is_queued (values s.runs))

unfoldable pub claimed : ℕ → EvalRun → EvalRun
claimed started_at item = record item {
  status = run_status_running;
  error_reason = "";
  updated_at = started_at;
  started_at = if eqb item.started_at 0 then started_at else item.started_at;
}

-- The body of the loop for one run.
unfoldable pub claim_run : ℕ → EvalRun → Store → Store
unfolding claimed append_run_event_locked
claim_run started_at item s =
    let run = claimed started_at item in
    append_run_event_locked (event_of run run_event_claimed "worker" run.status started_at)
      (set_run run.id run s)

unfoldable pub claim_each : ℕ → List EvalRun → Store → List EvalRun × Store
unfolding claim_run claimed
claim_each started_at [] s = ([], s)
claim_each started_at (item ∷ items) s =
    let (runs, s') = claim_each started_at items (claim_run started_at item s) in
    (claimed started_at item ∷ runs, s')

-- The service never passes a negative limit, for which the code panics.
unfoldable pub claim_queued_runs : ℕ → ℕ → Store → List EvalRun × Store
unfolding claim_each queued_runs
claim_queued_runs limit started_at s = claim_each started_at (take limit (queued_runs s)) s

unfoldable pub retried : ℕ → EvalRun → EvalRun
retried updated_at item = record item {
  status = run_status_queued;
  error_reason = "";
  updated_at = updated_at;
  started_at = 0;
  finished_at = 0;
}

unfoldable pub retry_run : String → ℕ → Store → Result EvalError EvalRun × Store
unfolding retried append_run_event_locked delete
retry_run id updated_at s = elim (find id s.runs) [
  | none ↦ (err (run_not_found id), s)
  | some item ↦
      if item.status == run_status_failed
      then (let run = retried updated_at item in
          (
            ok run,
            append_run_event_locked
                (event_of run run_event_retried "operator" run.status updated_at)
                (record s {
                  runs = put id run s.runs;
                  run_item_results = delete id s.run_item_results;
                }),
          ))
      else (err invalid_run_state, s)
]

unfoldable pub finished : String → String → ℕ → EvalRun → EvalRun
finished status reason at item = record item {
  status = status;
  error_reason = reason;
  updated_at = at;
  finished_at = at;
}

abbrev pub set_finished : String → EvalRun → List ItemResult → Store → Store
set_finished id run results s = record s {
  runs = put id run s.runs;
  run_item_results = put id results s.run_item_results;
}

unfoldable pub mark_run_succeeded :
    String → ℕ → List ItemResult → Store → Result EvalError EvalRun × Store
unfolding finished append_run_event_locked
mark_run_succeeded id at results s = elim (find id s.runs) [
  | none ↦ (err (run_not_found id), s)
  | some item ↦
      if item.status == run_status_running
      then (let run = finished run_status_succeeded "" at item in
          (
            ok run,
            append_run_event_locked (event_of run run_event_succeeded "worker" run.status at)
                (set_finished id run results s),
          ))
      else (err invalid_run_state, s)
]

unfoldable pub mark_run_failed :
    String → String → ℕ → List ItemResult → Store → Result EvalError EvalRun × Store
unfolding finished append_run_event_locked
mark_run_failed id reason at results s = elim (find id s.runs) [
  | none ↦ (err (run_not_found id), s)
  | some item ↦
      if item.status == run_status_running
      then (let run = finished run_status_failed reason at item in
          (
            ok run,
            append_run_event_locked (event_of run run_event_failed "worker" reason at)
                (set_finished id run results s),
          ))
      else (err invalid_run_state, s)
]
