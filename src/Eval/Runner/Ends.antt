-- ===== src/Eval/Runner/Ends.antt =====
-- The end of a batch (internal/eval/runner.go): what has become of the runs that it claimed.
use opspilot_go_dev_kit.Prelude.{
  ℕ, String, ◌≡◌, ◌≢◌, ◌⊎◌, inl, inr, refl, sym, ap, ◌∙◌, true, is_some, Option, none, some, List,
  [], ◌∷◌, Result, Result-cases, ok, err, All, AllPairs, All-imp, All-take, AllPairs-take, length,
  take,
}
use opspilot_go_dev_kit.Prelude.Dict.{find}
use opspilot_go_dev_kit.Prelude.Paging.{ℤ}
use opspilot_go_dev_kit.Eval.Types.{EvalRun, EvalReport, EvalError, wrapped, run_status_queued}
use opspilot_go_dev_kit.Eval.Judge.{RunJudge}
use opspilot_go_dev_kit.Eval.Store.{Store}
use opspilot_go_dev_kit.Eval.Store.Runs.{get_run_detail}
use opspilot_go_dev_kit.Eval.Store.Reports.{save_eval_report}
use opspilot_go_dev_kit.Eval.Store.Claims.{claim_run, claim_each, claimed, queued_runs}
use opspilot_go_dev_kit.Eval.Store.Claims as Changes
use opspilot_go_dev_kit.Eval.Reports.{Numerics, materialize_run_report, build_eval_report}
use opspilot_go_dev_kit.Eval.Services.{Evals}
use opspilot_go_dev_kit.Eval.Services.Runs.{claim_queued_runs, claim_limit}
use opspilot_go_dev_kit.Eval.Runner.{
  RunExecutor, Times, materialize, then_materialize, process_run, process_each, process_next_batch,
  and_then, report_error, batch_answer,
}
use opspilot_go_dev_kit.Eval.Runner.Marks.{
  Ended, Runs, Elsewhere, MarkedIn, failed_run-Marked, succeeded_run-Marked,
}
use opspilot_go_dev_kit.Eval.Lifecycle.{Reach}
use opspilot_go_dev_kit.Eval.Lifecycle.Replay.Steps.{Has, Distinct, queued_runs_found}
use opspilot_go_dev_kit.Eval.Lifecycle.Timeline.{Reach-IsReplayed}
use opspilot_go_dev_kit.Eval.Reports.Terminal.{no_results, materialize_run_report-AtEnd}
use opspilot_go_dev_kit.Eval.Runner.Steps.{process_next_batch-Reach}
use opspilot_go_dev_kit.Eval.Runner.Claims.{claim_each-Distinct, claim_each-Runs}

materialized_runs :
    (numerics : Numerics) (id : String) (s : Store)
    → (materialize_run_report numerics id s).1.runs ≡ s.runs
unfolding materialize_run_report save_eval_report
materialized_runs numerics id s = elim (Result-cases (get_run_detail id s)) [
  | inr (x, e) ↦ rw (e, materialize_run_report)
  | inl (d, e) ↦ elim (Result-cases (build_eval_report numerics d)) [
    | inr (x, f) ↦ rw (e, materialize_run_report, f)
    | inl (r, f) ↦ rw (e, materialize_run_report, f)
  ]
]

-- The report could not be made for want of results: an error of a worker that has a report service.
abbrev pub ReportFailed : Option Numerics → Option EvalError → Type 0
ReportFailed reports failure =
    (is_some reports ≡ true) × (failure ≡ some (wrapped "materialize eval report" no_results))

-- What the turn for one run comes to.
abbrev Done : Option Numerics → String → Evals → Option EvalError × Evals → Type 0
Done reports id s (failure, s') =
    Ended s'.store id
    × Elsewhere id s.store s'.store
    × ((failure ≡ none) ⊎ ReportFailed reports failure)

report_error-failed :
    (numerics : Numerics) (answer : Result EvalError EvalReport)
    → ((r : EvalReport) × (answer ≡ ok r)) ⊎ (answer ≡ err no_results)
    → (report_error answer ≡ none) ⊎ ReportFailed (some numerics) (report_error answer)
report_error-failed numerics answer (inl (r, e)) = inl (ap report_error e)
report_error-failed numerics answer (inr e) = inr (refl, ap report_error e)

-- The report leaves the runs alone.
materialized-Done :
    (judge : RunJudge) (reports : Option Numerics) (id : String) (s s' : Evals)
    → Ended s'.store id
    → Elsewhere id s.store s'.store
    → Done reports id s (materialize judge reports id s')
unfolding materialize
materialized-Done judge none id s s' e h = (e, h, inl refl)
materialized-Done judge (some numerics) id s s' (run, f, t) h =
    let same = materialized_runs numerics id s'.store in
    (
      (run, ap (find id) same ∙ f, t),
      λ j n. ap (find j) same ∙ h j n,
      report_error-failed numerics (materialize_run_report numerics id s'.store).0
          (materialize_run_report-AtEnd numerics id s'.store run f t),
    )

module _ (judge : RunJudge) (reports : Option Numerics) where
  marked-Done :
      (id : String) (s : Evals) (out : Result EvalError EvalRun × Evals)
      → MarkedIn id s out
      → Done reports id s (then_materialize judge reports id out)
  marked-Done id s (ok run, s') (m, e, h) = materialized-Done judge reports id s s' e h
  marked-Done id s (err e, s') (m, _, _) = let impossible : err e ≡ ok m.0 = m.1 in absurd cc

  process_run-Done :
      (times : Times) (failure : Option String) (run : EvalRun) (s : Evals)
      → Runs s.store run.id
      → Done reports run.id s (process_run judge reports times failure run s)
  unfolding process_run
  process_run-Done times (some reason) run s r =
      marked-Done run.id s _ (failed_run-Marked judge times run.id reason s r)
  process_run-Done times none run s r =
      marked-Done run.id s _
        (succeeded_run-Marked judge times run.id "eval judge failed after successful execution" s r)

  abbrev BatchDone : List EvalRun → Evals → Option EvalError × Evals → Type 0
  BatchDone runs s (failure, s') =
      ((failure ≡ none)
        × All (λ run. Ended s'.store run.id) runs
        × ((j : String)
            → All (λ run. run.id ≢ j) runs
            → find j s'.store.runs ≡ find j s.store.runs))
      ⊎ ReportFailed reports failure

  still_running :
      (id : String) (s s' : Evals) (runs : List EvalRun)
      → Elsewhere id s.store s'.store
      → All (λ run. id ≢ run.id) runs
      → All (λ run. Runs s.store run.id) runs
      → All (λ run. Runs s'.store run.id) runs
  still_running id s s' [] h n r = tt
  still_running id s s' (run ∷ runs) h n ((x, f, t), r) =
      ((x, h run.id n.0 ∙ f, t), still_running id s s' runs h n.1 r)

  stays-Ended :
      (id : String) (s s' : Store) → find id s'.runs ≡ find id s.runs → Ended s id → Ended s' id
  stays-Ended id s s' e (run, f, t) = (run, e ∙ f, t)

  -- The turn for the first run, and then the others.
  cons-BatchDone :
      (run : EvalRun) (runs : List EvalRun) (s : Evals) (out : Option EvalError × Evals)
      (rest : Evals → Option EvalError × Evals)
      → All (λ other. run.id ≢ other.id) runs
      → Done reports run.id s out
      → BatchDone runs out.1 (rest out.1)
      → BatchDone (run ∷ runs) s (and_then out rest)
  cons-BatchDone run runs s (some e, s') rest n (ended, h, inl none_is) b =
      let impossible : some e ≡ none = none_is in absurd cc
  cons-BatchDone run runs s (some e, s') rest n (ended, h, inr failed) b = inr failed
  cons-BatchDone run runs s (none, s') rest n (ended, h, _) (inr failed) = inr failed
  cons-BatchDone run runs s (none, s') rest n (ended, h, _) (inl (no_error, all, same)) = inl (
    no_error,
    (
      stays-Ended run.id s'.store (rest s').1.store
          (same run.id (
            All-imp (λ other. run.id ≢ other.id) (λ other. other.id ≢ run.id) runs
              (λ other ne e. ne (sym e)) n))
          ended,
      all,
    ),
    λ j m. same j m.1 ∙ h j m.0,
  )

  process_each-BatchDone :
      (execute : RunExecutor) (times : EvalRun → Times) (runs : List EvalRun) (s : Evals)
      → AllPairs Distinct runs
      → All (λ run. Runs s.store run.id) runs
      → BatchDone runs s (process_each judge reports execute times runs s)
  unfolding process_each
  process_each-BatchDone execute times [] s d r = inl (refl, tt, λ j n. refl)
  process_each-BatchDone execute times (run ∷ runs) s d (r, rs) =
      let out = process_run judge reports (times run) (execute run) run s in
      let done = process_run-Done (times run) (execute run) run s r in
      cons-BatchDone run runs s out (process_each judge reports execute times runs) d.0 done (
        process_each-BatchDone execute times runs out.1 d.1
          (still_running run.id s out.1 runs done.1 d.0 rs))

batch_ends :
    (judge : RunJudge) (reports : Option Numerics) (batch : List EvalRun) (s : Evals)
    (out : Option EvalError × Evals)
    → BatchDone judge reports batch s out
    → ((batch_answer (length batch) out.0 ≡ ok (length batch))
        × All (λ run. Ended out.1.store run.id) batch)
      ⊎ ((is_some reports ≡ true)
          × (batch_answer (length batch) out.0
              ≡ err (wrapped "materialize eval report" no_results)))
batch_ends judge reports batch s out (inl (e, all, _)) =
    inl (ap (batch_answer (length batch)) e, all)
batch_ends judge reports batch s out (inr (given, e)) =
    inr (given, ap (batch_answer (length batch)) e)

-- In any state that calls of the services reach, with any judge and any executor, `ProcessNextBatch`
-- returns, and either it returns the number of runs that it claimed, each of which has then succeeded
-- or failed, or the worker has a report service and a report could not be made for want of item results, which is
-- the one error. The state that it leaves is again one that calls of the services reach.
pub process_next_batch_ends :
    {s : Evals} (r : Reach s) (judge : RunJudge) (reports : Option Numerics) (execute : RunExecutor)
    (times : EvalRun → Times) (limit : ℤ) (now : ℕ)
    → let batch = (claim_queued_runs limit now s).0 in
      let (answer, s') = process_next_batch judge reports execute times limit now s in
      Reach s'
      × (((answer ≡ ok (length batch)) × All (λ run. Ended s'.store run.id) batch)
          ⊎ ((is_some reports ≡ true)
              × (answer ≡ err (wrapped "materialize eval report" no_results))))
unfolding process_next_batch claim_queued_runs Changes.claim_queued_runs
process_next_batch_ends {s} r judge reports execute times limit now =
    let v = Reach-IsReplayed r in
    let (h, d) = queued_runs_found s.store v.keyed in
    let items = take (claim_limit limit) (queued_runs s.store) in
    let h₁ = All-take (Has run_status_queued s.store) (claim_limit limit) (queued_runs s.store) h in
    let d₁ = AllPairs-take Distinct (claim_limit limit) (queued_runs s.store) d in
    let batch = (claim_each now items s.store).0 in
    let s₁ : Evals = record s { store = (claim_each now items s.store).1 } in
    let ends =
      batch_ends judge reports batch s₁ (process_each judge reports execute times batch s₁) (
        process_each-BatchDone judge reports execute times batch s₁
          (claim_each-Distinct now items s.store d₁) (claim_each-Runs now items s.store d₁ h₁)) in
    (process_next_batch-Reach judge reports execute times limit now r, ends)
