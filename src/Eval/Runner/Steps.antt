-- ===== src/Eval/Runner/Steps.antt =====
-- internal/eval/runner.go: a batch of the worker, taken as calls of the services.
use opspilot_go_dev_kit.Prelude.{ℕ, String, Option, none, some, List, [], ◌∷◌, Result, ok, err}
use opspilot_go_dev_kit.Prelude.Paging.{ℤ}
use opspilot_go_dev_kit.Eval.Types.{EvalRun, EvalError}
use opspilot_go_dev_kit.Eval.Judge.{RunJudge}
use opspilot_go_dev_kit.Eval.Reports.{Numerics}
use opspilot_go_dev_kit.Eval.Services.{Evals}
use opspilot_go_dev_kit.Eval.Services.Runs.{claim_queued_runs}
use opspilot_go_dev_kit.Eval.Runner.{
  RunExecutor, Times, materialize, then_materialize, process_run, process_each, process_next_batch,
  and_then, with_fallback, summarize_run_judge_failure,
}
use opspilot_go_dev_kit.Eval.Lifecycle.{
  Reach, then_step, claimed, succeeded, failed, failed_with_fallback, reported,
}

with_fallback-Reach :
    (now : ℕ) (id reason : String) (out : Result EvalError EvalRun × Evals)
    → Reach out.1
    → Reach (with_fallback now id reason out).1
with_fallback-Reach now id reason (ok run, s) r = r
with_fallback-Reach now id reason (err e, s) r =
    then_step r (failed_with_fallback now id (summarize_run_judge_failure reason e))

then_materialize-Reach :
    (judge : RunJudge) (reports : Option Numerics) (id : String)
    (out : Result EvalError EvalRun × Evals)
    → Reach out.1
    → Reach (then_materialize judge reports id out).1
unfolding materialize
then_materialize-Reach judge reports id (err e, s) r = r
then_materialize-Reach judge none id (ok run, s) r = r
then_materialize-Reach judge (some numerics) id (ok run, s) r = then_step r (reported numerics id)

module _ (judge : RunJudge) (reports : Option Numerics) where
  process_run-Reach :
      (times : Times) (failure : Option String) (run : EvalRun) {s : Evals}
      → Reach s
      → Reach (process_run judge reports times failure run s).1
  unfolding process_run
  process_run-Reach times none run {s} r = then_materialize-Reach judge reports run.id _ (
      with_fallback-Reach times.second run.id "eval judge failed after successful execution" _
        (then_step r (succeeded judge times.first run.id)))
  process_run-Reach times (some reason) run {s} r = then_materialize-Reach judge reports run.id _ (
      with_fallback-Reach times.second run.id reason _
        (then_step r (failed judge times.first run.id reason)))

  and_then-Reach :
      (out : Option EvalError × Evals) (rest : Evals → Option EvalError × Evals)
      → Reach out.1
      → ((s : Evals) → Reach s → Reach (rest s).1)
      → Reach (and_then out rest).1
  and_then-Reach (some e, s) rest r h = r
  and_then-Reach (none, s) rest r h = h s r

  process_each-Reach :
      (execute : RunExecutor) (times : EvalRun → Times) (runs : List EvalRun) {s : Evals}
      → Reach s
      → Reach (process_each judge reports execute times runs s).1
  unfolding process_each
  process_each-Reach execute times [] r = r
  process_each-Reach execute times (run ∷ runs) {s} r =
      and_then-Reach (process_run judge reports (times run) (execute run) run s)
        (process_each judge reports execute times runs)
        (process_run-Reach (times run) (execute run) run r)
        (λ s' r'. process_each-Reach execute times runs r')

  pub process_next_batch-Reach :
      (execute : RunExecutor) (times : EvalRun → Times) (limit : ℤ) (now : ℕ) {s : Evals}
      → Reach s
      → Reach (process_next_batch judge reports execute times limit now s).1
  unfolding process_next_batch
  process_next_batch-Reach execute times limit now {s} r =
      process_each-Reach execute times (claim_queued_runs limit now s).0
        (then_step r (claimed limit now))
