-- ===== src/Eval/Runner.antt =====
-- internal/eval/runner.go: the worker that claims queued runs and brings each to its end. The executor is
-- an argument; its error is a text. `reports` is none where the worker has no report service. The store
-- in memory ignores the contexts that the code makes and cancels.
pub mod Claims
pub mod Steps
pub mod Marks
pub mod Ends
use opspilot_go_dev_kit.Prelude.{
  ℕ, String, ◌<>◌, Bool, Option, none, some, List, [], ◌∷◌, Result, ok, err, ◌==◌, if◌then◌else◌,
  length,
}
use opspilot_go_dev_kit.Prelude.Strings.{trim_space}
use opspilot_go_dev_kit.Prelude.Paging.{ℤ}
use opspilot_go_dev_kit.Eval.Types.{EvalRun, EvalReport, EvalError, wrapped, message}
use opspilot_go_dev_kit.Eval.Judge.{RunJudge}
use opspilot_go_dev_kit.Eval.Reports.{Numerics, materialize_run_report}
use opspilot_go_dev_kit.Eval.Services.{Evals, error_text}
use opspilot_go_dev_kit.Eval.Services.Datasets.{on_store}
use opspilot_go_dev_kit.Eval.Services.Runs.{
  claim_queued_runs, mark_run_succeeded, mark_run_failed, mark_run_failed_with_fallback,
}

-- `ExecuteRun`, where none is no error.
abbrev pub RunExecutor : Type 0
RunExecutor = EvalRun → Option String

unfoldable pub placeholder_run_executor : Bool → RunExecutor
placeholder_run_executor fail_all run =
    if fail_all then some ("fault injection: eval run failed for " <> run.id) else none

unfoldable pub summarize_run_judge_failure : String → EvalError → String
unfolding error_text
summarize_run_judge_failure prefix e =
    let summary = trim_space prefix in
    if summary == "" then error_text e else summary <> ": " <> error_text e

-- The readings of the clock while a run is brought to its end, the second one for the fallback.
pub record Times : Type 0 where
  pub first : ℕ
  pub second : ℕ

-- `if err := ...; err != nil { return err }`, where none is no error.
abbrev pub and_then :
    Option EvalError × Evals → (Evals → Option EvalError × Evals) → Option EvalError × Evals
and_then (some e, s) rest = (some e, s)
and_then (none, s) rest = rest s

abbrev pub report_error : Result EvalError EvalReport → Option EvalError
report_error (ok _) = none
report_error (err e) = some (wrapped "materialize eval report" e)

abbrev pub batch_answer : ℕ → Option EvalError → Result EvalError ℕ
batch_answer count none = ok count
batch_answer count (some e) = err e

-- A marking, and where it fails the fallback with the reason made of its error.
abbrev pub with_fallback :
    ℕ → String → String → Result EvalError EvalRun × Evals → Result EvalError EvalRun × Evals
with_fallback now run_id reason (ok run, s) = (ok run, s)
with_fallback now run_id reason (err e, s) =
    mark_run_failed_with_fallback now run_id (summarize_run_judge_failure reason e) s

module _ (judge : RunJudge) (reports : Option Numerics) where
  -- None is no error.
  unfoldable pub materialize : String → Evals → Option EvalError × Evals
  unfolding materialize_run_report
  materialize run_id s = elim reports [
    | none ↦ (none, s)
    | some numerics ↦
        let (answer, store) = materialize_run_report numerics run_id s.store in
        (report_error answer, record s { store = store })
  ]

  -- The report, once the run is marked; the error of the marking ends the batch.
  abbrev pub then_materialize : String → Result EvalError EvalRun × Evals → Option EvalError × Evals
  then_materialize run_id (err e, s) = (some e, s)
  then_materialize run_id (ok _, s) = materialize run_id s

  -- The body of the loop for one run. None is no error.
  unfoldable pub process_run : Times → Option String → EvalRun → Evals → Option EvalError × Evals
  unfolding mark_run_succeeded mark_run_failed mark_run_failed_with_fallback materialize
      summarize_run_judge_failure
  process_run times failure run s = elim failure [
    | some reason ↦ then_materialize run.id (
        with_fallback times.second run.id reason
          (mark_run_failed judge times.first run.id reason s))
    | none ↦ then_materialize run.id (
        with_fallback times.second run.id "eval judge failed after successful execution"
          (mark_run_succeeded judge times.first run.id s))
  ]

  -- The loop, which stops at the first error.
  unfoldable pub process_each :
      RunExecutor → (EvalRun → Times) → List EvalRun → Evals → Option EvalError × Evals
  unfolding process_run
  process_each execute times [] s = (none, s)
  process_each execute times (run ∷ runs) s =
      and_then (process_run (times run) (execute run) run s) (process_each execute times runs)

  unfoldable pub process_next_batch :
      RunExecutor → (EvalRun → Times) → ℤ → ℕ → Evals → Result EvalError ℕ × Evals
  unfolding claim_queued_runs process_each
  process_next_batch execute times limit now s =
      let (runs, s₁) = claim_queued_runs limit now s in
      let (failure, s₂) = process_each execute times runs s₁ in
      (batch_answer (length runs) failure, s₂)
