-- ===== src/Eval/Runner/Marks.antt =====
-- What bringing one run to its end does (internal/eval/run_service.go and runner.go).
use opspilot_go_dev_kit.Prelude.{
  ℕ, String, ◌<>◌, ◌≡◌, ◌≢◌, ◌⊎◌, inl, inr, refl, true, some, List, ◌==◌, eq_iff, Result,
  Result-cases, ok, err,
}
use opspilot_go_dev_kit.Prelude.Dict.{find, find-put_self, find-put_ne}
use opspilot_go_dev_kit.Prelude.Strings.{trim_space}
use opspilot_go_dev_kit.Eval.Types.{
  EvalRun, ItemResult, EvalError, run_status_running, run_status_succeeded, run_status_failed,
  message, item_result_succeeded, item_result_failed,
}
use opspilot_go_dev_kit.Eval.Judge.{RunJudge, placeholder_judge}
use opspilot_go_dev_kit.Eval.Store.{Store}
use opspilot_go_dev_kit.Eval.Store.Runs.{append_run_event_locked, get_run_detail}
use opspilot_go_dev_kit.Eval.Store.Claims as Changes
use opspilot_go_dev_kit.Eval.Services.{Evals}
use opspilot_go_dev_kit.Eval.Services.Runs.{
  finalize, mark_run_succeeded, mark_run_failed, mark_run_failed_with_fallback,
}
use opspilot_go_dev_kit.Eval.Runner.{Times, with_fallback, summarize_run_judge_failure}

-- The run has come to its end.
abbrev pub Ended : Store → String → Type 0
Ended s id =
    (run : EvalRun) × (find id s.runs ≡ some run)
    × ((run.status ≡ run_status_succeeded) ⊎ (run.status ≡ run_status_failed))

-- The run is being executed.
abbrev pub Runs : Store → String → Type 0
Runs s id = (run : EvalRun) × (find id s.runs ≡ some run) × (run.status ≡ run_status_running)

-- No run but the one of the id is changed.
abbrev pub Elsewhere : String → Store → Store → Type 0
Elsewhere id s s' = (j : String) → id ≢ j → find j s'.runs ≡ find j s.runs

-- The run was marked, and no other.
abbrev pub Marked : String → Store → Result EvalError EvalRun × Store → Type 0
Marked id s (answer, s') = ((run : EvalRun) × (answer ≡ ok run)) × Ended s' id × Elsewhere id s s'

succeeded-Marked :
    (id : String) (now : ℕ) (results : List ItemResult) (s : Store)
    → Runs s id
    → Marked id s (Changes.mark_run_succeeded id now results s)
unfolding Changes.mark_run_succeeded Changes.finished append_run_event_locked
succeeded-Marked id now results s (run, found, running) =
    let t : (run.status == run_status_running) ≡ true =
      (eq_iff run.status run_status_running).1 running in
    rw (found, Changes.mark_run_succeeded, t)
      (
        (_, refl),
        (_, find-put_self id (Changes.finished run_status_succeeded "" now run) s.runs, inl refl),
        λ j n. find-put_ne id j _ s.runs n,
      )

failed-Marked :
    (id reason : String) (now : ℕ) (results : List ItemResult) (s : Store)
    → Runs s id
    → Marked id s (Changes.mark_run_failed id reason now results s)
unfolding Changes.mark_run_failed Changes.finished append_run_event_locked
failed-Marked id reason now results s (run, found, running) =
    let t : (run.status == run_status_running) ≡ true =
      (eq_iff run.status run_status_running).1 running in
    rw (found, Changes.mark_run_failed, t)
      (
        (_, refl),
        (_, find-put_self id (Changes.finished run_status_failed reason now run) s.runs, inr refl),
        λ j n. find-put_ne id j _ s.runs n,
      )

abbrev pub MarkedIn : String → Evals → Result EvalError EvalRun × Evals → Type 0
MarkedIn id s (answer, s') = Marked id s.store (answer, s'.store)

-- The judge's error leaves everything as it was.
abbrev Failed : Evals → Result EvalError EvalRun × Evals → Type 0
Failed s out = (e : EvalError) × (out ≡ (err e, s))

finalize-Marked :
    (judge : RunJudge) (what status detail : String) (now : ℕ)
    (mark : List ItemResult → Store → Result EvalError EvalRun × Store) (id : String) (s : Evals)
    → Runs s.store id
    → ((results : List ItemResult) → Marked id s.store (mark results s.store))
    → MarkedIn id s (finalize judge what status detail now mark id s)
      ⊎ Failed s (finalize judge what status detail now mark id s)
unfolding finalize
finalize-Marked judge what status detail now mark id s r m =
    elim (Result-cases (get_run_detail id s.store)) [
      | inr (x, e) ↦ inr (x, rw (e, finalize))
      | inl (found, e) ↦ elim (Result-cases (judge found.items status detail now)) [
        | inr (x, f) ↦ inr (message (what <> ": " <> x), rw (e, finalize, f))
        | inl (results, f) ↦ inl (rw (e, finalize, f) (m results))
      ]
    ]

fallback_run-Marked :
    (now : ℕ) (id reason : String) (s : Evals)
    → Runs s.store id
    → MarkedIn id s (mark_run_failed_with_fallback now id reason s)
unfolding mark_run_failed_with_fallback finalize get_run_detail placeholder_judge
fallback_run-Marked now id reason s (run, found, running) =
    rw (found, mark_run_failed_with_fallback, finalize, get_run_detail)
      (failed-Marked id (trim_space reason) now _ s.store (run, found, running))

first_marking-Marked :
    (now : ℕ) (id reason : String) (out : Result EvalError EvalRun × Evals) (s : Evals)
    → Runs s.store id
    → Failed s out
    → MarkedIn id s (with_fallback now id reason out)
unfolding summarize_run_judge_failure
first_marking-Marked now id reason out s r (e, f) =
    rw f (fallback_run-Marked now id (summarize_run_judge_failure reason e) s r)

-- Either the marking succeeds, or the fallback does.
with_fallback-Marked :
    (now : ℕ) (id reason : String) (out : Result EvalError EvalRun × Evals) (s : Evals)
    → Runs s.store id
    → MarkedIn id s out ⊎ Failed s out
    → MarkedIn id s (with_fallback now id reason out)
with_fallback-Marked now id reason (ok run, s') s r (inl m) = m
with_fallback-Marked now id reason (err e, s') s r (inl m) =
    let impossible : err e ≡ ok m.0.0 = m.0.1 in absurd cc
with_fallback-Marked now id reason (ok run, s') s r (inr f) =
    first_marking-Marked now id reason (ok run, s') s r f
with_fallback-Marked now id reason (err e, s') s r (inr f) =
    first_marking-Marked now id reason (err e, s') s r f

pub failed_run-Marked :
    (judge : RunJudge) (times : Times) (id reason : String) (s : Evals)
    → Runs s.store id
    → MarkedIn id s
        (with_fallback times.second id reason (mark_run_failed judge times.first id reason s))
unfolding mark_run_failed
failed_run-Marked judge times id reason s r =
    with_fallback-Marked times.second id reason (mark_run_failed judge times.first id reason s) s r
      (finalize-Marked judge "build failed item results" item_result_failed (trim_space reason)
        times.first (Changes.mark_run_failed id (trim_space reason) times.first) id s r
        (λ results. failed-Marked id (trim_space reason) times.first results s.store r))

pub succeeded_run-Marked :
    (judge : RunJudge) (times : Times) (id reason : String) (s : Evals)
    → Runs s.store id
    → MarkedIn id s
        (with_fallback times.second id reason (mark_run_succeeded judge times.first id s))
unfolding mark_run_succeeded
succeeded_run-Marked judge times id reason s r =
    with_fallback-Marked times.second id reason (mark_run_succeeded judge times.first id s) s r (
      finalize-Marked judge "build succeeded item results" item_result_succeeded
        "placeholder eval passed" times.first (Changes.mark_run_succeeded id times.first) id s r
        (λ results. succeeded-Marked id times.first results s.store r))
