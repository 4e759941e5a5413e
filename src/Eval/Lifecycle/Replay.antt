-- ===== src/Eval/Lifecycle/Replay.antt =====
-- The timeline of a run and its status (internal/eval/memory_store.go).
pub mod Steps
use opspilot_go_dev_kit.Prelude.{
  ℕ, String, ◌≡◌, ◌≢◌, inl, inr, refl, sym, ap, ◌∙◌, subst, Bool, true, false, Option, none, some,
  List, [], ◌∷◌, ◌++◌, ◌==◌, eq_iff, if◌then◌else◌, or_else, Bool-cases, Result, ok, err,
}
use opspilot_go_dev_kit.Prelude.Dict.{Dict, find, put, KeyedBy, find-put, put-KeyedBy}
use opspilot_go_dev_kit.Eval.Types.{
  EvalRun, RunEvent, run_status_queued, run_status_running, run_status_succeeded, run_status_failed,
  run_event_created, run_event_claimed, run_event_succeeded, run_event_failed, run_event_retried,
}
use opspilot_go_dev_kit.Eval.Store.{Store}
use opspilot_go_dev_kit.Eval.Store.Runs.{slice_of, append_run_event_locked, event_of}

-- The change from one status to the next, where the run has the first.
abbrev pub moves : String → String → Option String → Option String
moves wanted next none = none
moves wanted next (some status) = if status == wanted then some next else none

-- The status that an event makes of the one before. None is no run, or a timeline that no run has.
abbrev pub status_after : String → Option String → Option String
status_after action before =
    if action == run_event_created
    then some run_status_queued
    else if action == run_event_claimed
    then moves run_status_queued run_status_running before
    else if action == run_event_succeeded
    then moves run_status_running run_status_succeeded before
    else if action == run_event_failed
    then moves run_status_running run_status_failed before
    else if action == run_event_retried
    then moves run_status_failed run_status_queued before
    else none

abbrev pub replay_from : Option String → List RunEvent → Option String
replay_from status [] = status
replay_from status (e ∷ es) = replay_from (status_after e.action status) es

-- The status that a timeline gives, from the creation of the run on.
abbrev pub replay : List RunEvent → Option String
replay events = replay_from none events

replay-append :
    (status : Option String) (events : List RunEvent) (e : RunEvent)
    → replay_from status (events ++ e ∷ []) ≡ status_after e.action (replay_from status events)
replay-append status [] e = refl
replay-append status (d ∷ ds) e = replay-append (status_after d.action status) ds e

abbrev pub status_in : Option EvalRun → Option String
status_in none = none
status_in (some run) = some run.status

abbrev pub AllReplayed : Dict EvalRun → Dict (List RunEvent) → Type 0
AllReplayed runs events = (id : String) → replay (slice_of id events) ≡ status_in (find id runs)

pub record IsReplayed (s : Store) : Type 0 where
  pub keyed : KeyedBy (λ r. r.id) s.runs
  pub replayed : AllReplayed s.runs s.run_events

written-AllReplayed :
    (j : String) (run : EvalRun) (event : RunEvent) (runs : Dict EvalRun)
    (events : Dict (List RunEvent))
    → status_after event.action (status_in (find j runs)) ≡ some run.status
    → AllReplayed runs events
    → AllReplayed (put j run runs) (put j (slice_of j events ++ event ∷ []) events)
written-AllReplayed j run event runs events h r id = elim (Bool-cases (j == id)) [
  | inl same ↦
      rw (find-put j id run runs, find-put, same)
        (replay-append none (slice_of j events) event ∙ (ap (status_after event.action) (r j) ∙ h))
  | inr other ↦ rw (find-put j id run runs, find-put, other) (r id)
]

-- A run written under its key with its event.
pub written-IsReplayed :
    (id : String) (run : EvalRun) (action actor detail : String) (at : ℕ) (s : Store)
    → run.id ≡ id
    → status_after action (status_in (find id s.runs)) ≡ some run.status
    → IsReplayed s
    → IsReplayed (
        append_run_event_locked
          (event_of run action actor detail at)
          (record s { runs = put id run s.runs }))
unfolding append_run_event_locked
written-IsReplayed id run action actor detail at s k h v =
    subst
      (λ i.
        status_after action (status_in (find i s.runs)) ≡ some run.status
        → IsReplayed (
            append_run_event_locked (event_of run action actor detail at)
              (record s { runs = put i run s.runs })))
      k
      (λ g. record {
        keyed = put-KeyedBy (λ r. r.id) run s.runs v.keyed;
        replayed = written-AllReplayed run.id run _ s.runs s.run_events g v.replayed;
      })
      h
