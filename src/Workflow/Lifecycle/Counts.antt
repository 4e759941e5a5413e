-- ===== src/Workflow/Lifecycle/Counts.antt =====
-- What a legal life says of the numbers of claims, retries and outcomes in an audit log
-- (internal/workflow/service.go, runner.go).
use opspilot_go_dev_kit.Prelude.{
  ℕ, ◌+◌, ◌≤◌, String, ◌≡◌, refl, ap, ◌∙◌, Option, none, some, List, [], ◌∷◌, ◌++◌, ◌==◌,
  if◌then◌else◌, arith, count_if,
}
use opspilot_go_dev_kit.Workflow.Types.{
  AuditEvent, status_running, status_succeeded, audit_action_claimed, audit_action_succeeded,
}
use opspilot_go_dev_kit.Workflow.Store.{View}
use opspilot_go_dev_kit.Workflow.Service.{World}
use opspilot_go_dev_kit.Workflow.Runner.{Runner}
use opspilot_go_dev_kit.Workflow.Lifecycle.{Move, Move-rule, History, unborn, moved, status_at}
use opspilot_go_dev_kit.Workflow.Lifecycle.Worker.{IsSound}
use opspilot_go_dev_kit.Workflow.Lifecycle.Reach.{Reach, Inv, Reach-Inv}

-- How often an action stands in a log.
abbrev pub times : String → List AuditEvent → ℕ
times action = count_if (λ e. e.action == action)

pub times-snoc :
    (action : String) (log : List AuditEvent) (e : AuditEvent)
    → times action (log ++ e ∷ []) ≡ times action log + (if e.action == action then 1 else 0)
times-snoc action [] e = ground arith
times-snoc action (x ∷ log) e = ground (arith, times-snoc action log e)

times_moved :
    (action : String) (log log' : List AuditEvent) (e : AuditEvent)
    → log' ≡ log ++ e ∷ []
    → times action log' ≡ times action log + (if e.action == action then 1 else 0)
times_moved action log log' e eq = ap (times action) eq ∙ times-snoc action log e

-- 1 where the task has been claimed since its last outcome.
abbrev open_run : Option String → ℕ
open_run none = 0
open_run (some st) = if st == status_running then 1 else 0

open_run-Move :
    (from : Option String) (action to : String)
    → Move from action to
    → open_run (some to) + (if action == audit_action_succeeded then 1 else 0)
      ≤ open_run from + (if action == audit_action_claimed then 1 else 0)
open_run-Move from action to =
    Move-rule
      (λ from action to.
        open_run (some to) + (if action == audit_action_succeeded then 1 else 0)
        ≤ open_run from + (if action == audit_action_claimed then 1 else 0))
      (omega arith) (omega arith) (omega arith) (omega arith) (omega arith) (omega arith)
      (omega arith) (omega arith) from action to

History-outcomes :
    {log : List AuditEvent} {st : Option String}
    → History log st
    → times audit_action_succeeded log + open_run st ≤ times audit_action_claimed log
History-outcomes unborn = omega arith
History-outcomes (moved {log = log} {from = from} h e to log' m eq) = omega (
  arith,
  History-outcomes h,
  open_run-Move from e.action to m,
  times_moved audit_action_claimed log log' e eq,
  times_moved audit_action_succeeded log log' e eq,
)

-- A task that has succeeded is at its end: the log holds one success exactly then.
abbrev pub succeeded_once : Option String → ℕ
succeeded_once none = 0
succeeded_once (some st) = if st == status_succeeded then 1 else 0

succeeded-Move :
    (from : Option String) (action to : String)
    → Move from action to
    → (if action == audit_action_succeeded then 1 else 0) + succeeded_once from
      ≡ succeeded_once (some to)
succeeded-Move from action to =
    Move-rule
      (λ from action to.
        (if action == audit_action_succeeded then 1 else 0) + succeeded_once from
        ≡ succeeded_once (some to))
      (omega arith) (omega arith) (omega arith) (omega arith) (omega arith) (omega arith)
      (omega arith) (omega arith) from action to

History-success :
    {log : List AuditEvent} {st : Option String}
    → History log st
    → times audit_action_succeeded log ≡ succeeded_once st
History-success unborn = refl
History-success (moved {log = log} {from = from} h e to log' m eq) = omega (
  arith,
  History-success h,
  succeeded-Move from e.action to m,
  times_moved audit_action_succeeded log log' e eq,
)

module _ {S : Type 0} (v : View S) (IsGood : S → Type 0) (r : Runner S)
    (i : IsSound v IsGood r) where
  -- Under `IsSound` (the task store and the report recorder keep their contracts, and an atomic
  -- recorder refuses a task without a version wherever the worker's own lookup of the version
  -- fails), and with each call and each batch taken as one step: in every store that the service
  -- and the worker reach from a store in which the invariant holds, the log of an id holds one
  -- success if the task stored under it is succeeded, and none otherwise; and there are as many
  -- claims as successes at least.
  pub success_logged_once :
      {w w' : World S} (j : String)
      → Inv v IsGood r i w
      → Reach v r w w'
      → let log = v.log_at w'.state j in
        (times audit_action_succeeded log ≡ succeeded_once (status_at v w'.state j))
        × (times audit_action_succeeded log ≤ times audit_action_claimed log)
  success_logged_once j h p =
      let life = (Reach-Inv v IsGood r i h p).audited j in
      (History-success life, omega (arith, History-outcomes life))
