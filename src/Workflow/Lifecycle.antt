-- ===== src/Workflow/Lifecycle.antt =====
-- The life of a task as its audit log tells it, and the steps by which the service and the worker move
-- the store (internal/workflow/service.go, runner.go).
pub mod Requests
pub mod Worker
pub mod Batch
pub mod Reach
pub mod Counts
pub mod Between
use opspilot_go_dev_kit.Prelude.{
  ℕ, String, ◌≡◌, ◌≢◌, ◌⊎◌, refl, sym, ap, ◌∙◌, subst, inl, inr, Option, none, some, List, [], ◌∷◌,
  ◌++◌, map, Result, ok, err, ◌==◌, eq_iff, eq_refl, if◌then◌else◌, arith, Bool-cases, eq_of_str_eq,
  str-ne_of_false,
}
use mathlib.Core.Option
use opspilot_go_dev_kit.Workflow.Types.{
  Task, AuditEvent, status_queued, status_running, status_succeeded, status_failed,
  status_waiting_approval, audit_action_created, audit_action_claimed, audit_action_approved,
  audit_action_retried, audit_action_succeeded, audit_action_failed,
}
use opspilot_go_dev_kit.Workflow.Store.{View, Same, Wrote, Untouched, Taken}

-- Which action takes a task from which status to which; a task that is not there yet has none.
pub data Move (from : Option String) (action to : String) : Type 0 where
  created_queued :
      from ≡ none → action ≡ audit_action_created → to ≡ status_queued → Move from action to
  created_waiting :
      from ≡ none
      → action ≡ audit_action_created
      → to ≡ status_waiting_approval
      → Move from action to
  start_failed :
      from ≡ some status_waiting_approval
      → action ≡ audit_action_failed
      → to ≡ status_failed
      → Move from action to
  approved :
      from ≡ some status_waiting_approval
      → action ≡ audit_action_approved
      → to ≡ status_queued
      → Move from action to
  claimed :
      from ≡ some status_queued
      → action ≡ audit_action_claimed
      → to ≡ status_running
      → Move from action to
  run_succeeded :
      from ≡ some status_running
      → action ≡ audit_action_succeeded
      → to ≡ status_succeeded
      → Move from action to
  run_failed :
      from ≡ some status_running
      → action ≡ audit_action_failed
      → to ≡ status_failed
      → Move from action to
  retried :
      from ≡ some status_failed
      → action ≡ audit_action_retried
      → to ≡ status_queued
      → Move from action to

-- What holds of the eight moves holds of every move.
pub Move-rule :
    (P : Option String → String → String → Type 0)
    → P none audit_action_created status_queued
    → P none audit_action_created status_waiting_approval
    → P (some status_waiting_approval) audit_action_failed status_failed
    → P (some status_waiting_approval) audit_action_approved status_queued
    → P (some status_queued) audit_action_claimed status_running
    → P (some status_running) audit_action_succeeded status_succeeded
    → P (some status_running) audit_action_failed status_failed
    → P (some status_failed) audit_action_retried status_queued
    → (from : Option String) (action to : String) → Move from action to
    → P from action to
Move-rule P a b c d e g h k from action to (created_queued x y z) = rw (x, y, z) a
Move-rule P a b c d e g h k from action to (created_waiting x y z) = rw (x, y, z) b
Move-rule P a b c d e g h k from action to (start_failed x y z) = rw (x, y, z) c
Move-rule P a b c d e g h k from action to (approved x y z) = rw (x, y, z) d
Move-rule P a b c d e g h k from action to (claimed x y z) = rw (x, y, z) e
Move-rule P a b c d e g h k from action to (run_succeeded x y z) = rw (x, y, z) g
Move-rule P a b c d e g h k from action to (run_failed x y z) = rw (x, y, z) h
Move-rule P a b c d e g h k from action to (retried x y z) = rw (x, y, z) k

-- A log that tells a legal life, and the status at its end.
pub data History : List AuditEvent → Option String → Type 0 where
  unborn : History [] none
  moved :
      {log : List AuditEvent} {from : Option String}
      → History log from
      → (e : AuditEvent) (to : String) (log' : List AuditEvent) → Move from e.action to
      → log' ≡ log ++ e ∷ []
      → History log' (some to)

abbrev pub status_at : {S : Type 0} → View S → S → String → Option String
status_at v s j = Option.map (λ t. t.status) (v.task_at s j)

module _ {S : Type 0} (v : View S) where
  -- The log of every id tells a legal life that ends at the status of the stored task.
  abbrev pub Audited : S → Type 0
  Audited s = (j : String) → History (v.log_at s j) (status_at v s j)

  pub Same-Audited : {s s' : S} → Same v s s' → Audited s → Audited s'
  Same-Audited {s} {s'} w a j = rw (w.tasks j, w.logs j) (a j)

  -- Writing a task with an event that is a legal move of its old status.
  pub Wrote-Audited :
      {s s' : S} {t : Task} {e : AuditEvent}
      → Wrote v t e s s'
      → e.task_id ≡ t.id
      → Move (status_at v s t.id) e.action t.status
      → Audited s
      → Audited s'
  Wrote-Audited {s} {s'} {t} {e} w i m a j = elim (Bool-cases (t.id == j)) [
    | inl same ↦
        let id_eq : t.id ≡ j = eq_of_str_eq same in
        let log_eq : v.log_at s' j ≡ v.log_at s j ++ (record e { id = v.next_id s }) ∷ [] =
          w.logs j ∙ rw (i, same) in
        let task_eq : v.task_at s' j ≡ some t = w.tasks j ∙ rw same in
        rw task_eq (
          moved (a j) (record e { id = v.next_id s }) t.status (v.log_at s' j)
            (subst (λ k. Move (status_at v s k) e.action t.status) id_eq m) log_eq)
    | inr other ↦
        let log_eq : v.log_at s' j ≡ v.log_at s j = w.logs j ∙ rw (i, other) in
        let task_eq : v.task_at s' j ≡ v.task_at s j = w.tasks j ∙ rw other in
        rw (task_eq, log_eq) (a j)
  ]

  pub claim-Audited :
      (now : ℕ) (j : String) {s s' : S}
      → Untouched v j s s' ⊎ Taken v now j s s'
      → History (v.log_at s j) (status_at v s j)
      → History (v.log_at s' j) (status_at v s' j)
  claim-Audited now j (inl u) h = rw (u.0, u.1) h
  claim-Audited now j {s} {s'} (inr k) h = rw k.now_running (
      moved h _ status_running (v.log_at s' j)
        (claimed (rw k.was_stored (ap some k.was_queued)) refl refl) k.logged)
