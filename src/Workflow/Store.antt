-- ===== src/Workflow/Store.antt =====
-- The `TaskStore` interface of internal/workflow/service.go, and what a store promises its clients:
-- an abstract view of the tasks and of the audit logs, and how each operation moves it.
use opspilot_go_dev_kit.Prelude.{
  ℕ, String, ◌≡◌, ◌⊎◌, Option, some, List, [], ◌∷◌, ◌++◌, Result, ok, err, ◌==◌, if◌then◌else◌, All,
  AllPairs, ◌≢◌,
}
use opspilot_go_dev_kit.Prelude.Paging.{ℤ, Page}
use opspilot_go_dev_kit.Workflow.Types.{
  Task, AuditEvent, TaskListFilter, WorkflowError, status_queued, status_running,
  audit_action_claimed,
}

-- `now` is the reading of the clock that `ClaimQueuedTasks` takes.
pub record TaskStore (S : Type 0) : Type 0 where
  pub save_task : Task → S → Result WorkflowError Task × S
  pub create_task_with_event : Task → AuditEvent → S → Result WorkflowError Task × S
  pub get_task : String → S → Result WorkflowError Task
  pub claim_queued_tasks : ℕ → ℤ → S → Result WorkflowError (List Task) × S
  pub update_task : Task → S → Result WorkflowError Task × S
  pub update_task_with_event : Task → AuditEvent → S → Result WorkflowError Task × S
  pub append_task_event : AuditEvent → S → Result WorkflowError AuditEvent × S
  pub list_task_events : String → S → Result WorkflowError (List AuditEvent)
  pub list_tasks : TaskListFilter → S → Result WorkflowError (Page Task)

-- What a client can observe of a store's state.
pub record View (S : Type 0) : Type 0 where
  pub task_at : S → String → Option Task
  pub log_at : S → String → List AuditEvent
  pub next_id : S → ℕ

module _ {S : Type 0} (v : View S) where
  -- Nothing that can be observed has changed.
  pub record Same (s s' : S) : Type 0 where
    pub tasks : (j : String) → v.task_at s' j ≡ v.task_at s j
    pub logs : (j : String) → v.log_at s' j ≡ v.log_at s j

  -- The task was written under its id, and the event appended to the log of the task it names, with
  -- the next event id.
  pub record Wrote (t : Task) (e : AuditEvent) (s s' : S) : Type 0 where
    pub tasks : (j : String) → v.task_at s' j ≡ (if t.id == j then some t else v.task_at s j)
    pub logs :
        (j : String)
        → v.log_at s' j ≡ (
            if e.task_id == j
            then v.log_at s j ++ (record e { id = v.next_id s }) ∷ []
            else v.log_at s j)

  abbrev pub claimed_event : Task → ℕ → AuditEvent
  claimed_event t n = record {
    id = n;
    task_id = t.id;
    action = audit_action_claimed;
    actor = "worker";
    detail = t.status;
    created_at = t.updated_at;
  }

  -- One task as a claim leaves it: untouched, or taken from the queue with a claim event.
  pub record Taken (now : ℕ) (j : String) (s s' : S) : Type 0 where
    pub before : Task
    pub event_id : ℕ
    pub was_stored : v.task_at s j ≡ some before
    pub was_queued : before.status ≡ status_queued
    pub id_eq : before.id ≡ j
    pub now_running :
        v.task_at s' j ≡ some (record before { status = status_running; updated_at = now })
    pub logged :
        v.log_at s' j
        ≡ v.log_at s j
          ++ claimed_event (record before { status = status_running; updated_at = now }) event_id
            ∷ []

  abbrev pub Untouched : String → S → S → Type 0
  Untouched j s s' = (v.task_at s' j ≡ v.task_at s j) × (v.log_at s' j ≡ v.log_at s j)

  -- What a claim returns is what it left in the store.
  abbrev pub Returned : S → List Task → Type 0
  Returned s' ts = All (λ t. (v.task_at s' t.id ≡ some t) × (t.status ≡ status_running)) ts

  -- The contract of a store whose state is in `IsGood`. An operation that fails leaves what can be
  -- observed as it was.
  pub record StoreLaws (store : TaskStore S) (IsGood : S → Type 0) : Type 0 where
    pub get_lem :
        (id : String) (s : S) (t : Task)
        → store.get_task id s ≡ ok t
        → IsGood s
        → (v.task_at s id ≡ some t) × (t.id ≡ id)
    pub create_lem :
        (t u : Task) (e : AuditEvent) (s : S)
        → (store.create_task_with_event t e s).0 ≡ ok u
        → (u ≡ t) × Wrote t e s (store.create_task_with_event t e s).1
    pub create_err :
        (t : Task) (e : AuditEvent) (x : WorkflowError) (s : S)
        → (store.create_task_with_event t e s).0 ≡ err x
        → Same s (store.create_task_with_event t e s).1
    pub create_good :
        (t : Task) (e : AuditEvent) (s : S)
        → IsGood s
        → IsGood (store.create_task_with_event t e s).1
    pub update_lem :
        (t u : Task) (e : AuditEvent) (s : S)
        → (store.update_task_with_event t e s).0 ≡ ok u
        → (u ≡ t) × Wrote t e s (store.update_task_with_event t e s).1
    pub update_err :
        (t : Task) (e : AuditEvent) (x : WorkflowError) (s : S)
        → (store.update_task_with_event t e s).0 ≡ err x
        → Same s (store.update_task_with_event t e s).1
    pub update_good :
        (t : Task) (e : AuditEvent) (s : S)
        → IsGood s
        → IsGood (store.update_task_with_event t e s).1
    pub claim_lem :
        (now : ℕ) (limit : ℤ) (s : S) (j : String)
        → IsGood s
        → let s' = (store.claim_queued_tasks now limit s).1 in Untouched j s s' ⊎ Taken now j s s'
    pub claim_returned :
        (now : ℕ) (limit : ℤ) (s : S) (ts : List Task)
        → (store.claim_queued_tasks now limit s).0 ≡ ok ts
        → IsGood s
        → Returned (store.claim_queued_tasks now limit s).1 ts
    pub claim_distinct :
        (now : ℕ) (limit : ℤ) (s : S) (ts : List Task)
        → (store.claim_queued_tasks now limit s).0 ≡ ok ts
        → IsGood s
        → AllPairs (λ a b. a.id ≢ b.id) ts
    pub claim_good :
        (now : ℕ) (limit : ℤ) (s : S) → IsGood s → IsGood (store.claim_queued_tasks now limit s).1
