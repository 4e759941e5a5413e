-- ===== src/Workflow/Service.antt =====
-- internal/workflow/service.go: promotion, approval and retry over a `TaskStore`.
-- Each `time.Now().UTC()` is an argument; `taskIDSequence` is part of the state.
use opspilot_go_dev_kit.Prelude.{
  ℕ, String, ◌<>◌, Bool, ◌&&◌, Option, none, some, List, Result, ok, err, ◌==◌, if◌then◌else◌,
}
use opspilot_go_dev_kit.Prelude.Clock.{next_uint64, unix_nano}
use opspilot_go_dev_kit.Prelude.Decimal.{decimal}
use opspilot_go_dev_kit.Prelude.Paging.{ℤ, Page}
use opspilot_go_dev_kit.Workflow.Types.{
  Task, AuditEvent, PromoteRequest, TaskListFilter, WorkflowError, invalid_task_transition,
  external, status_queued, status_failed, status_waiting_approval,
  task_type_approved_tool_execution, audit_action_created, audit_action_approved,
  audit_action_retried, audit_action_failed,
}
use opspilot_go_dev_kit.Workflow.Store.{TaskStore}
use opspilot_go_dev_kit.Workflow.Memory.{MemoryStore, memory_store}

-- `starter` and `version_source` are interfaces, and nil where the caller gave none. A starter answers
-- with the text of its error, if it fails.
pub record Service (S : Type 0) : Type 0 where
  pub store : TaskStore S
  pub starter : Option (Task → Option String)
  pub version_source : Option (S → Result String String)

-- `NewServiceWithDependencies(nil, starter, versionSource)`: the store is the one in memory.
abbrev pub in_memory_service :
    Option (Task → Option String)
    → Option (MemoryStore → Result String String)
    → Service MemoryStore
in_memory_service starter source = record {
  store = memory_store;
  starter = starter;
  version_source = source;
}

pub record World (S : Type 0) : Type 0 where
  pub task_id_sequence : ℕ
  pub state : S

unfoldable pub new_task_id : ℕ → ℕ → String
new_task_id now sequence = "task-" <> decimal (unix_nano now) <> "-" <> decimal sequence

unfoldable pub should_start_task_on_promote : Task → Bool
should_start_task_on_promote task =
    task.task_type == task_type_approved_tool_execution && task.requires_approval

-- The task that `Promote` builds, with its id and the version in force.
unfoldable pub promoted_task : ℕ → String → String → PromoteRequest → Task
promoted_task now id version_id req = record {
  id = id;
  request_id = req.request_id;
  tenant_id = req.tenant_id;
  session_id = req.session_id;
  task_type = req.task_type;
  version_id = version_id;
  tool_name = req.tool_name;
  tool_arguments = req.tool_arguments;
  status = if req.requires_approval then status_waiting_approval else status_queued;
  reason = req.reason;
  error_reason = "";
  audit_ref = "";
  requires_approval = req.requires_approval;
  created_at = now;
  updated_at = now;
}

abbrev pub created_event : Task → ℕ → AuditEvent
created_event task now = record {
  id = 0;
  task_id = task.id;
  action = audit_action_created;
  actor = "api";
  detail = task.status;
  created_at = now;
}

abbrev pub start_failed_task : Task → String → ℕ → Task
start_failed_task created message later = record created {
  status = status_failed;
  error_reason = message;
  audit_ref = "temporal:start_failed";
  updated_at = later;
}

unfoldable pub approved_task : ℕ → String → Task → Task
approved_task now approved_by task = record task {
  status = status_queued;
  error_reason = "";
  audit_ref = "approval:" <> approved_by;
  updated_at = now;
}

unfoldable pub retried_task : ℕ → String → Task → Task
retried_task now retried_by task = record task {
  status = status_queued;
  error_reason = "";
  audit_ref = "retry:" <> retried_by;
  updated_at = now;
}

module _ {S : Type 0} where
  unfoldable pub current_version_id :
      Option (S → Result String String) → S → Result WorkflowError String
  current_version_id none s = ok ""
  current_version_id (some source) s = elim (source s) [
    | ok id ↦ ok id
    | err message ↦ err (external message)
  ]

  -- The branch of a starter that failed.
  unfoldable pub record_start_failure :
      Service S → ℕ → Task → String → S → Result WorkflowError Task × S
  record_start_failure svc later created message s =
      let task = start_failed_task created message later in
      let (updated, s') =
        svc.store.update_task_with_event task
          (record {
            id = 0;
            task_id = task.id;
            action = audit_action_failed;
            actor = "api";
            detail = task.error_reason;
            created_at = task.updated_at;
          })
          s in
      (updated, s')

  unfoldable pub start_promoted : Service S → ℕ → Task → S → Result WorkflowError Task × S
  unfolding record_start_failure should_start_task_on_promote
  start_promoted svc later created s =
      if should_start_task_on_promote created
      then elim svc.starter [
        | none ↦ (ok created, s)
        | some start ↦ elim (start created) [
          | none ↦ (ok created, s)
          | some message ↦ record_start_failure svc later created message s
        ]
      ]
      else (ok created, s)

  -- `Promote` from the point where the version is known.
  unfoldable pub create_promoted : Service S → ℕ → ℕ → Task → S → Result WorkflowError Task × S
  unfolding start_promoted
  create_promoted svc now later task s =
      let (created, s') = svc.store.create_task_with_event task (created_event task now) s in
      elim created [ err x ↦ (err x, s') | ok t ↦ start_promoted svc later t s' ]

  unfoldable pub promote :
      Service S → ℕ → ℕ → PromoteRequest → World S → Result WorkflowError Task × World S
  unfolding current_version_id promoted_task create_promoted
  promote svc now later req w = elim (current_version_id svc.version_source w.state) [
    | err x ↦ (err x, w)
    | ok version_id ↦
        let n = next_uint64 w.task_id_sequence in
        let task = promoted_task now (new_task_id now n) version_id req in
        let (r, s') = create_promoted svc now later task w.state in
        (r, record { task_id_sequence = n; state = s' })
  ]

  -- `ApproveTask` and `RetryTask` read the task first and write it later: the second half takes the
  -- task that was read.
  unfoldable pub write_approval : Service S → ℕ → String → Task → S → Result WorkflowError Task × S
  unfolding approved_task
  write_approval svc now approved_by task s =
      if task.status == status_waiting_approval
      then (let t = approved_task now approved_by task in
          svc.store.update_task_with_event t
            (record {
              id = 0;
              task_id = t.id;
              action = audit_action_approved;
              actor = approved_by;
              detail = t.status;
              created_at = t.updated_at;
            })
            s)
      else (err (invalid_task_transition ("approve from " <> task.status)), s)

  unfoldable pub approve_task : Service S → ℕ → String → String → S → Result WorkflowError Task × S
  unfolding write_approval
  approve_task svc now id approved_by s = elim (svc.store.get_task id s) [
    | err x ↦ (err x, s)
    | ok task ↦ write_approval svc now approved_by task s
  ]

  unfoldable pub write_retry : Service S → ℕ → String → Task → S → Result WorkflowError Task × S
  unfolding retried_task
  write_retry svc now retried_by task s =
      if task.status == status_failed
      then (let t = retried_task now retried_by task in
          svc.store.update_task_with_event t
            (record {
              id = 0;
              task_id = t.id;
              action = audit_action_retried;
              actor = retried_by;
              detail = t.status;
              created_at = t.updated_at;
            })
            s)
      else (err (invalid_task_transition ("retry from " <> task.status)), s)

  unfoldable pub retry_task : Service S → ℕ → String → String → S → Result WorkflowError Task × S
  unfolding write_retry
  retry_task svc now id retried_by s = elim (svc.store.get_task id s) [
    | err x ↦ (err x, s)
    | ok task ↦ write_retry svc now retried_by task s
  ]

  -- The methods that pass a call on to the store.
  unfoldable pub service_get_task : Service S → String → S → Result WorkflowError Task
  service_get_task svc id s = svc.store.get_task id s

  unfoldable pub service_claim_queued_tasks :
      Service S → ℕ → ℤ → S → Result WorkflowError (List Task) × S
  service_claim_queued_tasks svc now limit s = svc.store.claim_queued_tasks now limit s

  unfoldable pub service_update_task : Service S → ℕ → Task → S → Result WorkflowError Task × S
  service_update_task svc now task s = svc.store.update_task (record task { updated_at = now }) s

  unfoldable pub service_list_task_events :
      Service S → String → S → Result WorkflowError (List AuditEvent)
  service_list_task_events svc id s = svc.store.list_task_events id s

  unfoldable pub service_list_tasks :
      Service S → TaskListFilter → S → Result WorkflowError (Page Task)
  service_list_tasks svc filter s = svc.store.list_tasks filter s
