-- ===== src/Workflow/Runner.antt =====
-- internal/workflow/runner.go and temporal_executor.go: the worker that claims and executes tasks.
-- An `Executor` answers with its result and, if it failed, the text of its error; the interfaces of the
-- Temporal SDK behind it are parameters. `now` is the clock at a claim; `times` holds its later readings.
use text.Mathlib.Text.{starts_with}
use opspilot_go_dev_kit.Prelude.{
  ℕ, String, ◌<>◌, Bool, ◌&&◌, ◌||◌, not, Option, none, some, List, [], ◌∷◌, Result, ok, err, ◌==◌,
  if◌then◌else◌, length, is_some,
}
use opspilot_go_dev_kit.Prelude.Paging.{ℤ}
use opspilot_go_dev_kit.Workflow.Types.{
  Task, AuditEvent, WorkflowError, status_succeeded, status_failed, task_type_report_generation,
  task_type_approved_tool_execution, audit_action_succeeded, audit_action_failed,
}
use opspilot_go_dev_kit.Workflow.Failure.{
  fallback_audit_ref, summarize_execution_error, success_or_failure_detail,
}
use opspilot_go_dev_kit.Workflow.Service.{Service, service_claim_queued_tasks}

pub record ExecutionResult : Type 0 where
  pub audit_ref : String
  pub detail : String

-- Go returns the result beside the error.
abbrev pub Executor : Type 0
Executor = Task → ExecutionResult × Option String

-- `ReportRecorder`, with the optional `AtomicReportRecorder`: `supports_atomic` says that the recorder
-- has those methods and that `SupportsAtomicFinalization()` is true. A call answers with the text of
-- its error, if it failed.
pub record ReportRecorder (S : Type 0) : Type 0 where
  pub supports_atomic : Bool
  pub record_generated_report : Task → ExecutionResult → S → Option String × S
  pub finalize_generated_report_task : Task → ExecutionResult → AuditEvent → S → Option String × S

pub record Runner (S : Type 0) : Type 0 where
  pub service : Service S
  pub executor : Executor
  pub reports : Option (ReportRecorder S)

-- `PlaceholderExecutor.Execute`
unfoldable pub placeholder_execute : Executor
placeholder_execute task =
    if task.task_type == task_type_report_generation
    then (
      record {
        audit_ref = "worker:placeholder_report_generation";
        detail = "report_generation completed";
      },
      none,
    )
    else if task.task_type == task_type_approved_tool_execution
    then (
      record {
        audit_ref = "worker:placeholder_approved_tool_execution";
        detail = "approved_tool_execution completed";
      },
      none,
    )
    else (
      record { audit_ref = "worker:placeholder_failed"; detail = "" },
      some ("unsupported task type: " <> task.task_type),
    )

-- `TemporalExecutor`
pub record TemporalExecutor : Type 0 where
  pub report_runner : Option Executor
  pub approval_runner : Option Executor
  pub fallback : Executor

abbrev run_or : Option Executor → Executor → Executor
run_or none other = other
run_or (some run) other = run

unfoldable pub temporal_execute : TemporalExecutor → Executor
temporal_execute e task =
    if task.task_type == task_type_report_generation && is_some e.report_runner
    then run_or e.report_runner e.fallback task
    else if task.task_type == task_type_approved_tool_execution
        && is_some e.approval_runner
        && (starts_with task.audit_ref "approval:" || starts_with task.audit_ref "retry:")
    then run_or e.approval_runner e.fallback task
    else e.fallback task

-- The readings of the clock in one round: after the execution, after a lookup of the version that failed,
-- and after a report that could not be made.
pub record TaskTimes : Type 0 where
  pub executed : ℕ
  pub unversioned : ℕ
  pub unrecorded : ℕ

-- The task and the action as the loop carries them to `UpdateTaskWithEvent`.
pub record Pending : Type 0 where
  pub task : Task
  pub action : String

-- The assignments of each failure branch.
unfoldable pub failed_pending : ℕ → ExecutionResult → String → Task → Pending
failed_pending later result message task = record {
  task = record task {
    status = status_failed;
    error_reason = summarize_execution_error message;
    audit_ref = fallback_audit_ref result.audit_ref "worker:placeholder_failed";
    updated_at = later;
  };
  action = audit_action_failed;
}

-- The outcome of `Execute`.
unfoldable pub executed : ℕ → ExecutionResult → Option String → Task → Pending
unfolding failed_pending
executed later result (some message) task = failed_pending later result message task
executed later result none task = record {
  task = record task {
    status = status_succeeded;
    error_reason = "";
    audit_ref = fallback_audit_ref result.audit_ref "worker:placeholder_succeeded";
    updated_at = later;
  };
  action = audit_action_succeeded;
}

-- `successEvent`
unfoldable pub success_event : ExecutionResult → Task → AuditEvent
success_event result task = record {
  id = 0;
  task_id = task.id;
  action = audit_action_succeeded;
  actor = "worker";
  detail = success_or_failure_detail audit_action_succeeded result.detail "" task.status;
  created_at = task.updated_at;
}

abbrev pub outcome_event : ExecutionResult → Pending → AuditEvent
outcome_event result p = record {
  id = 0;
  task_id = p.task.id;
  action = p.action;
  actor = "worker";
  detail = success_or_failure_detail p.action result.detail p.task.error_reason p.task.status;
  created_at = p.task.updated_at;
}

module _ {S : Type 0} where
  -- The version lookup in front of the report. A lookup that fails marks the task and goes on.
  unfoldable pub with_version :
      Option (S → Result String String) → ℕ → ExecutionResult → Pending → S → Pending
  unfolding failed_pending
  with_version none later result p s = p
  with_version (some source) later result p s =
      if p.task.version_id == ""
      then elim (source s) [
        | ok id ↦ record p { task = record p.task { version_id = id } }
        | err message ↦ failed_pending later result message p.task
      ]
      else p

  -- The report branch: nothing is pending where the recorder has finalized the task (`continue`).
  unfoldable pub record_report :
      ReportRecorder S → ℕ → ExecutionResult → Pending → S → Option Pending × S
  unfolding failed_pending success_event
  record_report r later result p s =
      if r.supports_atomic
      then (let (failure, s') =
            r.finalize_generated_report_task p.task result (success_event result p.task) s in
          (
            elim failure [
              | none ↦ none
              | some message ↦ some (failed_pending later result message p.task)
            ],
            s',
          ))
      else (let (failure, s') = r.record_generated_report p.task result s in
          (
            elim failure [
              | none ↦ some p
              | some message ↦ some (failed_pending later result message p.task)
            ],
            s',
          ))

  -- The body of the loop up to the last update.
  unfoldable pub settle_report :
      Runner S → TaskTimes → ExecutionResult → Pending → S → Option Pending × S
  unfolding with_version record_report
  settle_report r times result p s = elim r.reports [
    | none ↦ (some p, s)
    | some recorder ↦
        record_report recorder times.unrecorded result
          (with_version r.service.version_source times.unversioned result p s) s
  ]

  unfoldable pub settle : Runner S → TaskTimes → Task → S → ExecutionResult × Option Pending × S
  unfolding executed settle_report
  settle r times task s =
      let (result, exec_err) = r.executor task in
      let p = executed times.executed result exec_err task in
      if not (is_some exec_err) && p.task.task_type == task_type_report_generation
      then (let (q, s') = settle_report r times result p s in (result, q, s'))
      else (result, some p, s)

  -- One round of the loop; the error is that of `UpdateTaskWithEvent`.
  unfoldable pub process_task : Runner S → TaskTimes → Task → S → Option WorkflowError × S
  unfolding settle
  process_task r times task s =
      let (result, pending, s₁) = settle r times task s in
      elim pending [
        | none ↦ (none, s₁)
        | some p ↦
            let (updated, s₂) =
              r.service.store.update_task_with_event p.task (outcome_event result p) s₁ in
            elim updated [ ok _ ↦ (none, s₂) | err x ↦ (some x, s₂) ]
      ]

  -- The loop over the claimed tasks returns at the first error.
  unfoldable pub process_each :
      Runner S → (Task → TaskTimes) → List Task → S → Option WorkflowError × S
  process_each r times [] s = (none, s)
  process_each r times (task ∷ rest) s =
      let (failure, s₁) = process_task r (times task) task s in
      let others = process_each r times rest s₁ in
      elim failure [ none ↦ others | some x ↦ (some x, s₁) ]

  unfoldable pub process_next_batch :
      Runner S → ℕ → (Task → TaskTimes) → ℤ → S → Result WorkflowError ℕ × S
  unfolding process_each
  process_next_batch r now times limit s =
      let (claimed, s₁) = service_claim_queued_tasks r.service now limit s in
      elim claimed [
        | err x ↦ (err x, s₁)
        | ok tasks ↦
            let (failure, s₂) = process_each r times tasks s₁ in
            elim failure [ none ↦ (ok (length tasks), s₂) | some x ↦ (err x, s₂) ]
      ]
