-- ===== src/Workflow/Scenarios/Edges.antt =====
-- Runs at the edges of the workflow package's intent, at concrete inputs.
use opspilot_go_dev_kit.Prelude.{
  ◌+◌, String, ◌≡◌, refl, Option, none, some, [], ◌∷◌, ◌++◌, map, Result, err, keep,
}
use opspilot_go_dev_kit.Prelude.Dict.{find, put}
use opspilot_go_dev_kit.Prelude.Sorting.{sort}
use opspilot_go_dev_kit.Prelude.Paging.{pos}
use opspilot_go_dev_kit.Workflow.Types.{
  Task, AuditEvent, status_queued, status_failed, status_waiting_approval, audit_action_claimed,
  audit_action_approved, audit_action_succeeded,
}
use opspilot_go_dev_kit.Workflow.Memory.{
  MemoryStore, events_of, claim_queued_tasks, get_task, create_task_with_event,
  update_task_with_event, claim_one,
}
use opspilot_go_dev_kit.Workflow.Memory.Laws.{memory_view, IsKeyed}
use opspilot_go_dev_kit.Workflow.Memory.Claims.{memory_store_laws}
use opspilot_go_dev_kit.Workflow.Service.{
  in_memory_service, service_claim_queued_tasks, promote, write_approval, retry_task, Service,
}
use opspilot_go_dev_kit.Workflow.Runner.{
  TaskTimes, ExecutionResult, Runner, placeholder_execute, process_task,
}
use opspilot_go_dev_kit.Workflow.Lifecycle.{status_at}
use opspilot_go_dev_kit.Workflow.Lifecycle.Counts.{times}
use opspilot_go_dev_kit.Workflow.Reports.{ReportService, recorder_of}
use opspilot_go_dev_kit.Workflow.Reports.Recorder.{ReportStoreLaws}
use opspilot_go_dev_kit.Workflow.Interleaved.{stale_approval_requeues}
use opspilot_go_dev_kit.Workflow.Anomalies.{retry_skips_approval, success_logged_for_failed_task}
use opspilot_go_dev_kit.Workflow.Service.{approve_task}
use opspilot_go_dev_kit.Workflow.Scenarios.Queue.{task_of, busy, three}
use opspilot_go_dev_kit.Workflow.Scenarios.{
  noon, tool_request, start, first_id, report_store, report_store-laws, some_version,
  plain_metadata,
}

abbrev waiting : Task
waiting = task_of "task-c" status_waiting_approval 5

abbrev one_waiting : MemoryStore
one_waiting = record { tasks = ("task-c", waiting) ∷ []; events = []; next_event_id = 0 }

one_waiting-IsKeyed : IsKeyed one_waiting
one_waiting-IsKeyed = ((refl, tt), (tt, tt))

abbrev plain_service : Service MemoryStore
plain_service = in_memory_service none none

stale_approval_requeues_example :
    let first = approve_task plain_service 40 "task-c" "ann" one_waiting in
    let taken = (service_claim_queued_tasks plain_service 41 (pos 5) first.1).1 in
    let second = write_approval plain_service 42 "bob" waiting taken in
    let end = (service_claim_queued_tasks plain_service 43 (pos 5) second.1).1 in
    (status_at memory_view second.1 "task-c" ≡ some status_queued)
    × (map (λ e. e.action) (events_of "task-c" end)
        ≡ audit_action_approved ∷ audit_action_claimed ∷ audit_action_approved
          ∷ audit_action_claimed ∷ [])
unfolding find put approve_task write_approval service_claim_queued_tasks update_task_with_event
    get_task claim_queued_tasks claim_one sort keep
stale_approval_requeues_example =
    stale_approval_requeues memory_view IsKeyed plain_service memory_store_laws 40 41 42 43 (pos 5)
      (pos 5) "task-c" "ann" "bob" waiting one_waiting one_waiting-IsKeyed refl refl refl refl refl
      refl

abbrev no_temporal : Task → Option String
no_temporal _ = some "connection refused"

retry_skips_approval_example :
    let svc = in_memory_service (some no_temporal) none in
    let s =
      (retry_task svc
        (noon + 9)
        first_id
        "ann"
        (promote svc noon (noon + 1) tool_request start).1.state).1 in
    (status_at memory_view s first_id ≡ some status_queued)
    × (times audit_action_approved (events_of first_id s) ≡ 0)
unfolding find
retry_skips_approval_example =
    retry_skips_approval no_temporal (λ _. "connection refused") noon (noon + 1) (noon + 9) "ann"
      tool_request start refl refl (λ _. refl) refl

abbrev unversioned : MemoryStore → Result String String
unversioned _ = err "version store unavailable"

abbrev versioned : ReportService MemoryStore
versioned = record report_store { current_version = some some_version }

versioned-laws : ReportStoreLaws memory_view IsKeyed versioned
versioned-laws = record {
  save_lem = report_store-laws.save_lem;
  save_good = report_store-laws.save_good;
  finalize_lem = report_store-laws.finalize_lem;
  finalize_err = report_store-laws.finalize_err;
  finalize_good = report_store-laws.finalize_good;
}

abbrev readings : TaskTimes
readings = record { executed = 50; unversioned = 51; unrecorded = 52 }

abbrev placeholder_result : ExecutionResult
placeholder_result = record {
  audit_ref = "worker:placeholder_report_generation";
  detail = "report_generation completed";
}

success_logged_for_failed_task_example :
    let r : Runner MemoryStore = record {
      service = in_memory_service none (some unversioned);
      executor = placeholder_execute;
      reports = some (recorder_of plain_metadata 53 versioned);
    } in
    let (failure, s') = process_task r readings busy three in
    (failure ≡ none)
    × ((u : Task) × (find "task-c" s'.tasks ≡ some u)
        × (u.status ≡ status_failed)
        × (u.version_id ≡ "version-1"))
    × ((e : AuditEvent) × (events_of "task-c" s' ≡ events_of "task-c" three ++ e ∷ [])
        × (e.action ≡ audit_action_succeeded))
unfolding placeholder_execute create_task_with_event
success_logged_for_failed_task_example =
    success_logged_for_failed_task plain_metadata 53 memory_view IsKeyed
      (in_memory_service none (some unversioned)) placeholder_execute versioned
      (λ t e item s. (none, (create_task_with_event t e s).1)) unversioned some_version readings
      placeholder_result "version store unavailable" "version-1" busy three versioned-laws refl refl
      refl refl refl refl refl refl (λ u e i k. refl)
