-- ===== src/Workflow/Scenarios.antt =====
-- Concrete runs of the workflow package: tests of the definitions, and the theorems at inputs that meet
-- their hypotheses.
mod Queue
mod Edges
use opspilot_go_dev_kit.Prelude.{
  zero, ◌<◌, ap, subst, or_else, ℕ, suc, ◌+◌, ◌≤◌, String, ◌≡◌, refl, true, false, not, Option,
  none, some, List, [], ◌∷◌, ◌++◌, map, min, Permᴰ, Result, ok, err, is_ok, length, keep, count_if,
  str-ne_of_false,
}
use opspilot_go_dev_kit.Prelude.Dict.{find, put, values}
use opspilot_go_dev_kit.Prelude.Sorting.{IsSorted, sort}
use opspilot_go_dev_kit.Prelude.Strings.{trim_space, to_lower}
use opspilot_go_dev_kit.Prelude.Decimal.{decimal}
use opspilot_go_dev_kit.Prelude.Paging.{pos}
use opspilot_go_dev_kit.Workflow.Types.{
  Task, AuditEvent, PromoteRequest, TaskListFilter, status_queued, status_running, status_failed,
  status_succeeded, status_waiting_approval, task_type_report_generation,
  task_type_approved_tool_execution, audit_action_claimed, audit_action_approved,
  audit_action_retried, audit_action_succeeded,
}
use opspilot_go_dev_kit.Workflow.Memory.{
  MemoryStore, events_of, claim_queued_tasks, created_before, is_queued, skips, listed_before,
  list_tasks, get_task, create_task_with_event, update_task_with_event, claim_one,
}
use opspilot_go_dev_kit.Workflow.Memory.Laws.{
  memory_view, IsKeyed, memory_create, memory_create_good,
}
use opspilot_go_dev_kit.Workflow.Memory.Claims.{memory_store_laws}
use opspilot_go_dev_kit.Workflow.Memory.Fifo.{running_at, claim_fifo}
use opspilot_go_dev_kit.Workflow.Memory.Listing.{task_rows, list_tasks_of_perm, list_tasks_pages}
use opspilot_go_dev_kit.Workflow.Service.{
  World, in_memory_service, service_claim_queued_tasks, new_task_id, promote, write_approval,
  retry_task,
}
use opspilot_go_dev_kit.Workflow.Failure.{success_or_failure_detail}
use opspilot_go_dev_kit.Workflow.Runner.{
  TaskTimes, ExecutionResult, ReportRecorder, Runner, placeholder_execute, process_task,
  process_next_batch,
}
use opspilot_go_dev_kit.Workflow.Lifecycle.{unborn, status_at}
use opspilot_go_dev_kit.Workflow.Lifecycle.Worker.{IsSound, RecorderLaws}
use opspilot_go_dev_kit.Workflow.Lifecycle.Reach.{
  promotes, retries, runs, Reach, here, next, Inv, Reach-Inv,
}
use opspilot_go_dev_kit.Workflow.Lifecycle.Counts.{times, succeeded_once, success_logged_once}
use opspilot_go_dev_kit.Workflow.Lifecycle.Between.{retry_between_claims}
use opspilot_go_dev_kit.Workflow.Reports.{Finalizer, ReportService, finalize_generated_report_task}
use opspilot_go_dev_kit.Workflow.Reports.Recorder.{ReportStoreLaws, wired, wired-IsSound}
use opspilot_go_dev_kit.Workflow.Store.{Wrote}

-- The clock of the runs, in 2026.
abbrev pub noon : ℕ
noon = 63909900000000000000

abbrev pub report_request : PromoteRequest
report_request = record {
  request_id = "req-1";
  tenant_id = "acme";
  session_id = "s-1";
  task_type = task_type_report_generation;
  reason = "workflow_required";
  requires_approval = false;
  tool_name = "";
  tool_arguments = "";
}

abbrev pub tool_request : PromoteRequest
tool_request = record report_request {
  task_type = task_type_approved_tool_execution;
  requires_approval = true;
  tool_name = "ticket_comment_create";
}

-- A report service over the store of the tasks, whose finalization writes the task and its event as the
-- transaction of the Postgres store does.
abbrev pub report_store : ReportService MemoryStore
report_store = record {
  save = λ item s. (none, s);
  finalizer = some (λ t e item s. (none, (create_task_with_event t e s).1));
  current_version = none;
}

pub report_store-laws : ReportStoreLaws memory_view IsKeyed report_store
unfolding create_task_with_event
report_store-laws = record {
  save_lem = λ item s. record { tasks = λ j. refl; logs = λ j. refl };
  save_good = λ item s g. g;
  finalize_lem = λ f t e item s h done.
      subst (λ g. Wrote memory_view t e s (g t e item s).1) (the_finalizer f h)
        (memory_create t t e s refl).1;
  finalize_err = λ f t e item x s h failed. absurd (
      let done : (f t e item s).0 ≡ none =
        subst (λ g. (g t e item s).0 ≡ none) (the_finalizer f h) refl in
      cc);
  finalize_good = λ f t e item s h g.
      subst (λ k. IsKeyed (k t e item s).1) (the_finalizer f h) (memory_create_good t e s g);
}
  where
    the_finalizer :
        (f : Finalizer MemoryStore)
        → report_store.finalizer ≡ some f
        → ◌≡◌ {A = Finalizer MemoryStore} (λ t e item s. (none, (create_task_with_event t e s).1)) f
    the_finalizer f h =
        ap (λ o. or_else o (λ t e item s. (none, (create_task_with_event t e s).1))) h

abbrev pub some_version : MemoryStore → Result String String
some_version _ = ok "version-1"

abbrev pub plain_metadata : Task → ExecutionResult → ℕ → String → String
plain_metadata _ _ _ _ = "{}"

abbrev worker : Runner MemoryStore
worker =
    wired plain_metadata (noon + 4) (in_memory_service none (some some_version)) placeholder_execute
      report_store

abbrev clocks : Task → TaskTimes
clocks _ = record { executed = noon + 3; unversioned = noon + 4; unrecorded = noon + 5 }

abbrev pub start : World MemoryStore
start = record {
  task_id_sequence = 0;
  state = record { tasks = []; events = []; next_event_id = 0 };
}

abbrev promoted : World MemoryStore
promoted = (promote worker.service noon (noon + 1) report_request start).1

abbrev worked : World MemoryStore
worked = record promoted {
  state = (process_next_batch worker (noon + 2) clocks (pos 5) promoted.state).1;
}

abbrev pub first_id : String
first_id = new_task_id noon 1

first_id_test : first_id ≡ "task-1774303200000000000-1"
unfolding new_task_id decimal
first_id_test = refl

worked_test : status_at memory_view worked.state first_id ≡ some status_succeeded
unfolding promote process_next_batch new_task_id decimal create_task_with_event
    update_task_with_event claim_queued_tasks sort find put placeholder_execute
    success_or_failure_detail trim_space to_lower keep service_claim_queued_tasks process_task
    claim_one finalize_generated_report_task
worked_test = refl

worker-IsSound : IsSound memory_view IsKeyed worker
worker-IsSound =
    wired-IsSound plain_metadata (noon + 4) memory_view IsKeyed
      (in_memory_service none (some some_version)) placeholder_execute report_store
      memory_store_laws report_store-laws

start-Inv : Inv memory_view IsKeyed worker worker-IsSound start
unfolding find
start-Inv = record { good = (tt, tt); audited = λ j. unborn }

to_worked : Reach memory_view worker start worked
unfolding find
to_worked =
    next (next here (promotes noon (noon + 1) report_request start refl))
      (runs (noon + 2) clocks (pos 5) promoted)

Reach-Inv_example : Inv memory_view IsKeyed worker worker-IsSound worked
Reach-Inv_example = Reach-Inv memory_view IsKeyed worker worker-IsSound start-Inv to_worked

-- A task of a type that the executor does not know fails, is retried and fails again.
abbrev odd_promoted : World MemoryStore
odd_promoted =
    (promote worker.service noon (noon + 1) (record report_request { task_type = "odd" }) start).1

abbrev failed_once : World MemoryStore
failed_once = record odd_promoted {
  state = (process_next_batch worker (noon + 2) clocks (pos 5) odd_promoted.state).1;
}

abbrev retried_once : World MemoryStore
retried_once = record failed_once {
  state = (retry_task worker.service (noon + 6) first_id "ann" failed_once.state).1;
}

abbrev failed_twice : World MemoryStore
failed_twice = record retried_once {
  state = (process_next_batch worker (noon + 7) clocks (pos 5) retried_once.state).1;
}

abbrev odd_log : List AuditEvent
odd_log = events_of first_id failed_twice.state

abbrev event_at : ℕ → List AuditEvent → AuditEvent
event_at n [] = record {
  id = 0;
  task_id = "";
  action = "";
  actor = "";
  detail = "";
  created_at = 0;
}
event_at zero (e ∷ es) = e
event_at (suc n) (e ∷ es) = event_at n es

to_failed_twice : Reach memory_view worker start failed_twice
unfolding find
to_failed_twice =
    next
      (next
        (next
          (next here
            (promotes noon (noon + 1) (record report_request { task_type = "odd" }) start refl))
          (runs (noon + 2) clocks (pos 5) odd_promoted))
        (retries (noon + 6) first_id "ann" failed_once))
      (runs (noon + 7) clocks (pos 5) retried_once)

retry_between_claims_example :
    0 < times audit_action_retried (event_at 2 odd_log ∷ event_at 3 odd_log ∷ [])
unfolding promote process_next_batch new_task_id decimal create_task_with_event
    update_task_with_event claim_queued_tasks sort find put placeholder_execute
    success_or_failure_detail trim_space to_lower keep service_claim_queued_tasks process_task
    claim_one retry_task get_task
retry_between_claims_example =
    retry_between_claims memory_view IsKeyed worker worker-IsSound first_id
      (event_at 0 odd_log ∷ []) (event_at 2 odd_log ∷ event_at 3 odd_log ∷ [])
      (event_at 5 odd_log ∷ []) (event_at 1 odd_log) (event_at 4 odd_log) start-Inv to_failed_twice
      refl refl refl

success_logged_once_example :
    let log = events_of first_id worked.state in
    (times audit_action_succeeded log
      ≡ succeeded_once (status_at memory_view worked.state first_id))
    × (times audit_action_succeeded log ≤ times audit_action_claimed log)
success_logged_once_example =
    success_logged_once memory_view IsKeyed worker worker-IsSound first_id start-Inv to_worked
