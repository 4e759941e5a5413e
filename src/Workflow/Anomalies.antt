-- ===== src/Workflow/Anomalies.antt =====
-- Runs of the workflow package at the edges of its intent (internal/workflow/service.go, runner.go).
use mathlib.Core.Option
use opspilot_go_dev_kit.Prelude.{
  ℕ, String, ◌≡◌, refl, ap, ◌∙◌, true, false, Option, none, some, List, [], ◌∷◌, ◌++◌, Result, err,
  ok, is_some, ◌==◌, eq_iff, eq_refl, arith, eq_of_str_eq, sym, inl, inr, Bool-cases,
}
use opspilot_go_dev_kit.Prelude.Clock.{next_uint64}
use opspilot_go_dev_kit.Prelude.Dict.{find, find-put_self}
use opspilot_go_dev_kit.Workflow.Types.{
  Task, AuditEvent, PromoteRequest, status_queued, status_failed, task_type_report_generation,
  task_type_approved_tool_execution, audit_action_approved, audit_action_succeeded,
  audit_action_retried, audit_action_failed,
}
use opspilot_go_dev_kit.Workflow.Store.{View}
use opspilot_go_dev_kit.Workflow.Memory.{
  MemoryStore, events_of, next_int64, create_task_with_event, update_task_with_event, get_task,
}
use opspilot_go_dev_kit.Workflow.Memory.Laws.{memory_view}
use opspilot_go_dev_kit.Workflow.Service.{
  Service, World, new_task_id, promote, retry_task, created_event, retried_task, in_memory_service,
  should_start_task_on_promote, promoted_task, start_failed_task,
}
use opspilot_go_dev_kit.Workflow.Runner.{
  ExecutionResult, Executor, Runner, TaskTimes, Pending, failed_pending, executed, success_event,
  process_task,
}
use opspilot_go_dev_kit.Workflow.Lifecycle.{status_at}
use opspilot_go_dev_kit.Workflow.Reports.{
  Report, Finalizer, ReportService, report_version, generated_report, build_generated_report,
  stamped, finalize_generated_report_task, recorder_of,
}
use opspilot_go_dev_kit.Workflow.Reports.Recorder.{ReportStoreLaws, stamped-keeps}
use opspilot_go_dev_kit.Workflow.Lifecycle.Counts.{times, times-snoc}

other_once :
    (log : List AuditEvent) (e : AuditEvent)
    → (e.action == audit_action_approved) ≡ false
    → times audit_action_approved (log ++ e ∷ []) ≡ times audit_action_approved log
other_once log e h = ground (arith, times-snoc audit_action_approved log e)

other_twice :
    (log : List AuditEvent) (d e : AuditEvent)
    → (d.action == audit_action_approved) ≡ false
    → (e.action == audit_action_approved) ≡ false
    → times audit_action_approved ((log ++ d ∷ []) ++ e ∷ []) ≡ times audit_action_approved log
other_twice log d e h k = other_once (log ++ d ∷ []) e k ∙ other_once log d h

promote_start_failed :
    (start : Task → Option String) (message : String) (now later : ℕ) (req : PromoteRequest)
    (w : World MemoryStore)
    → should_start_task_on_promote
        (promoted_task now (new_task_id now (next_uint64 w.task_id_sequence)) "" req)
      ≡ true
    → let id = new_task_id now (next_uint64 w.task_id_sequence) in
      let t = promoted_task now id "" req in
      start t ≡ some message
      → let s = (promote (in_memory_service (some start) none) now later req w).1.state in
        (find id s.tasks ≡ some (start_failed_task t message later))
        × (times audit_action_approved (events_of id s)
            ≡ times audit_action_approved (events_of id w.state))
unfolding promote create_task_with_event update_task_with_event
promote_start_failed start message now later req w on st =
    let id = new_task_id now (next_uint64 w.task_id_sequence) in
    let t = promoted_task now id "" req in
    let n = next_int64 w.state.next_event_id in
    let d : AuditEvent = record (created_event t now) { id = n } in
    let e : AuditEvent = record {
      id = next_int64 n;
      task_id = id;
      action = audit_action_failed;
      actor = "api";
      detail = message;
      created_at = later;
    } in
    let log_eq : events_of id
          (promote (in_memory_service (some start) none) now later req w).1.state
        ≡ (events_of id w.state ++ d ∷ []) ++ e ∷ [] =
      rw (on, st, find-put_self, find-put_self, find-put_self) in
    (
      rw (on, st, find-put_self, find-put_self),
      ap (times audit_action_approved) log_eq ∙ other_twice (events_of id w.state) d e refl refl,
    )

retry_failed :
    (start : Task → Option String) (now : ℕ) (by : String) (t : Task) (s : MemoryStore)
    → find t.id s.tasks ≡ some t
    → t.status ≡ status_failed
    → let s' = (retry_task (in_memory_service (some start) none) now t.id by s).1 in
      (find t.id s'.tasks ≡ some (retried_task now by t))
      × (times audit_action_approved (events_of t.id s')
          ≡ times audit_action_approved (events_of t.id s))
unfolding retry_task get_task update_task_with_event
retry_failed start now by t s f st =
    let e : AuditEvent = record {
      id = next_int64 s.next_event_id;
      task_id = t.id;
      action = audit_action_retried;
      actor = by;
      detail = status_queued;
      created_at = now;
    } in
    let log_eq : events_of t.id (retry_task (in_memory_service (some start) none) now t.id by s).1
        ≡ events_of t.id s ++ e ∷ [] =
      rw (f, retry_task) (rw (st, f, find-put_self)) in
    (
      rw (f, retry_task) (rw (st, f, find-put_self)),
      ap (times audit_action_approved) log_eq ∙ other_once (events_of t.id s) e refl,
    )

-- A task that is promoted to wait for an approval, and whose external workflow fails to start, is
-- queued by a retry: the worker may then execute the tool, and the log holds no approval.
pub retry_skips_approval :
    (start : Task → Option String) (message : Task → String) (now later retry_at : ℕ) (by : String)
    (req : PromoteRequest) (w : World MemoryStore)
    → req.task_type ≡ task_type_approved_tool_execution
    → req.requires_approval ≡ true
    → ((t : Task) → start t ≡ some (message t))
    → let svc = in_memory_service (some start) none in
      let id = new_task_id now (next_uint64 w.task_id_sequence) in
      find id w.state.events ≡ none
      → let s = (retry_task svc retry_at id by (promote svc now later req w).1.state).1 in
        (status_at memory_view s id ≡ some status_queued)
        × (times audit_action_approved (events_of id s) ≡ 0)
unfolding promoted_task should_start_task_on_promote retried_task
retry_skips_approval start message now later retry_at by req w ty gate st fresh =
    let id = new_task_id now (next_uint64 w.task_id_sequence) in
    let t = promoted_task now id "" req in
    let failed = start_failed_task t (message t) later in
    let born = promote_start_failed start (message t) now later req w (rw (ty, gate)) (st t) in
    let again =
      retry_failed start retry_at by failed
        (promote (in_memory_service (some start) none) now later req w).1.state born.0 refl in
    (ap (Option.map (λ u. u.status)) again.0, again.1 ∙ (born.1 ∙ rw fresh))

-- The task that a finalization with a version writes.
stamped-version :
    (metadata : Task → ExecutionResult → ℕ → String → String) (clock : ℕ) {S : Type 0}
    (svc : ReportService S) (result : ExecutionResult) (version : String) (t : Task)
    → t.version_id ≡ ""
    → (stamped metadata clock svc (generated_report metadata clock t result version) t).version_id
      ≡ version
unfolding stamped generated_report
stamped-version metadata clock svc result version t blank = elim (Bool-cases (version == "")) [
  | inl e ↦ rw (stamped, blank, e) (sym (eq_of_str_eq e))
  | inr e ↦ rw (stamped, blank, e)
]

version_looked_up :
    {S : Type 0} (source : Option (S → Result String String)) (lookup : S → Result String String)
    (version : String) (t : Task) (s : S)
    → (t.version_id == "") ≡ true
    → source ≡ some lookup
    → lookup s ≡ ok version
    → report_version source t s ≡ ok version
unfolding report_version
version_looked_up source lookup version t s blank given good =
    rw (given, report_version, blank) good

finalize_with_version :
    (metadata : Task → ExecutionResult → ℕ → String → String) (clock : ℕ) {S : Type 0}
    (svc : ReportService S) (f : Finalizer S) (lookup : S → Result String String) (version : String)
    (t : Task) (result : ExecutionResult) (e : AuditEvent) (s : S)
    → t.version_id ≡ ""
    → svc.current_version ≡ some lookup
    → lookup s ≡ ok version
    → svc.finalizer ≡ some f
    → let item = generated_report metadata clock t result version in
      finalize_generated_report_task metadata clock svc t result e s
      ≡ f (stamped metadata clock svc item t) e item s
unfolding finalize_generated_report_task build_generated_report
finalize_with_version metadata clock svc f lookup version t result e s blank source good given =
    let found =
      version_looked_up svc.current_version lookup version t s (blank_text blank) source good in
    rw (finalize_generated_report_task, build_generated_report, found, given)
  where
    blank_text : {id : String} → id ≡ "" → (id == "") ≡ true
    blank_text e = rw e

-- A report task whose execution succeeded, whose version the worker cannot look up, and for which the report
-- service then does look it up: the two calls of the version service answer differently. The task,
-- marked failed by then, is handed to the atomic finalization with the event of a success. If the store
-- takes it, the task is stored as failed, with the version and with a log that ends with a success, and
-- the runner goes on without an error.
pub success_logged_for_failed_task :
    (metadata : Task → ExecutionResult → ℕ → String → String) (clock : ℕ) {S : Type 0} (v : View S)
    (IsGood : S → Type 0) (service : Service S) (executor : Executor) (svc : ReportService S)
    (f : Finalizer S) (first second : S → Result String String) (clocks : TaskTimes)
    (result : ExecutionResult) (message version : String) (t : Task) (s : S)
    → ReportStoreLaws v IsGood svc
    → executor t ≡ (result, none)
    → t.task_type ≡ task_type_report_generation
    → t.version_id ≡ ""
    → service.version_source ≡ some first
    → first s ≡ err message
    → svc.current_version ≡ some second
    → second s ≡ ok version
    → svc.finalizer ≡ some f
    → ((u : Task) (e : AuditEvent) (item : Report) → u.id ≡ t.id → (f u e item s).0 ≡ none)
    → let r : Runner S = record {
      service = service;
      executor = executor;
      reports = some (recorder_of metadata clock svc);
    } in
      let (failure, s') = process_task r clocks t s in
      (failure ≡ none)
      × ((u : Task) × (v.task_at s' t.id ≡ some u)
          × (u.status ≡ status_failed)
          × (u.version_id ≡ version))
      × ((e : AuditEvent) × (v.log_at s' t.id ≡ v.log_at s t.id ++ e ∷ [])
          × (e.action ≡ audit_action_succeeded))
unfolding process_task stamped
success_logged_for_failed_task metadata clock {S = S} v IsGood service executor svc f first second
      clocks result message version t s l ex ty blank src bad src' good fin takes =
    let r : Runner S = record {
      service = service;
      executor = executor;
      reports = some (recorder_of metadata clock svc);
    } in
    let p : Pending =
      failed_pending clocks.unversioned result message
        (executed clocks.executed result none t).task in
    let e : AuditEvent = success_event result p.task in
    let item = generated_report metadata clock p.task result version in
    let u : Task = stamped metadata clock svc item p.task in
    let kept = stamped-keeps metadata clock v IsGood svc l item p.task in
    let made =
      finalize_with_version metadata clock svc f second version p.task result e s blank src' good
        fin in
    let done : (finalize_generated_report_task metadata clock svc p.task result e s).0 ≡ none =
      ap (λ x. x.0) made ∙ takes u e item kept.0 in
    let atomic : is_some svc.finalizer ≡ true = ap is_some fin in
    let run : process_task r clocks t s
        ≡ (none, (finalize_generated_report_task metadata clock svc p.task result e s).1) =
      ground (
        arith,
        done,
        atomic,
        eq_iff t.task_type task_type_report_generation,
        eq_iff t.version_id "",
      ) in
    let end : (process_task r clocks t s).1 ≡ (f u e item s).1 =
      ap (λ x. x.1) run ∙ ap (λ x. x.1) made in
    let w = l.finalize_lem f u e item s fin (takes u e item kept.0) in
    (
      ap (λ x. x.0) run,
      (
        u,
        ap (λ x. v.task_at x t.id) end ∙ (w.tasks t.id ∙ rw (kept.0, eq_refl t.id)),
        kept.1,
        stamped-version metadata clock svc result version p.task blank,
      ),
      (
        record e { id = v.next_id s },
        ap (λ x. v.log_at x t.id) end ∙ (w.logs t.id ∙ rw (eq_refl t.id)),
        refl,
      ),
    )
