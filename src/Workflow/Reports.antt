-- ===== src/Workflow/Reports.antt =====
-- internal/report/service.go: the report service as the recorder of the worker. The two writes are those of
-- its store: `Save`, and `FinalizeSucceededTaskWithReport` where the store has it, as the Postgres store
-- does. `metadata` is `buildMetadata`, a call of encoding/json; an error is its text.
pub mod Recorder
use opspilot_go_dev_kit.Prelude.{
  ℕ, String, ◌<>◌, Bool, ◌&&◌, not, Option, none, some, Result, ok, err, ◌==◌, if◌then◌else◌, eqb,
  is_some,
}
use opspilot_go_dev_kit.Workflow.Types.{Task, AuditEvent}
use opspilot_go_dev_kit.Workflow.Failure.{fallback_audit_ref}
use opspilot_go_dev_kit.Workflow.Runner.{ExecutionResult, ReportRecorder}

-- A `json.RawMessage` is its text. `ready_at` is none for nil.
pub record Report : Type 0 where
  pub id : String
  pub tenant_id : String
  pub source_task_id : String
  pub version_id : String
  pub report_type : String
  pub status : String
  pub title : String
  pub summary : String
  pub content_uri : String
  pub metadata_json : String
  pub created_by : String
  pub created_at : ℕ
  pub ready_at : Option ℕ

abbrev pub Finalizer : Type 0 → Type 0
Finalizer S = Task → AuditEvent → Report → S → Option String × S

pub record ReportService (S : Type 0) : Type 0 where
  pub save : Report → S → Option String × S
  pub finalizer : Option (Finalizer S)
  pub current_version : Option (S → Result String String)

unfoldable pub report_id_from_task_id : String → String
report_id_from_task_id id = "report-" <> id

-- The version of the report: the task's, or the current one where there is a source of it.
unfoldable pub report_version :
    {S : Type 0} → Option (S → Result String String) → Task → S → Result String String
report_version none task s = ok task.version_id
report_version (some source) task s = if task.version_id == "" then source s else ok task.version_id

module _ (metadata : Task → ExecutionResult → ℕ → String → String) (clock : ℕ) where
  -- `clock` is read where the task has no time of an update.
  abbrev pub report_time : Task → ℕ
  report_time task = if eqb task.updated_at 0 then clock else task.updated_at

  unfoldable pub generated_report : Task → ExecutionResult → String → Report
  unfolding report_id_from_task_id fallback_audit_ref
  generated_report task result version_id = record {
    id = report_id_from_task_id task.id;
    tenant_id = task.tenant_id;
    source_task_id = task.id;
    version_id = version_id;
    report_type = "workflow_summary";
    status = "ready";
    title = "Report for " <> task.id;
    summary = fallback_audit_ref result.detail ("Generated report from task " <> task.id);
    content_uri = "";
    metadata_json = metadata task result (report_time task) version_id;
    created_by = "worker";
    created_at = if eqb task.created_at 0 then report_time task else task.created_at;
    ready_at = some (report_time task);
  }

  module _ {S : Type 0} (svc : ReportService S) where
    unfoldable pub build_generated_report : Task → ExecutionResult → S → Result String Report
    unfolding generated_report report_version
    build_generated_report task result s = elim (report_version svc.current_version task s) [
      | err e ↦ err e
      | ok version_id ↦ ok (generated_report task result version_id)
    ]

    unfoldable pub record_generated_report : Task → ExecutionResult → S → Option String × S
    unfolding build_generated_report
    record_generated_report task result s = elim (build_generated_report task result s) [
      | err e ↦ (some e, s)
      | ok item ↦ svc.save item s
    ]

    -- The version of the report goes to a task that has none.
    unfoldable pub stamped : Report → Task → Task
    stamped item task =
        if task.version_id == "" && not (item.version_id == "")
        then record task { version_id = item.version_id }
        else task

    unfoldable pub finalize_generated_report_task :
        Task → ExecutionResult → AuditEvent → S → Option String × S
    unfolding build_generated_report stamped
    finalize_generated_report_task task result event s =
        elim (build_generated_report task result s) [
          | err e ↦ (some e, s)
          | ok item ↦ elim svc.finalizer [
            | none ↦ (some "report store does not support atomic task finalization", s)
            | some finalize ↦ finalize (stamped item task) event item s
          ]
        ]

    -- The service behind the two interfaces of the runner.
    abbrev pub recorder_of : ReportRecorder S
    recorder_of = record {
      supports_atomic = is_some svc.finalizer;
      record_generated_report = record_generated_report;
      finalize_generated_report_task = finalize_generated_report_task;
    }
