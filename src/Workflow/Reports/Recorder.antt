-- ===== src/Workflow/Reports/Recorder.antt =====
-- The report service as a recorder (internal/report/service.go), and the worker that cmd/worker/main.go
-- wires: its report service looks the version up where the worker does.
use opspilot_go_dev_kit.Prelude.{
  ℕ, String, ◌≡◌, ◌&&◌, not, refl, ap, subst, inl, inr, true, Option, none, some, Result, err,
  is_some, or_else, ◌==◌, Bool-cases, Option-cases, Result-cases,
}
use opspilot_go_dev_kit.Workflow.Types.{Task, AuditEvent}
use opspilot_go_dev_kit.Workflow.Store.{View, Same, Wrote, StoreLaws}
use opspilot_go_dev_kit.Workflow.Service.{Service}
use opspilot_go_dev_kit.Workflow.Runner.{ExecutionResult, Executor, Runner}
use opspilot_go_dev_kit.Workflow.Reports.{
  Report, Finalizer, ReportService, report_version, build_generated_report, record_generated_report,
  stamped, finalize_generated_report_task, recorder_of,
}
use opspilot_go_dev_kit.Workflow.Lifecycle.Worker.{RecorderLaws, IsSound}

-- What a store of reports promises: saving a report changes no task and no log, and a finalization writes
-- the task with its event, or fails and leaves both.
pub record ReportStoreLaws {S : Type 0} (v : View S) (IsGood : S → Type 0) (svc : ReportService S)
    : Type 0 where
  pub save_lem : (item : Report) (s : S) → Same v s (svc.save item s).1
  pub save_good : (item : Report) (s : S) → IsGood s → IsGood (svc.save item s).1
  pub finalize_lem :
      (f : Finalizer S) (t : Task) (e : AuditEvent) (item : Report) (s : S)
      → svc.finalizer ≡ some f
      → (f t e item s).0 ≡ none
      → Wrote v t e s (f t e item s).1
  pub finalize_err :
      (f : Finalizer S) (t : Task) (e : AuditEvent) (item : Report) (x : String) (s : S)
      → svc.finalizer ≡ some f
      → (f t e item s).0 ≡ some x
      → Same v s (f t e item s).1
  pub finalize_good :
      (f : Finalizer S) (t : Task) (e : AuditEvent) (item : Report) (s : S)
      → svc.finalizer ≡ some f
      → IsGood s
      → IsGood (f t e item s).1

module _ (metadata : Task → ExecutionResult → ℕ → String → String) (clock : ℕ) {S : Type 0}
    (v : View S) (IsGood : S → Type 0) (svc : ReportService S)
    (l : ReportStoreLaws v IsGood svc) where
  unchanged : (s : S) → Same v s s
  unchanged s = record { tasks = λ j. refl; logs = λ j. refl }

  pub stamped-keeps :
      (item : Report) (t : Task)
      → ((stamped metadata clock svc item t).id ≡ t.id)
        × ((stamped metadata clock svc item t).status ≡ t.status)
  unfolding stamped
  stamped-keeps item t = elim (Bool-cases (t.version_id == "" && not (item.version_id == ""))) [
    | inl e ↦ rw (stamped, e) (refl, refl)
    | inr e ↦ rw (stamped, e) (refl, refl)
  ]

  -- What holds of a refused call and of a call of the store's finalizer holds of the service's.
  finalize-rule :
      (P : Option String × S → Type 0) (t : Task) (result : ExecutionResult) (e : AuditEvent)
      (s : S)
      → ((x : String) → P (some x, s))
      → ((f : Finalizer S) (item : Report)
          → svc.finalizer ≡ some f
          → P (f (stamped metadata clock svc item t) e item s))
      → P (finalize_generated_report_task metadata clock svc t result e s)
  unfolding finalize_generated_report_task
  finalize-rule P t result e s refused done =
      elim (Result-cases (build_generated_report metadata clock svc t result s)) [
        | inr (x, h) ↦ rw (finalize_generated_report_task, h) (refused x)
        | inl (item, h) ↦ elim (Option-cases svc.finalizer) [
          | inl k ↦ rw (finalize_generated_report_task, h, k) (refused _)
          | inr (f, k) ↦ rw (finalize_generated_report_task, h, k) (done f item k)
        ]
      ]

  pub recorder-laws : RecorderLaws v IsGood (recorder_of metadata clock svc)
  unfolding record_generated_report
  recorder-laws = record {
    record_lem = λ t result s.
        elim (Result-cases (build_generated_report metadata clock svc t result s)) [
          | inr (x, h) ↦ rw (record_generated_report, h) (unchanged s)
          | inl (item, h) ↦ rw (record_generated_report, h) (l.save_lem item s)
        ];
    record_good = λ t result s g.
        elim (Result-cases (build_generated_report metadata clock svc t result s)) [
          | inr (x, h) ↦ rw (record_generated_report, h) g
          | inl (item, h) ↦ rw (record_generated_report, h) (l.save_good item s g)
        ];
    finalize_lem = λ t result e s.
        finalize-rule
          (λ out.
            out.0 ≡ none → (u : Task) × Wrote v u e s out.1 × (u.id ≡ t.id) × (u.status ≡ t.status))
          t result e s (λ x h. absurd cc)
          (λ f item k h. (
            stamped metadata clock svc item t,
            l.finalize_lem f (stamped metadata clock svc item t) e item s k h,
            (stamped-keeps item t).0,
            (stamped-keeps item t).1,
          ));
    finalize_err = λ t result e x s.
        finalize-rule (λ out. out.0 ≡ some x → Same v s out.1) t result e s (λ y h. unchanged s)
          (λ f item k h. l.finalize_err f (stamped metadata clock svc item t) e item x s k h);
    finalize_good = λ t result e s g.
        finalize-rule (λ out. IsGood out.1) t result e s (λ x. g)
          (λ f item k. l.finalize_good f (stamped metadata clock svc item t) e item s k g);
  }

  -- A task without a version is refused where the lookup fails.
  pub finalize-refuses :
      (lookup : S → Result String String) (s : S) (x : String) (t : Task) (result : ExecutionResult)
      (e : AuditEvent)
      → svc.current_version ≡ some lookup
      → lookup s ≡ err x
      → t.version_id ≡ ""
      → (finalize_generated_report_task metadata clock svc t result e s).0 ≡ some x
  unfolding finalize_generated_report_task build_generated_report report_version
  finalize-refuses lookup s x t result e given failed blank =
      rw (finalize_generated_report_task, build_generated_report, given, blank, failed)

-- The worker with its report service, which asks the same source for the version.
abbrev pub wired :
    {S : Type 0}
    → (Task → ExecutionResult → ℕ → String → String)
    → ℕ
    → Service S
    → Executor
    → ReportService S
    → Runner S
wired metadata clock service executor svc = record {
  service = service;
  executor = executor;
  reports =
      some (recorder_of metadata clock (record svc { current_version = service.version_source }));
}

abbrev with_source :
    {S : Type 0} → ReportService S → Option (S → Result String String) → ReportService S
with_source svc source = record svc { current_version = source }

with_source-laws :
    {S : Type 0} (v : View S) (IsGood : S → Type 0) (svc : ReportService S)
    (source : Option (S → Result String String))
    → ReportStoreLaws v IsGood svc
    → ReportStoreLaws v IsGood (with_source svc source)
with_source-laws v IsGood svc source l = record {
  save_lem = l.save_lem;
  save_good = l.save_good;
  finalize_lem = l.finalize_lem;
  finalize_err = l.finalize_err;
  finalize_good = l.finalize_good;
}

-- Stores that keep their promises make the wired worker sound, whatever the executor does and whether the
-- version is found or not. A lookup answers the same twice in one state.
pub wired-IsSound :
    (metadata : Task → ExecutionResult → ℕ → String → String) (clock : ℕ) {S : Type 0} (v : View S)
    (IsGood : S → Type 0) (service : Service S) (executor : Executor) (svc : ReportService S)
    → StoreLaws v service.store IsGood
    → ReportStoreLaws v IsGood svc
    → IsSound v IsGood (wired metadata clock service executor svc)
wired-IsSound metadata clock {S} v IsGood service executor svc laws l =
    let asking = with_source svc service.version_source in
    let kept = with_source-laws v IsGood svc service.version_source l in
    record {
      laws = laws;
      recorder = λ rec e.
          subst (RecorderLaws v IsGood) (ap (λ o. or_else o (recorder_of metadata clock asking)) e)
            (recorder-laws metadata clock v IsGood asking kept);
      refuses = λ rec lookup s x t result e given atomic source failed blank.
          subst (λ r. is_some (r.finalize_generated_report_task t result e s).0 ≡ true)
            (ap (λ o. or_else o (recorder_of metadata clock asking)) given)
            (ap is_some (
              finalize-refuses metadata clock v IsGood asking kept lookup s x t result e source
                failed blank));
    }
