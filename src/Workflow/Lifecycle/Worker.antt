-- ===== src/Workflow/Lifecycle/Worker.antt =====
-- What the runner makes of a claimed task and of its audit log (internal/workflow/runner.go).
use opspilot_go_dev_kit.Prelude.{
  ℕ, String, ◌≡◌, ◌⊎◌, refl, sym, ap, ◌∙◌, inl, inr, true, false, Option, none, some, Result, err,
  is_some, ◌==◌, eq_of_str_eq, Bool-cases, Option-cases, Result-cases,
}
use opspilot_go_dev_kit.Workflow.Types.{
  Task, AuditEvent, status_running, status_succeeded, audit_action_succeeded,
  task_type_report_generation,
}
use opspilot_go_dev_kit.Workflow.Store.{View, Same, Wrote, StoreLaws}
use opspilot_go_dev_kit.Workflow.Runner.{
  ExecutionResult, ReportRecorder, Runner, Pending, failed_pending, executed, with_version,
  success_event, record_report, settle_report, settle, TaskTimes,
}
use opspilot_go_dev_kit.Workflow.Lifecycle.{Move, run_succeeded, run_failed}

-- The pending update is of this task, and is a legal end of its run.
abbrev pub Fits : Task → Pending → Type 0
Fits t p = (p.task.id ≡ t.id) × Move (some status_running) p.action p.task.status

-- The pending update reports success on both sides.
abbrev Won : Pending → Type 0
Won p = (p.action ≡ audit_action_succeeded) × (p.task.status ≡ status_succeeded)

failed_pending-Fits :
    (later : ℕ) (result : ExecutionResult) (message : String) (t u : Task)
    → u.id ≡ t.id
    → Fits t (failed_pending later result message u)
unfolding failed_pending
failed_pending-Fits later result message t u e = (e, run_failed refl refl refl)

executed-Fits :
    (later : ℕ) (result : ExecutionResult) (failure : Option String) (t : Task)
    → Fits t (executed later result failure t)
unfolding executed
executed-Fits later result none t = (refl, run_succeeded refl refl refl)
executed-Fits later result (some message) t = (refl, run_failed refl refl refl)

executed-Won :
    (later : ℕ) (result : ExecutionResult) (t : Task) → Won (executed later result none t)
unfolding executed
executed-Won later result t = (refl, refl)

module _ {S : Type 0} where
  with_version-Fits :
      (source : Option (S → Result String String)) (later : ℕ) (result : ExecutionResult) (t : Task)
      (p : Pending) (s : S)
      → Fits t p
      → Fits t (with_version source later result p s)
  unfolding with_version
  with_version-Fits none later result t p s h = h
  with_version-Fits (some source) later result t p s h =
      elim (Bool-cases (p.task.version_id == "")) [
        | inl blank ↦ elim (Result-cases (source s)) [
          | inl r ↦ rw (blank, r.1, with_version) h
          | inr r ↦
              rw (blank, r.1, with_version) (failed_pending-Fits later result r.0 t p.task h.0)
        ]
        | inr given ↦ rw (given, with_version) h
      ]

  -- After the lookup, an update that reported success still does, or the lookup has failed and the task is
  -- without a version.
  abbrev pub Unversioned : Option (S → Result String String) → Pending → S → Type 0
  Unversioned source p s =
      (lookup : S → Result String String) × (x : String) × (source ≡ some lookup)
      × (lookup s ≡ err x)
      × (p.task.version_id ≡ "")

  with_version-Won :
      (source : Option (S → Result String String)) (later : ℕ) (result : ExecutionResult)
      (p : Pending) (s : S)
      → Won p
      → Won (with_version source later result p s)
        ⊎ Unversioned source (with_version source later result p s) s
  unfolding with_version failed_pending
  with_version-Won none later result p s h = inl h
  with_version-Won (some source) later result p s h = elim (Bool-cases (p.task.version_id == "")) [
    | inl blank ↦ elim (Result-cases (source s)) [
      | inl r ↦ inl (rw (blank, r.1, with_version) h)
      | inr r ↦ inr (source, r.0, refl, r.1, rw (blank, r.1, with_version) (eq_of_str_eq blank))
    ]
    | inr given ↦ inl (rw (given, with_version) h)
  ]

-- What a report recorder promises: recording a report changes no task, and a finalization that
-- succeeds writes the task with its event, with a version or without.
pub record RecorderLaws {S : Type 0} (v : View S) (IsGood : S → Type 0) (rec : ReportRecorder S)
    : Type 0 where
  pub record_lem :
      (t : Task) (result : ExecutionResult) (s : S)
      → Same v s (rec.record_generated_report t result s).1
  pub record_good :
      (t : Task) (result : ExecutionResult) (s : S)
      → IsGood s
      → IsGood (rec.record_generated_report t result s).1
  pub finalize_lem :
      (t : Task) (result : ExecutionResult) (e : AuditEvent) (s : S)
      → (rec.finalize_generated_report_task t result e s).0 ≡ none
      → (u : Task) × Wrote v u e s (rec.finalize_generated_report_task t result e s).1
        × (u.id ≡ t.id)
        × (u.status ≡ t.status)
  pub finalize_err :
      (t : Task) (result : ExecutionResult) (e : AuditEvent) (x : String) (s : S)
      → (rec.finalize_generated_report_task t result e s).0 ≡ some x
      → Same v s (rec.finalize_generated_report_task t result e s).1
  pub finalize_good :
      (t : Task) (result : ExecutionResult) (e : AuditEvent) (s : S)
      → IsGood s
      → IsGood (rec.finalize_generated_report_task t result e s).1

module _ {S : Type 0} (v : View S) (IsGood : S → Type 0) where
  -- The store and the recorder keep their promises, and an atomic recorder refuses a task without a
  -- version wherever the runner's own lookup of the version fails.
  pub record IsSound (r : Runner S) : Type 0 where
    pub laws : StoreLaws v r.service.store IsGood
    pub recorder : (rec : ReportRecorder S) → r.reports ≡ some rec → RecorderLaws v IsGood rec
    pub refuses :
        (rec : ReportRecorder S) (lookup : S → Result String String) (s : S) (x : String) (t : Task)
        (result : ExecutionResult) (e : AuditEvent)
        → r.reports ≡ some rec
        → rec.supports_atomic ≡ true
        → r.service.version_source ≡ some lookup
        → lookup s ≡ err x
        → t.version_id ≡ ""
        → is_some (rec.finalize_generated_report_task t result e s).0 ≡ true

  -- The state that settling a task leaves: the task finalized, or nothing observable changed and a
  -- legal end pending.
  abbrev pub Settled : Task → S → Option Pending → S → Type 0
  Settled t s none s' =
      (u : Task) × (e : AuditEvent) × Wrote v u e s s'
      × (u.id ≡ t.id)
      × (e.task_id ≡ t.id)
      × Move (some status_running) e.action u.status
  Settled t s (some p) s' = Fits t p × Same v s s'

  unchanged : (s : S) → Same v s s
  unchanged s = record { tasks = λ j. refl; logs = λ j. refl }

  finalized-Settled :
      (rec : ReportRecorder S) (result : ExecutionResult) (t : Task) (p : Pending) (s : S)
      → RecorderLaws v IsGood rec
      → Fits t p
      → Won p
      → let e = success_event result p.task in
        (rec.finalize_generated_report_task p.task result e s).0 ≡ none
        → Settled t s none (rec.finalize_generated_report_task p.task result e s).1
  finalized-Settled rec result t p s l f w done =
      let e = success_event result p.task in
      let (u, wrote, u_id, u_status) = l.finalize_lem p.task result e s done in
      (
        u,
        e,
        wrote,
        u_id ∙ f.0,
        unfold success_event in f.0,
        unfold success_event in run_succeeded refl refl (u_status ∙ w.1),
      )

  -- A finalization that succeeds is of a task whose version was found, or was not looked for.
  finalized-Won :
      (r : Runner S) (rec : ReportRecorder S) (later : ℕ) (result : ExecutionResult) (p : Pending)
      (s : S)
      → IsSound r
      → r.reports ≡ some rec
      → rec.supports_atomic ≡ true
      → Won p
      → let q = with_version r.service.version_source later result p s in
        (rec.finalize_generated_report_task q.task result (success_event result q.task) s).0 ≡ none
        → Won q
  finalized-Won r rec later result p s i given atomic w done =
      let q = with_version r.service.version_source later result p s in
      elim (with_version-Won r.service.version_source later result p s w) [
        | inl won ↦ won
        | inr (lookup, x, source, failed, blank) ↦
            let refused =
              i.refuses rec lookup s x q.task result (success_event result q.task) given atomic
                source failed blank in
            let impossible : false ≡ true = sym (ap is_some done) ∙ refused in absurd cc
      ]

  record_report-Settled :
      (rec : ReportRecorder S) (later : ℕ) (result : ExecutionResult) (t : Task) (p : Pending)
      (s : S)
      → RecorderLaws v IsGood rec
      → Fits t p
      → (rec.supports_atomic ≡ true
          → (rec.finalize_generated_report_task p.task result (success_event result p.task) s).0
            ≡ none
          → Won p)
      → let (q, s') = record_report rec later result p s in
        Settled t s q s' × (IsGood s → IsGood s')
  unfolding record_report
  record_report-Settled rec later result t p s l f w = elim (Bool-cases rec.supports_atomic) [
    | inl atomic ↦
        let (failure, s') =
          rec.finalize_generated_report_task p.task result (success_event result p.task) s in
        elim (Option-cases failure) [
          | inl done ↦
              rw (atomic, done, record_report)
                (
                  (finalized-Settled rec result t p s l f (w atomic done) done),
                  l.finalize_good p.task result (success_event result p.task) s,
                )
          | inr refused ↦
              rw (atomic, refused.1, record_report)
                (
                  (
                    failed_pending-Fits later result refused.0 t p.task f.0,
                    l.finalize_err p.task result (success_event result p.task) refused.0 s
                        refused.1,
                  ),
                  l.finalize_good p.task result (success_event result p.task) s,
                )
        ]
    | inr plain ↦
        let (failure, s') = rec.record_generated_report p.task result s in
        elim (Option-cases failure) [
          | inl done ↦
              rw (plain, done, record_report)
                ((f, l.record_lem p.task result s), l.record_good p.task result s)
          | inr refused ↦
              rw (plain, refused.1, record_report)
                (
                  (
                    failed_pending-Fits later result refused.0 t p.task f.0,
                    l.record_lem p.task result s,
                  ),
                  l.record_good p.task result s,
                )
        ]
  ]

  settle_report-Settled :
      (r : Runner S) (times : TaskTimes) (result : ExecutionResult) (t : Task) (p : Pending) (s : S)
      → IsSound r
      → Fits t p
      → Won p
      → let (q, s') = settle_report r times result p s in Settled t s q s' × (IsGood s → IsGood s')
  unfolding settle_report
  settle_report-Settled r times result t p s i f w = elim (Option-cases r.reports) [
    | inl absent ↦ rw (absent, settle_report) ((f, unchanged s), λ g. g)
    | inr present ↦
        rw (present.1, settle_report)
          (record_report-Settled present.0 times.unrecorded result t
            (with_version r.service.version_source times.unversioned result p s) s
            (i.recorder present.0 present.1)
            (with_version-Fits r.service.version_source times.unversioned result t p s f)
            (λ atomic done.
              finalized-Won r present.0 times.unversioned result p s i present.1 atomic w done))
  ]

  -- Settling a claimed task keeps the contract of `Settled` on every branch of the loop's body.
  pub settle-Settled :
      (r : Runner S) (times : TaskTimes) (t : Task) (s : S)
      → IsSound r
      → let (result, q, s') = settle r times t s in Settled t s q s' × (IsGood s → IsGood s')
  unfolding settle
  settle-Settled r times t s i =
      let (result, failure) = r.executor t in
      elim (Option-cases failure) [
        | inl fine ↦
            elim (Bool-cases (
              (executed times.executed result none t).task.task_type
              == task_type_report_generation)) [
                | inl report ↦
                    rw (fine, report, settle)
                      (settle_report-Settled r times result t
                        (executed times.executed result none t) s i
                        (executed-Fits times.executed result none t)
                        (executed-Won times.executed result t))
                | inr other ↦
                    rw (fine, other, settle)
                      ((executed-Fits times.executed result none t, unchanged s), λ g. g)
              ]
        | inr failed ↦
            rw (failed.1, settle)
              ((executed-Fits times.executed result (some failed.0) t, unchanged s), λ g. g)
      ]
