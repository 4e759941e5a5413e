-- ===== src/Workflow/Lifecycle/Requests.antt =====
-- Promotion, approval and retry on audit logs (internal/workflow/service.go).
use opspilot_go_dev_kit.Prelude.{
  ℕ, String, ◌≡◌, ◌⊎◌, refl, ap, ◌∙◌, inl, inr, true, none, some, ok, ◌==◌, eq_refl, arith,
  Bool-cases, Option-cases, Result-cases, eq_of_str_eq,
}
use opspilot_go_dev_kit.Prelude.Clock.{next_uint64}
use mathlib.Core.Option
use opspilot_go_dev_kit.Workflow.Types.{
  Task, AuditEvent, PromoteRequest, status_queued, status_failed, status_waiting_approval,
}
use opspilot_go_dev_kit.Workflow.Store.{TaskStore, View, StoreLaws}
use opspilot_go_dev_kit.Workflow.Service.{
  Service, World, new_task_id, should_start_task_on_promote, current_version_id, promoted_task,
  created_event, start_failed_task, start_promoted, create_promoted, promote, approved_task,
  write_approval, approve_task, retried_task, write_retry, retry_task,
}
use opspilot_go_dev_kit.Workflow.Lifecycle.{
  Move, created_queued, created_waiting, start_failed, approved, retried, status_at, Audited,
  Same-Audited, Wrote-Audited,
}

module _ {S : Type 0} (v : View S) (store : TaskStore S) (IsGood : S → Type 0)
    (laws : StoreLaws v store IsGood) where
  pub update-Audited :
      (t : Task) (e : AuditEvent) (s : S)
      → e.task_id ≡ t.id
      → Move (status_at v s t.id) e.action t.status
      → Audited v s
      → Audited v (store.update_task_with_event t e s).1
  update-Audited t e s i m a = elim (Result-cases (store.update_task_with_event t e s).0) [
    | inl r ↦ Wrote-Audited v (laws.update_lem t r.0 e s r.1).1 i m a
    | inr r ↦ Same-Audited v (laws.update_err t e r.0 s r.1) a
  ]

  pub create-Audited :
      (t : Task) (e : AuditEvent) (s : S)
      → e.task_id ≡ t.id
      → Move (status_at v s t.id) e.action t.status
      → Audited v s
      → Audited v (store.create_task_with_event t e s).1
  create-Audited t e s i m a = elim (Result-cases (store.create_task_with_event t e s).0) [
    | inl r ↦ Wrote-Audited v (laws.create_lem t r.0 e s r.1).1 i m a
    | inr r ↦ Same-Audited v (laws.create_err t e r.0 s r.1) a
  ]

  -- The status of a task that a read returned.
  pub read_status :
      (id : String) (s : S) (t : Task)
      → store.get_task id s ≡ ok t
      → IsGood s
      → status_at v s t.id ≡ some t.status
  read_status id s t e g = let (found, id_eq) = laws.get_lem id s t e g in rw (id_eq, found)

start_needs_approval :
    (t : Task) → should_start_task_on_promote t ≡ true → t.requires_approval ≡ true
unfolding should_start_task_on_promote
start_needs_approval t h = ground arith

promoted_status :
    (now : ℕ) (id version : String) (req : PromoteRequest)
    → let t = promoted_task now id version req in
      (t.status ≡ status_queued) ⊎ (t.status ≡ status_waiting_approval)
unfolding promoted_task
promoted_status now id version req = ground arith

promoted_waits :
    (now : ℕ) (id version : String) (req : PromoteRequest)
    → let t = promoted_task now id version req in
      t.requires_approval ≡ true → t.status ≡ status_waiting_approval
unfolding promoted_task
promoted_waits now id version req h = rw h

module _ {S : Type 0} (v : View S) (IsGood : S → Type 0) (svc : Service S)
    (laws : StoreLaws v svc.store IsGood) where
  write_approval-Audited :
      (now : ℕ) (by : String) (t : Task) (s : S)
      → status_at v s t.id ≡ some t.status
      → Audited v s
      → Audited v (write_approval svc now by t s).1
  unfolding write_approval
  write_approval-Audited now by t s st a = elim (Bool-cases (t.status == status_waiting_approval)) [
    | inl waiting ↦ rw waiting (
        update-Audited v svc.store IsGood laws (approved_task now by t) _ s refl
          (approved (st ∙ ap some (eq_of_str_eq waiting)) refl refl) a)
    | inr other ↦ rw other a
  ]

  -- An approval, whatever its outcome, keeps every log a legal life.
  pub approve_task-Audited :
      (now : ℕ) (id by : String) (s : S)
      → IsGood s
      → Audited v s
      → Audited v (approve_task svc now id by s).1
  unfolding approve_task
  approve_task-Audited now id by s g a = elim (Result-cases (svc.store.get_task id s)) [
    | inl r ↦
        rw (r.1, approve_task)
          (write_approval-Audited now by r.0 s (read_status v svc.store IsGood laws id s r.0 r.1 g)
            a)
    | inr r ↦ rw (r.1, approve_task) a
  ]

  write_retry-Audited :
      (now : ℕ) (by : String) (t : Task) (s : S)
      → status_at v s t.id ≡ some t.status
      → Audited v s
      → Audited v (write_retry svc now by t s).1
  unfolding write_retry
  write_retry-Audited now by t s st a = elim (Bool-cases (t.status == status_failed)) [
    | inl down ↦ rw down (
        update-Audited v svc.store IsGood laws (retried_task now by t) _ s refl
          (retried (st ∙ ap some (eq_of_str_eq down)) refl refl) a)
    | inr other ↦ rw other a
  ]

  pub retry_task-Audited :
      (now : ℕ) (id by : String) (s : S)
      → IsGood s
      → Audited v s
      → Audited v (retry_task svc now id by s).1
  unfolding retry_task
  retry_task-Audited now id by s g a = elim (Result-cases (svc.store.get_task id s)) [
    | inl r ↦
        rw (r.1, retry_task)
          (write_retry-Audited now by r.0 s (read_status v svc.store IsGood laws id s r.0 r.1 g) a)
    | inr r ↦ rw (r.1, retry_task) a
  ]

  start_promoted-Audited :
      (later : ℕ) (t : Task) (s : S)
      → status_at v s t.id ≡ some t.status
      → (t.requires_approval ≡ true → t.status ≡ status_waiting_approval)
      → Audited v s
      → Audited v (start_promoted svc later t s).1
  unfolding start_promoted
  start_promoted-Audited later t s st w a = elim (Bool-cases (should_start_task_on_promote t)) [
    | inl on ↦ elim (Option-cases svc.starter) [
      | inl e ↦ rw (on, e, start_promoted) a
      | inr c ↦ elim (Option-cases (c.0 t)) [
        | inl started ↦ rw (on, c.1, started, start_promoted) a
        | inr refused ↦
            rw (on, c.1, refused.1, start_promoted)
              (update-Audited v svc.store IsGood laws (start_failed_task t refused.0 later) _ s refl
                (start_failed (st ∙ ap some (w (start_needs_approval t on))) refl refl) a)
      ]
    ]
    | inr off ↦ rw (off, start_promoted) a
  ]

  create_promoted-Audited :
      (now later : ℕ) (t : Task) (s : S)
      → v.task_at s t.id ≡ none
      → (t.status ≡ status_queued) ⊎ (t.status ≡ status_waiting_approval)
      → (t.requires_approval ≡ true → t.status ≡ status_waiting_approval)
      → Audited v s
      → Audited v (create_promoted svc now later t s).1
  unfolding create_promoted
  create_promoted-Audited now later t s fresh q w a =
      let made_state = (svc.store.create_task_with_event t (created_event t now) s).1 in
      let made : Audited v made_state =
        create-Audited v svc.store IsGood laws t (created_event t now) s refl (birth q) a in
      elim (Result-cases (svc.store.create_task_with_event t (created_event t now) s).0) [
        | inl r ↦
            let wrote = laws.create_lem t r.0 (created_event t now) s r.1 in
            let stored : v.task_at made_state t.id ≡ some t =
              wrote.1.tasks t.id ∙ rw (eq_refl t.id) in
            rw (r.1, create_promoted)
              (start_promoted-Audited later r.0 made_state
                (rw wrote.0 (ap (Option.map (λ u. u.status)) stored)) (rw wrote.0 w) made)
        | inr r ↦ rw (r.1, create_promoted) made
      ]
    where
      birth :
          (t.status ≡ status_queued) ⊎ (t.status ≡ status_waiting_approval)
          → Move (status_at v s t.id) "created" t.status
      birth (inl e) = created_queued (ap (Option.map (λ u. u.status)) fresh) refl e
      birth (inr e) = created_waiting (ap (Option.map (λ u. u.status)) fresh) refl e

  -- A promotion under an id that is not in use keeps every log a legal life, also where the external
  -- workflow does not start.
  pub promote-Audited :
      (now later : ℕ) (req : PromoteRequest) (w : World S)
      → v.task_at w.state (new_task_id now (next_uint64 w.task_id_sequence)) ≡ none
      → Audited v w.state
      → Audited v (promote svc now later req w).1.state
  unfolding promote
  promote-Audited now later req w fresh a =
      elim (Result-cases (current_version_id svc.version_source w.state)) [
        | inl r ↦
            let id = new_task_id now (next_uint64 w.task_id_sequence) in
            let t = promoted_task now id r.0 req in
            rw (r.1, promote)
              (create_promoted-Audited now later t w.state fresh (promoted_status now id r.0 req)
                (promoted_waits now id r.0 req) a)
        | inr r ↦ rw (r.1, promote) a
      ]
