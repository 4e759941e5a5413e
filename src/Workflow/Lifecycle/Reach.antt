-- ===== src/Workflow/Lifecycle/Reach.antt =====
-- Everything that the service and the worker can do to a store, as a step relation, and what holds of
-- every store that they reach (internal/workflow/service.go, runner.go).
use opspilot_go_dev_kit.Prelude.{
  ℕ, String, ◌≡◌, inl, inr, none, ◌==◌, Bool-cases, Option-cases, Result-cases,
}
use opspilot_go_dev_kit.Prelude.Clock.{next_uint64}
use opspilot_go_dev_kit.Prelude.Paging.{ℤ}
use opspilot_go_dev_kit.Workflow.Types.{
  Task, PromoteRequest, status_failed, status_waiting_approval,
}
use opspilot_go_dev_kit.Workflow.Store.{View}
use opspilot_go_dev_kit.Workflow.Service.{
  World, new_task_id, should_start_task_on_promote, current_version_id, promoted_task,
  created_event, start_failed_task, start_promoted, create_promoted, promote, approved_task,
  write_approval, approve_task, retried_task, write_retry, retry_task,
}
use opspilot_go_dev_kit.Workflow.Runner.{Runner, TaskTimes, process_next_batch}
use opspilot_go_dev_kit.Workflow.Lifecycle.{Audited}
use opspilot_go_dev_kit.Workflow.Lifecycle.Requests.{
  approve_task-Audited, retry_task-Audited, promote-Audited,
}
use opspilot_go_dev_kit.Workflow.Lifecycle.Worker.{IsSound}
use opspilot_go_dev_kit.Workflow.Lifecycle.Batch.{process_next_batch-Audited}

module _ {S : Type 0} (v : View S) (r : Runner S) where
  -- One call of the service, or one batch of the worker. Clocks and callers choose the arguments; the
  -- id of a promoted task is not in use.
  pub data Step : World S → World S → Type 0 where
    promotes :
        (now later : ℕ) (req : PromoteRequest) (w : World S)
        → v.task_at w.state (new_task_id now (next_uint64 w.task_id_sequence)) ≡ none
        → Step w (promote r.service now later req w).1
    approves :
        (now : ℕ) (id by : String) (w : World S)
        → Step w (record w { state = (approve_task r.service now id by w.state).1 })
    retries :
        (now : ℕ) (id by : String) (w : World S)
        → Step w (record w { state = (retry_task r.service now id by w.state).1 })
    runs :
        (now : ℕ) (times : Task → TaskTimes) (limit : ℤ) (w : World S)
        → Step w (record w { state = (process_next_batch r now times limit w.state).1 })

  pub data Reach (w : World S) : World S → Type 0 where
    here : Reach w w
    next : {u u' : World S} → Reach w u → Step u u' → Reach w u'

module _ {S : Type 0} (v : View S) (IsGood : S → Type 0) (r : Runner S)
    (i : IsSound v IsGood r) where
  -- The two halves of the invariant of a store.
  pub record Inv (w : World S) : Type 0 where
    pub good : IsGood w.state
    pub audited : Audited v w.state

  write_approval-good :
      (now : ℕ) (by : String) (t : Task) (s : S)
      → IsGood s
      → IsGood (write_approval r.service now by t s).1
  unfolding write_approval
  write_approval-good now by t s g = elim (Bool-cases (t.status == status_waiting_approval)) [
    | inl e ↦ rw e (i.laws.update_good (approved_task now by t) _ s g)
    | inr e ↦ rw e g
  ]

  approve_task-good :
      (now : ℕ) (id by : String) (s : S) → IsGood s → IsGood (approve_task r.service now id by s).1
  unfolding approve_task
  approve_task-good now id by s g = elim (Result-cases (r.service.store.get_task id s)) [
    | inl t ↦ rw (t.1, approve_task) (write_approval-good now by t.0 s g)
    | inr x ↦ rw (x.1, approve_task) g
  ]

  write_retry-good :
      (now : ℕ) (by : String) (t : Task) (s : S)
      → IsGood s
      → IsGood (write_retry r.service now by t s).1
  unfolding write_retry
  write_retry-good now by t s g = elim (Bool-cases (t.status == status_failed)) [
    | inl e ↦ rw e (i.laws.update_good (retried_task now by t) _ s g)
    | inr e ↦ rw e g
  ]

  retry_task-good :
      (now : ℕ) (id by : String) (s : S) → IsGood s → IsGood (retry_task r.service now id by s).1
  unfolding retry_task
  retry_task-good now id by s g = elim (Result-cases (r.service.store.get_task id s)) [
    | inl t ↦ rw (t.1, retry_task) (write_retry-good now by t.0 s g)
    | inr x ↦ rw (x.1, retry_task) g
  ]

  start_promoted-good :
      (later : ℕ) (t : Task) (s : S) → IsGood s → IsGood (start_promoted r.service later t s).1
  unfolding start_promoted
  start_promoted-good later t s g = elim (Bool-cases (should_start_task_on_promote t)) [
    | inl on ↦ elim (Option-cases r.service.starter) [
      | inl e ↦ rw (on, e, start_promoted) g
      | inr c ↦ elim (Option-cases (c.0 t)) [
        | inl started ↦ rw (on, c.1, started, start_promoted) g
        | inr refused ↦
            rw (on, c.1, refused.1, start_promoted)
              (i.laws.update_good (start_failed_task t refused.0 later) _ s g)
      ]
    ]
    | inr off ↦ rw (off, start_promoted) g
  ]

  promote-good :
      (now later : ℕ) (req : PromoteRequest) (w : World S)
      → IsGood w.state
      → IsGood (promote r.service now later req w).1.state
  unfolding promote
  promote-good now later req w g =
      elim (Result-cases (current_version_id r.service.version_source w.state)) [
        | inl version ↦
            let t =
              promoted_task now (new_task_id now (next_uint64 w.task_id_sequence)) version.0 req in
            let (created, s') =
              r.service.store.create_task_with_event t (created_event t now) w.state in
            let g' : IsGood s' = i.laws.create_good t (created_event t now) w.state g in
            elim (Result-cases created) [
              | inl u ↦
                  rw (version.1, promote)
                    (rw (u.1, create_promoted) (start_promoted-good later u.0 s' g'))
              | inr x ↦ rw (version.1, promote) (rw (x.1, create_promoted) g')
            ]
        | inr x ↦ rw (x.1, promote) g
      ]

  Step-Inv : {w w' : World S} → Step v r w w' → Inv w → Inv w'
  Step-Inv (promotes now later req w fresh) h = record {
    good = promote-good now later req w h.good;
    audited = promote-Audited v IsGood r.service i.laws now later req w fresh h.audited;
  }
  Step-Inv (approves now id by w) h = record {
    good = approve_task-good now id by w.state h.good;
    audited = approve_task-Audited v IsGood r.service i.laws now id by w.state h.good h.audited;
  }
  Step-Inv (retries now id by w) h = record {
    good = retry_task-good now id by w.state h.good;
    audited = retry_task-Audited v IsGood r.service i.laws now id by w.state h.good h.audited;
  }
  Step-Inv (runs now times limit w) h =
      let ends = process_next_batch-Audited v IsGood r i now times limit w.state h.good h.audited in
      record { good = ends.1; audited = ends.0 }

  -- Under `IsSound`, that is, where the task store keeps its contract and so does the report recorder of
  -- the worker, if it has one, and where an atomic recorder refuses a task without a version when the
  -- worker's own lookup of the version has just failed, as the report service does that asks the same
  -- source and gets the same answer: from a store in which the invariant holds, any sequence of
  -- promotions under ids not in use, approvals, retries and worker batches, each of them one step, leads
  -- to a store in which it holds. The audit log of every id tells a legal life that ends at the status
  -- of the task stored under it.
  pub Reach-Inv : {w w' : World S} → Inv w → Reach v r w w' → Inv w'
  Reach-Inv h here = h
  Reach-Inv h (next p st) = Step-Inv st (Reach-Inv h p)
