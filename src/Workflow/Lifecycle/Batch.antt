-- ===== src/Workflow/Lifecycle/Batch.antt =====
-- A batch of the worker on audit logs (internal/workflow/runner.go).
use opspilot_go_dev_kit.Prelude.{
  ℕ, String, ◌≡◌, ◌≢◌, refl, sym, ap, ◌∙◌, subst, inl, inr, none, some, List, [], ◌∷◌, eq_iff,
  arith, Option-cases, Result-cases, All, AllPairs,
}
use mathlib.Core.Option
use opspilot_go_dev_kit.Prelude.Paging.{ℤ}
use opspilot_go_dev_kit.Workflow.Types.{Task, AuditEvent, status_running}
use opspilot_go_dev_kit.Workflow.Store.{View, Same, Wrote, Returned}
use opspilot_go_dev_kit.Workflow.Service.{service_claim_queued_tasks}
use opspilot_go_dev_kit.Workflow.Runner.{
  Runner, TaskTimes, Pending, settle, outcome_event, process_task, process_each, process_next_batch,
}
use opspilot_go_dev_kit.Workflow.Lifecycle.{
  Move, status_at, Audited, Same-Audited, Wrote-Audited, claim-Audited,
}
use opspilot_go_dev_kit.Workflow.Lifecycle.Requests.{update-Audited}
use opspilot_go_dev_kit.Workflow.Lifecycle.Worker.{IsSound, Settled, settle-Settled}

module _ {S : Type 0} (v : View S) (IsGood : S → Type 0) (r : Runner S)
    (i : IsSound v IsGood r) where
  -- The tasks of a batch as the loop meets them.
  abbrev Running : S → Task → Type 0
  Running s t = status_at v s t.id ≡ some status_running

  -- One round: the logs stay legal, and a task of another id keeps its status.
  record Rounded (t : Task) (s s' : S) : Type 0 where
    audited : Audited v s → Audited v s'
    others : (j : String) → t.id ≢ j → status_at v s' j ≡ status_at v s j
    good : IsGood s → IsGood s'

  Wrote-others :
      (u : Task) (e : AuditEvent) (t : Task) (s s' : S)
      → Wrote v u e s s'
      → u.id ≡ t.id
      → (j : String) → t.id ≢ j
      → status_at v s' j ≡ status_at v s j
  Wrote-others u e t s s' w i j n =
      let kept : v.task_at s' j ≡ v.task_at s j = ground (arith, w.tasks j, eq_iff u.id j) in
      ap (Option.map (λ x. x.status)) kept

  Same-others : (s s' : S) → Same v s s' → (j : String) → status_at v s' j ≡ status_at v s j
  Same-others s s' w j = ap (Option.map (λ x. x.status)) (w.tasks j)

  finalized-Rounded :
      (t : Task) (s s' : S)
      → Settled v IsGood t s none s'
      → (IsGood s → IsGood s')
      → Running s t
      → Rounded t s s'
  finalized-Rounded t s s' (u, e, w, u_id, e_id, m) g run = record {
    audited = λ a.
        Wrote-Audited v w (e_id ∙ sym u_id)
          (subst (λ st. Move st e.action u.status) (sym (ap (status_at v s) u_id ∙ run)) m) a;
    others = Wrote-others u e t s s' w u_id;
    good = g;
  }

  pending-Rounded :
      (t : Task) (p : Pending) (e : AuditEvent) (s s₁ : S)
      → Settled v IsGood t s (some p) s₁
      → (IsGood s → IsGood s₁)
      → Running s t
      → e.task_id ≡ p.task.id
      → e.action ≡ p.action
      → Rounded t s (r.service.store.update_task_with_event p.task e s₁).1
  pending-Rounded t p e s s₁ ((id_eq, m), same) g run e_id e_act = record {
    audited = λ a.
        update-Audited v r.service.store IsGood i.laws p.task e s₁ e_id
          (rw (e_act, same.tasks p.task.id)
            (subst (λ st. Move st p.action p.task.status) (sym (ap (status_at v s) id_eq ∙ run)) m))
          (Same-Audited v same a);
    others = λ j n. elim (Result-cases (r.service.store.update_task_with_event p.task e s₁).0) [
      | inl x ↦
          Wrote-others p.task e t s₁ _ (i.laws.update_lem p.task x.0 e s₁ x.1).1 id_eq j n
          ∙ Same-others s s₁ same j
      | inr x ↦ Same-others s₁ _ (i.laws.update_err p.task e x.0 s₁ x.1) j ∙ Same-others s s₁ same j
    ];
    good = λ h. i.laws.update_good p.task e s₁ (g h);
  }

  process_task-Rounded :
      (times : TaskTimes) (t : Task) (s : S)
      → Running s t
      → Rounded t s (process_task r times t s).1
  unfolding process_task
  process_task-Rounded times t s run =
      let (result, q, s₁) = settle r times t s in
      let (st, g) = settle-Settled v IsGood r times t s i in
      elim (Option-cases q) [
        | inl done ↦
            rw (done, process_task)
              (finalized-Rounded t s s₁ (subst (λ x. Settled v IsGood t s x s₁) done st) g run)
        | inr left ↦
            let p : Pending = left.0 in
            let e : AuditEvent = outcome_event result p in
            let round : Rounded t s (r.service.store.update_task_with_event p.task e s₁).1 =
              pending-Rounded t p e s s₁ (subst (λ x. Settled v IsGood t s x s₁) left.1 st) g run
                refl refl in
            elim (Result-cases (r.service.store.update_task_with_event p.task e s₁).0) [
              | inl x ↦ rw (left.1, x.1, process_task) round
              | inr x ↦ rw (left.1, x.1, process_task) round
            ]
      ]

  Running-kept :
      (t : Task) (ts : List Task) (s s' : S)
      → Rounded t s s'
      → All (λ u. t.id ≢ u.id) ts
      → All (Running s) ts
      → All (Running s') ts
  Running-kept t [] s s' round n h = tt
  Running-kept t (u ∷ ts) s s' round n h =
      (round.others u.id n.0 ∙ h.0, Running-kept t ts s s' round n.1 h.1)

  process_each-Audited :
      (times : Task → TaskTimes) (ts : List Task) (s : S)
      → All (Running s) ts
      → AllPairs (λ a b. a.id ≢ b.id) ts
      → IsGood s
      → Audited v s
      → Audited v (process_each r times ts s).1 × IsGood (process_each r times ts s).1
  unfolding process_each
  process_each-Audited times [] s run apart g a = (a, g)
  process_each-Audited times (t ∷ ts) s run apart g a =
      let s₁ = (process_task r (times t) t s).1 in
      let round : Rounded t s s₁ = process_task-Rounded (times t) t s run.0 in
      elim (Option-cases (process_task r (times t) t s).0) [
        | inl fine ↦
            rw (fine, process_each)
              (process_each-Audited times ts s₁ (Running-kept t ts s s₁ round apart.0 run.1) apart.1
                (round.good g) (round.audited a))
        | inr failed ↦ rw (failed.1, process_each) (round.audited a, round.good g)
      ]

  Returned-Running : (ts : List Task) (s : S) → Returned v s ts → All (Running s) ts
  Returned-Running [] s h = tt
  Returned-Running (t ∷ ts) s h =
      (ap (Option.map (λ u. u.status)) h.0.0 ∙ ap some h.0.1, Returned-Running ts s h.1)

  -- A batch of the worker keeps every log a legal life, whatever the executor, the recorder and the
  -- store answer, and keeps the store's state good.
  pub process_next_batch-Audited :
      (now : ℕ) (times : Task → TaskTimes) (limit : ℤ) (s : S)
      → IsGood s
      → Audited v s
      → Audited v (process_next_batch r now times limit s).1
        × IsGood (process_next_batch r now times limit s).1
  unfolding process_next_batch service_claim_queued_tasks
  process_next_batch-Audited now times limit s g a =
      let (claimed, s₁) = r.service.store.claim_queued_tasks now limit s in
      let a₁ : Audited v s₁ =
        (λ j. claim-Audited v now j (i.laws.claim_lem now limit s j g) (a j)) in
      let g₁ : IsGood s₁ = i.laws.claim_good now limit s g in
      elim (Result-cases claimed) [
        | inl ts ↦
            let ends =
              process_each-Audited times ts.0 s₁
                (Returned-Running ts.0 s₁ (i.laws.claim_returned now limit s ts.0 ts.1 g))
                (i.laws.claim_distinct now limit s ts.0 ts.1 g) g₁ a₁ in
            elim (Option-cases (process_each r times ts.0 s₁).0) [
              | inl fine ↦ rw (ts.1, fine, process_next_batch) ends
              | inr failed ↦ rw (ts.1, failed.1, process_next_batch) ends
            ]
        | inr x ↦ rw (x.1, process_next_batch) (a₁, g₁)
      ]
