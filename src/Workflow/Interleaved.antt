-- ===== src/Workflow/Interleaved.antt =====
-- An approval between the read and the write of another (internal/workflow/service.go): `ApproveTask` reads
-- the task and writes it in two calls of the store, so the worker may claim the task in between.
use mathlib.Core.Option
use opspilot_go_dev_kit.Prelude.{
  ℕ, String, ◌≡◌, refl, sym, ap, subst, ◌∙◌, inl, inr, true, some, List, [], ◌∷◌, ◌++◌, map, ok,
  false, Result-cases, Bool-cases, ◌==◌, eq_refl, is_ok,
}
use opspilot_go_dev_kit.Prelude.Paging.{ℤ}
use opspilot_go_dev_kit.Workflow.Types.{
  Task, AuditEvent, status_queued, status_running, status_waiting_approval, audit_action_approved,
  audit_action_claimed,
}
use opspilot_go_dev_kit.Workflow.Store.{View, Wrote, StoreLaws}
use opspilot_go_dev_kit.Workflow.Service.{
  Service, approved_task, write_approval, approve_task, service_claim_queued_tasks,
}
use opspilot_go_dev_kit.Workflow.Lifecycle.{status_at}

map_snoc :
    {A B : Type 0} (f : A → B) (xs : List A) (x : A) → map f (xs ++ x ∷ []) ≡ map f xs ++ f x ∷ []
map_snoc f [] x = refl
map_snoc f (y ∷ xs) x = ap (λ r. f y ∷ r) (map_snoc f xs x)

add_snoc : {A : Type 0} (xs ys : List A) (y : A) → (xs ++ ys) ++ y ∷ [] ≡ xs ++ (ys ++ y ∷ [])
add_snoc [] ys y = refl
add_snoc (x ∷ xs) ys y = ap (λ r. x ∷ r) (add_snoc xs ys y)

module _ {S : Type 0} (v : View S) (IsGood : S → Type 0) (svc : Service S)
    (laws : StoreLaws v svc.store IsGood) where
  -- The actions in the log of a task.
  abbrev pub actions_at : S → String → List String
  actions_at s id = map (λ e. e.action) (v.log_at s id)

  logged_action :
      (s s' : S) (id : String) (e : AuditEvent)
      → v.log_at s' id ≡ v.log_at s id ++ e ∷ []
      → actions_at s' id ≡ actions_at s id ++ e.action ∷ []
  logged_action s s' id e h =
      ap (map (λ e. e.action)) h ∙ map_snoc (λ e. e.action) (v.log_at s id) e

  Wrote-action :
      {t : Task} {e : AuditEvent} {s s' : S} {id : String}
      → Wrote v t e s s'
      → e.task_id ≡ id
      → actions_at s' id ≡ actions_at s id ++ e.action ∷ []
  Wrote-action {e = e} {s = s} {s' = s'} {id = id} w same =
      logged_action s s' id (record e { id = v.next_id s }) (w.logs id ∙ rw (same, eq_refl id))

  write_approval-effect :
      (now : ℕ) (by id : String) (t : Task) (s : S)
      → is_ok (write_approval svc now by t s).0 ≡ true
      → t.status ≡ status_waiting_approval
      → t.id ≡ id
      → let s' = (write_approval svc now by t s).1 in
        (v.task_at s' id ≡ some (approved_task now by t))
        × (actions_at s' id ≡ actions_at s id ++ audit_action_approved ∷ [])
  unfolding write_approval approved_task
  write_approval-effect now by id t s h st same =
      let waits : (t.status == status_waiting_approval) ≡ true = rw st in
      elim (Result-cases (write_approval svc now by t s).0) [
        | inr (x, k) ↦ let impossible : false ≡ true = (rw k at h) in absurd cc
        | inl (u, k) ↦
            let w = (laws.update_lem (approved_task now by t) u _ s (rw waits at k)).1 in
            rw (write_approval, waits) (w.tasks id ∙ rw (same, eq_refl id), Wrote-action w same)
      ]

  write_approval-good :
      (now : ℕ) (by : String) (t : Task) (s : S)
      → IsGood s
      → IsGood (write_approval svc now by t s).1
  unfolding write_approval
  write_approval-good now by t s g = elim (Bool-cases (t.status == status_waiting_approval)) [
    | inl e ↦ rw e (laws.update_good (approved_task now by t) _ s g)
    | inr e ↦ rw e g
  ]

  claim-effect :
      (now : ℕ) (limit : ℤ) (t : Task) (id : String) (s : S)
      → IsGood s
      → v.task_at s id ≡ some t
      → t.status ≡ status_queued
      → let s' = (service_claim_queued_tasks svc now limit s).1 in
        status_at v s' id ≡ some status_running
        → actions_at s' id ≡ actions_at s id ++ audit_action_claimed ∷ []
  unfolding service_claim_queued_tasks
  claim-effect now limit t id s g e q run =
      let s' = (service_claim_queued_tasks svc now limit s).1 in
      elim (laws.claim_lem now limit s id g) [
        | inl same ↦
            let still : some status_queued ≡ some status_running =
              sym (ap (Option.map (λ u. u.status)) (same.0 ∙ e) ∙ ap some q) ∙ run in
            absurd cc
        | inr taken ↦ logged_action s s' id _ taken.logged
      ]

  -- Two callers approve the same waiting task. The second reads it as the store has it before the first
  -- writes; the worker claims it; then the second writes what it read, over the running task, which
  -- is queued again, and the worker claims it a second time: the log gets an approval and a claim, and
  -- again an approval and a claim, with no retry among them. This is so in every store that keeps the
  -- promises of a store, where the two approvals are answered without an error and each of the two
  -- claims leaves the task running.
  pub stale_approval_requeues :
      (now claimed_at later again : ℕ) (limit limit_again : ℤ) (id by other : String) (read : Task)
      (s : S)
      → IsGood s
      → svc.store.get_task id s ≡ ok read
      → read.status ≡ status_waiting_approval
      → let first = approve_task svc now id by s in
        let taken = (service_claim_queued_tasks svc claimed_at limit first.1).1 in
        let second = write_approval svc later other read taken in
        let end = (service_claim_queued_tasks svc again limit_again second.1).1 in
        is_ok first.0 ≡ true
        → status_at v taken id ≡ some status_running
        → is_ok second.0 ≡ true
        → status_at v end id ≡ some status_running
        → (status_at v second.1 id ≡ some status_queued)
          × (actions_at end id
              ≡ actions_at s id
                ++ audit_action_approved ∷ audit_action_claimed ∷ audit_action_approved
                  ∷ audit_action_claimed ∷ [])
  unfolding approve_task approved_task service_claim_queued_tasks
  stale_approval_requeues now claimed_at later again limit limit_again id by other read s g got st
        first_ok run second_ok run_again =
      let same = (laws.get_lem id s read got g).1 in
      let s₁ = (approve_task svc now id by s).1 in
      let s₂ = (service_claim_queued_tasks svc claimed_at limit s₁).1 in
      let s₃ = (write_approval svc later other read s₂).1 in
      let whole : approve_task svc now id by s ≡ write_approval svc now by read s =
        rw (approve_task, got) in
      let one =
        write_approval-effect now by id read s (ap (λ x. is_ok x.0) (sym whole) ∙ first_ok) st
          same in
      let written : v.task_at s₁ id ≡ some (approved_task now by read) =
        ap (λ x. v.task_at x.1 id) whole ∙ one.0 in
      let good₁ : IsGood s₁ =
        subst (λ x. IsGood x.1) (sym whole) (write_approval-good now by read s g) in
      let good₂ : IsGood s₂ = laws.claim_good claimed_at limit s₁ good₁ in
      let good₃ = write_approval-good later other read s₂ good₂ in
      let two =
        claim-effect claimed_at limit (approved_task now by read) id s₁ good₁ written refl run in
      let three = write_approval-effect later other id read s₂ second_ok st same in
      let four =
        claim-effect again limit_again (approved_task later other read) id s₃ good₃ three.0 refl
          run_again in
      let a = actions_at s id in
      (
        ap (Option.map (λ u. u.status)) three.0,
        four
            ∙ (ap (λ l. l ++ audit_action_claimed ∷ [])
                  (three.1
                    ∙ ap (λ l. l ++ audit_action_approved ∷ [])
                        (two
                          ∙ (ap (λ l. l ++ audit_action_claimed ∷ [])
                                (ap (λ x. actions_at x.1 id) whole ∙ one.1)
                              ∙ add_snoc a (audit_action_approved ∷ []) audit_action_claimed))
                    ∙ add_snoc a (audit_action_approved ∷ audit_action_claimed ∷ [])
                        audit_action_approved)
                ∙ add_snoc a
                    (audit_action_approved ∷ audit_action_claimed ∷ audit_action_approved ∷ [])
                    audit_action_claimed),
      )
