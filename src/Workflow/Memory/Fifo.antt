-- ===== src/Workflow/Memory/Fifo.antt =====
-- The order in which `ClaimQueuedTasks` hands tasks out (internal/workflow/memory_store.go).
use opspilot_go_dev_kit.Prelude.{
  ℕ, suc, ◌≡◌, refl, sym, ap, ◌∙◌, subst, List, [], ◌∷◌, ◌++◌, map, Permᴰ, ok, arith, length, take,
  drop, keep, take-append-drop, length-take, min, perm-length, count_if, count_if-keep,
}
use opspilot_go_dev_kit.Prelude.Dict.{values}
use opspilot_go_dev_kit.Prelude.Sorting.{sort, WeakOrder, IsSorted, sort-perm, sort-IsSorted}
use opspilot_go_dev_kit.Prelude.Paging.{pos}
use opspilot_go_dev_kit.Workflow.Types.{Task, status_running}
use opspilot_go_dev_kit.Workflow.Memory.{
  MemoryStore, claim_one, claim_each, claimable, claim_queued_tasks, created_before, is_queued,
}

created_before-order : WeakOrder created_before
created_before-order = record { asym = λ x y h. ground arith; cotrans = λ x y z h k. ground arith }

-- A task as its claim leaves it.
abbrev pub running_at : ℕ → Task → Task
running_at now t = record t { status = status_running; updated_at = now }

claim_each-map :
    (now : ℕ) (ts : List Task) (s : MemoryStore) → (claim_each now ts s).0 ≡ map (running_at now) ts
unfolding claim_each claim_one
claim_each-map now [] s = refl
claim_each-map now (t ∷ ts) s =
    ap (λ r. running_at now t ∷ r) (claim_each-map now ts (claim_one now t s).1)

-- A claim with a positive limit takes the oldest queued tasks and as many as the limit allows: the
-- queued tasks of the store fall into those taken and those left, in creation order with the taken ones
-- in front; what is returned are the taken ones, set to running at the time of the claim, and their
-- number is the smaller of the limit and of the number of queued tasks.
pub claim_fifo :
    (now n : ℕ) (s : MemoryStore)
    → (taken left : List Task) × ((claim_queued_tasks now (pos (suc n)) s).0
        ≡ ok (map (running_at now) taken))
      × Permᴰ (taken ++ left) (keep is_queued (values s.tasks))
      × IsSorted created_before (taken ++ left)
      × (length taken ≡ min (suc n) (count_if is_queued (values s.tasks)))
unfolding claim_queued_tasks claimable
claim_fifo now n s =
    let queue = keep is_queued (values s.tasks) in
    let rows = sort created_before queue in
    (
      take (suc n) rows,
      drop (suc n) rows,
      ap ok (claim_each-map now (claimable (suc n) s) s),
      subst (λ l. Permᴰ l queue) (sym (take-append-drop (suc n) rows))
          (sort-perm created_before queue),
      subst (IsSorted created_before) (sym (take-append-drop (suc n) rows))
          (sort-IsSorted created_before created_before-order queue),
      length-take (suc n) rows
          ∙ ap (min (suc n)) (
              perm-length (sort-perm created_before queue)
              ∙ count_if-keep is_queued (values s.tasks)),
    )
