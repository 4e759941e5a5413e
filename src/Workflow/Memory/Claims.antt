-- ===== src/Workflow/Memory/Claims.antt =====
-- A claim of the in-memory store, and the contract of `Workflow.Store` for the whole store
-- (internal/workflow/memory_store.go).
use opspilot_go_dev_kit.Prelude.{
  ℕ, zero, suc, String, ◌≡◌, refl, sym, ap, ◌∙◌, subst, ◌≢◌, ◌⊎◌, inl, inr, true, some, List, [],
  ◌∷◌, ◌++◌, ok, ◌==◌, eq_iff, eq_refl, if◌then◌else◌, arith, All, AllPairs, keep, All-keep,
  All-take, All-perm, AllPairs-keep, AllPairs-take, AllPairs-perm, keep_passes, All-zip, All-imp,
  Bool-cases, eq_of_str_eq,
}
use opspilot_go_dev_kit.Prelude.Dict.{
  find, put, values, find-put, put-KeyedBy, values_distinct, values_found,
}
use opspilot_go_dev_kit.Prelude.Sorting.{sort, sort-perm}
use opspilot_go_dev_kit.Prelude.Paging.{ℤ, pos, negsuc}
use mathlib.Core.List.Permᴰ
use opspilot_go_dev_kit.Workflow.Types.{Task, status_queued, status_running}
use opspilot_go_dev_kit.Workflow.Store.{Taken, Untouched, Returned, claimed_event, StoreLaws}
use opspilot_go_dev_kit.Workflow.Memory.{
  MemoryStore, events_of, next_int64, create_task_with_event, claim_one, claim_each, claimable,
  claim_queued_tasks, created_before, is_queued, memory_store,
}
use opspilot_go_dev_kit.Workflow.Memory.Laws.{
  memory_view, IsKeyed, append_event_log, memory_get, memory_create, memory_update,
  memory_update_err, memory_create_good, memory_update_good,
}

abbrev running_at : ℕ → Task → Task
running_at now t = record t { status = status_running; updated_at = now }

claim_one_task :
    (now : ℕ) (t : Task) (s : MemoryStore) (j : String)
    → find j (claim_one now t s).1.tasks
      ≡ (if t.id == j then some (running_at now t) else find j s.tasks)
unfolding claim_one
claim_one_task now t s j = find-put t.id j (running_at now t) s.tasks

claim_one_log :
    (now : ℕ) (t : Task) (s : MemoryStore) (j : String)
    → events_of j (claim_one now t s).1 ≡ (
        if t.id == j
        then events_of j s
          ++ claimed_event memory_view (running_at now t) (next_int64 s.next_event_id) ∷ []
        else events_of j s)
unfolding claim_one
claim_one_log now t s j =
    append_event_log (claimed_event memory_view (running_at now t) 0)
      (record s { tasks = put t.id (running_at now t) s.tasks }) j

-- A task that a claim may take.
abbrev Ready : MemoryStore → Task → Type 0
Ready s t = (find t.id s.tasks ≡ some t) × (t.status ≡ status_queued)

abbrev Apart : Task → Task → Type 0
Apart a b = a.id ≢ b.id

Ready-claim_one :
    (now : ℕ) (t : Task) (s : MemoryStore) (ts : List Task)
    → All (Apart t) ts
    → All (Ready s) ts
    → All (Ready (claim_one now t s).1) ts
Ready-claim_one now t s [] a r = tt
Ready-claim_one now t s (u ∷ ts) a r = (
  (ground (arith, claim_one_task now t s u.id, eq_iff t.id u.id, a.0, r.0.0), r.0.1),
  Ready-claim_one now t s ts a.1 r.1,
)

-- A task that is not among those claimed stays as it was.
claim_each_apart :
    (now : ℕ) (ts : List Task) (s : MemoryStore) (j : String)
    → All (λ t. t.id ≢ j) ts
    → Untouched memory_view j s (claim_each now ts s).1
unfolding claim_each
claim_each_apart now [] s j a = (refl, refl)
claim_each_apart now (t ∷ ts) s j a =
    let ih : Untouched memory_view j (claim_one now t s).1
        (claim_each now ts (claim_one now t s).1).1 =
      claim_each_apart now ts (claim_one now t s).1 j a.1 in
    (
      ground (arith, ih.0, claim_one_task now t s j, eq_iff t.id j, a.0),
      ground (arith, ih.1, claim_one_log now t s j, eq_iff t.id j, a.0),
    )

claim_each_lem :
    (now : ℕ) (ts : List Task) (s : MemoryStore) (j : String)
    → All (Ready s) ts
    → AllPairs Apart ts
    → Untouched memory_view j s (claim_each now ts s).1
      ⊎ Taken memory_view now j s (claim_each now ts s).1
unfolding claim_each
claim_each_lem now [] s j r a = inl (refl, refl)
claim_each_lem now (t ∷ ts) s j r a = elim (Bool-cases (t.id == j)) [
  | inl same ↦
      let e : t.id ≡ j = eq_of_str_eq same in
      let later : Untouched memory_view j (claim_one now t s).1
          (claim_each now ts (claim_one now t s).1).1 =
        claim_each_apart now ts (claim_one now t s).1 j
          (All-imp (Apart t) (λ u. u.id ≢ j) ts (λ u n p. n (e ∙ sym p)) a.0) in
      inr (record {
        before = t;
        event_id = next_int64 s.next_event_id;
        was_stored = subst (λ k. find k s.tasks ≡ some t) e r.0.0;
        was_queued = r.0.1;
        id_eq = e;
        now_running = later.0 ∙ (claim_one_task now t s j ∙ rw same);
        logged = later.1 ∙ (claim_one_log now t s j ∙ rw same);
      })
  | inr other ↦
      let task_kept : find j (claim_one now t s).1.tasks ≡ find j s.tasks =
        claim_one_task now t s j ∙ rw other in
      let log_kept : events_of j (claim_one now t s).1 ≡ events_of j s =
        claim_one_log now t s j ∙ rw other in
      elim (claim_each_lem now ts (claim_one now t s).1 j (Ready-claim_one now t s ts a.0 r.1)
        a.1) [
          | inl u ↦ inl (u.0 ∙ task_kept, u.1 ∙ log_kept)
          | inr k ↦ inr (record {
            before = k.before;
            event_id = k.event_id;
            was_stored = sym task_kept ∙ k.was_stored;
            was_queued = k.was_queued;
            id_eq = k.id_eq;
            now_running = k.now_running;
            logged =
                k.logged
                ∙ ap (λ l. l ++ claimed_event memory_view (running_at now k.before) k.event_id ∷ [])
                    log_kept;
          })
        ]
]

claim_each_good :
    (now : ℕ) (ts : List Task) (s : MemoryStore) → IsKeyed s → IsKeyed (claim_each now ts s).1
unfolding claim_each claim_one
claim_each_good now [] s k = k
claim_each_good now (t ∷ ts) s k =
    claim_each_good now ts (claim_one now t s).1
      (put-KeyedBy (λ t. t.id) (running_at now t) s.tasks k)

claim_each-Returned :
    (now : ℕ) (ts : List Task) (s : MemoryStore)
    → AllPairs Apart ts
    → Returned memory_view (claim_each now ts s).1 (claim_each now ts s).0
unfolding claim_each claim_one
claim_each-Returned now [] s a = tt
claim_each-Returned now (t ∷ ts) s a = (
  (
    (claim_each_apart now ts (claim_one now t s).1 t.id
          (All-imp (Apart t) (λ u. u.id ≢ t.id) ts (λ u n p. n (sym p)) a.0)).0
        ∙ (claim_one_task now t s t.id ∙ rw (eq_refl t.id)),
    refl,
  ),
  claim_each-Returned now ts (claim_one now t s).1 a.1,
)

claimable-Ready : (n : ℕ) (s : MemoryStore) → IsKeyed s → All (Ready s) (claimable n s)
unfolding claimable
claimable-Ready n s k =
    All-take (Ready s) n (sort created_before (keep is_queued (values s.tasks))) (
      All-perm (Ready s) (Permᴰ.symm (sort-perm created_before (keep is_queued (values s.tasks)))) (
        All-zip (λ t. find t.id s.tasks ≡ some t) (λ t. t.status ≡ status_queued)
          (keep is_queued (values s.tasks))
          (All-keep (λ t. find t.id s.tasks ≡ some t) is_queued (values s.tasks)
            (values_found (λ t. t.id) s.tasks k))
          (All-imp (λ t. is_queued t ≡ true) (λ t. t.status ≡ status_queued)
            (keep is_queued (values s.tasks)) (λ t e. eq_of_str_eq e)
            (keep_passes is_queued (values s.tasks)))))

claimable-Apart : (n : ℕ) (s : MemoryStore) → IsKeyed s → AllPairs Apart (claimable n s)
unfolding claimable
claimable-Apart n s k =
    AllPairs-take Apart n (sort created_before (keep is_queued (values s.tasks))) (
      AllPairs-perm Apart (λ x y n p. n (sym p))
        (Permᴰ.symm (sort-perm created_before (keep is_queued (values s.tasks))))
        (AllPairs-keep Apart is_queued (values s.tasks) (values_distinct (λ t. t.id) s.tasks k)))

memory_claim :
    (now : ℕ) (limit : ℤ) (s : MemoryStore) (j : String)
    → IsKeyed s
    → Untouched memory_view j s (claim_queued_tasks now limit s).1
      ⊎ Taken memory_view now j s (claim_queued_tasks now limit s).1
unfolding claim_queued_tasks
memory_claim now (negsuc n) s j k = inl (refl, refl)
memory_claim now (pos zero) s j k = inl (refl, refl)
memory_claim now (pos (suc n)) s j k =
    claim_each_lem now (claimable (suc n) s) s j (claimable-Ready (suc n) s k)
      (claimable-Apart (suc n) s k)

memory_claim-Returned :
    (now : ℕ) (limit : ℤ) (s : MemoryStore) (ts : List Task)
    → (claim_queued_tasks now limit s).0 ≡ ok ts
    → IsKeyed s
    → Returned memory_view (claim_queued_tasks now limit s).1 ts
unfolding claim_queued_tasks
memory_claim-Returned now (negsuc n) s ts e k =
    let none_taken : [] ≡ ts = cc in subst (Returned memory_view s) none_taken tt
memory_claim-Returned now (pos zero) s ts e k =
    let none_taken : [] ≡ ts = cc in subst (Returned memory_view s) none_taken tt
memory_claim-Returned now (pos (suc n)) s ts e k =
    let taken : (claim_each now (claimable (suc n) s) s).0 ≡ ts = cc in
    subst (Returned memory_view (claim_each now (claimable (suc n) s) s).1) taken
      (claim_each-Returned now (claimable (suc n) s) s (claimable-Apart (suc n) s k))

claim_each-Apart :
    (now : ℕ) (ts : List Task) (s : MemoryStore)
    → AllPairs Apart ts
    → AllPairs Apart (claim_each now ts s).0
unfolding claim_each claim_one
claim_each-Apart now [] s a = tt
claim_each-Apart now (t ∷ ts) s a = (
  claimed_apart t ts (claim_one now t s).1 a.0,
  claim_each-Apart now ts (claim_one now t s).1 a.1,
)
  where
    claimed_apart :
        (t : Task) (ts : List Task) (s : MemoryStore)
        → All (Apart t) ts
        → All (Apart (running_at now t)) (claim_each now ts s).0
    claimed_apart t [] s a = tt
    claimed_apart t (u ∷ ts) s a = (a.0, claimed_apart t ts (claim_one now u s).1 a.1)

memory_claim_distinct :
    (now : ℕ) (limit : ℤ) (s : MemoryStore) (ts : List Task)
    → (claim_queued_tasks now limit s).0 ≡ ok ts
    → IsKeyed s
    → AllPairs Apart ts
unfolding claim_queued_tasks
memory_claim_distinct now (negsuc n) s ts e k =
    let none_taken : [] ≡ ts = cc in subst (AllPairs Apart) none_taken tt
memory_claim_distinct now (pos zero) s ts e k =
    let none_taken : [] ≡ ts = cc in subst (AllPairs Apart) none_taken tt
memory_claim_distinct now (pos (suc n)) s ts e k =
    let taken : (claim_each now (claimable (suc n) s) s).0 ≡ ts = cc in
    subst (AllPairs Apart) taken
      (claim_each-Apart now (claimable (suc n) s) s (claimable-Apart (suc n) s k))

memory_claim_good :
    (now : ℕ) (limit : ℤ) (s : MemoryStore) → IsKeyed s → IsKeyed (claim_queued_tasks now limit s).1
unfolding claim_queued_tasks
memory_claim_good now (negsuc n) s k = k
memory_claim_good now (pos zero) s k = k
memory_claim_good now (pos (suc n)) s k = claim_each_good now (claimable (suc n) s) s k

-- The in-memory store implements the contract that the service and the runner rely on, for every
-- state in which each task is stored once, under its own id: a read returns the stored task, a write
-- with its audit event is seen in the task and in the log, a failed write changes nothing, and a claim
-- moves queued tasks to running, logs each, and leaves the others alone.
pub memory_store_laws : StoreLaws memory_view memory_store IsKeyed
memory_store_laws = record {
  get_lem = memory_get;
  create_lem = memory_create;
  create_err = λ t e x s h. absurd (unfold create_task_with_event in cc);
  create_good = memory_create_good;
  update_lem = memory_update;
  update_err = memory_update_err;
  update_good = memory_update_good;
  claim_lem = memory_claim;
  claim_returned = memory_claim-Returned;
  claim_distinct = memory_claim_distinct;
  claim_good = memory_claim_good;
}
