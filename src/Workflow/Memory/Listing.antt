-- ===== src/Workflow/Memory/Listing.antt =====
-- What a client of `ListTasks` sees: which rows, in which order, over how many pages
-- (internal/workflow/memory_store.go).
use opspilot_go_dev_kit.Prelude.{
  ℕ, zero, suc, ◌≡◌, ◌≢◌, inl, inr, refl, sym, ap, ◌∙◌, subst, not, List, [], ◌∷◌, ◌++◌, Permᴰ, ok,
  err, arith, length, keep, length-keep, keep-perm, perm-length, All, AllPairs, AllPairs-keep,
  if◌then◌else◌, Bool-cases,
}
use opspilot_go_dev_kit.Prelude.TextOrder.{str_lt_asym, str_lt_cotrans, str_lt_total}
use opspilot_go_dev_kit.Prelude.Dict.{values, values_distinct}
use opspilot_go_dev_kit.Prelude.Sorting.{
  WeakOrder, IsSorted, sort-perm, sort-IsSorted, Ordered, sort_of_perm,
}
use opspilot_go_dev_kit.Prelude.Paging.{
  pos, paginate, walk, walk_lem, page_limit, page_offset, page_limit-pos,
}
use opspilot_go_dev_kit.Workflow.Types.{Task, TaskListFilter}
use opspilot_go_dev_kit.Workflow.Memory.{MemoryStore, skips, listed_before, listed, list_tasks}
use opspilot_go_dev_kit.Workflow.Memory.Laws.{IsKeyed}

listed_before-order : WeakOrder listed_before
unfolding listed_before
listed_before-order = record {
  asym = λ x y h. ground (arith, str_lt_asym y.id x.id);
  cotrans = λ x y z h k. ground (arith, str_lt_cotrans z.id y.id x.id);
}

-- Two tasks with distinct ids are always ordered.
listed_before_total : (x y : Task) → x.id ≢ y.id → Ordered listed_before listed_before-order x y
unfolding listed_before
listed_before_total x y n = elim (str_lt_total x.id y.id) [
  | inl lt ↦ ground arith
  | inr rest ↦ elim rest [ inl gt ↦ ground arith | inr same ↦ absurd (n same) ]
]

All-Ordered :
    (x : Task) (xs : List Task)
    → All (λ y. x.id ≢ y.id) xs
    → All (Ordered listed_before listed_before-order x) xs
All-Ordered x [] h = tt
All-Ordered x (y ∷ ys) h = (listed_before_total x y h.0, All-Ordered x ys h.1)

distinct-Ordered :
    (xs : List Task)
    → AllPairs (λ x y. x.id ≢ y.id) xs
    → AllPairs (Ordered listed_before listed_before-order) xs
distinct-Ordered [] h = tt
distinct-Ordered (x ∷ xs) h = (All-Ordered x xs h.0, distinct-Ordered xs h.1)

-- The page that `ListTasks` answers with does not depend on the order in which Go ranges over the map:
-- two stores that hold the same tasks, each once and under its id, in whatever order, answer alike.
pub list_tasks_of_perm :
    (f : TaskListFilter) (s s' : MemoryStore)
    → IsKeyed s
    → Permᴰ (values s.tasks) (values s'.tasks)
    → list_tasks f s ≡ list_tasks f s'
unfolding list_tasks
list_tasks_of_perm f s s' k p =
    ap (λ rows. ok (paginate rows (page_limit f.limit) (page_offset f.offset)))
      (sort_of_perm listed_before listed_before-order (keep-perm (λ t. not (skips f t)) p) (
        distinct-Ordered (keep (λ t. not (skips f t)) (values s.tasks)) (
          AllPairs-keep (λ x y. x.id ≢ y.id) (λ t. not (skips f t)) (values s.tasks)
            (values_distinct (λ t. t.id) s.tasks k))))

-- A client that asks for page after page, each from the `NextOffset` of the one before, while `HasMore`.
pub task_rows : ℕ → TaskListFilter → MemoryStore → List Task
task_rows zero f s = []
task_rows (suc fuel) f s = elim (list_tasks f s) [
  | err _ ↦ []
  | ok page ↦
      let rest = task_rows fuel (record f { offset = pos page.next_offset }) s in
      if page.has_more then page.items ++ rest else page.items
]

task_rows-walk :
    (fuel : ℕ) (f : TaskListFilter) (s : MemoryStore)
    → task_rows fuel f s ≡ walk fuel (listed f s) (page_limit f.limit) (page_offset f.offset)
unfolding task_rows walk list_tasks page_offset skips
task_rows-walk zero f s = refl
task_rows-walk (suc fuel) f s =
    let page = paginate (listed f s) (page_limit f.limit) (page_offset f.offset) in
    elim (Bool-cases page.has_more) [
      | inl more ↦ rw more (
          ap (λ r. page.items ++ r)
            (task_rows-walk fuel (record f { offset = pos page.next_offset }) s))
      | inr done ↦ rw done
    ]

-- Following `NextOffset` from offset 0 for at most one page more than there are tasks yields each task
-- that passes the filter exactly once and no other, with the newest update first, then the newest
-- creation, then the greatest id, whatever the limit.
pub list_tasks_pages :
    (f : TaskListFilter) (s : MemoryStore)
    → f.offset ≡ pos 0
    → let rows = task_rows (suc (length (values s.tasks))) f s in
      Permᴰ rows (keep (λ t. not (skips f t)) (values s.tasks)) × IsSorted listed_before rows
unfolding listed page_offset
list_tasks_pages f s first =
    let passing = keep (λ t. not (skips f t)) (values s.tasks) in
    let e : task_rows (suc (length (values s.tasks))) f s ≡ listed f s =
      task_rows-walk (suc (length (values s.tasks))) f s
      ∙ (ap
            (λ o.
              walk (suc (length (values s.tasks))) (listed f s) (page_limit f.limit)
                (page_offset o))
            first
          ∙ walk_lem (suc (length (values s.tasks))) (listed f s) (page_limit f.limit) 0
              (page_limit-pos f.limit)
              (omega (
                arith,
                perm-length (sort-perm listed_before passing),
                length-keep (λ t. not (skips f t)) (values s.tasks),
              ))
              (omega arith)) in
    (
      subst (λ r. Permᴰ r passing) (sym e) (sort-perm listed_before passing),
      subst (IsSorted listed_before) (sym e)
          (sort-IsSorted listed_before listed_before-order passing),
    )
