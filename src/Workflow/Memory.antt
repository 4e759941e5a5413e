-- ===== src/Workflow/Memory.antt =====
-- internal/workflow/memory_store.go: the in-memory task store. A method holds the store's mutex from
-- its first line to its return, so it is one step here. `now` stands for the `time.Now()` it calls.
pub mod Laws
pub mod Claims
pub mod Fifo
pub mod Listing
use opspilot_go_dev_kit.Prelude.{
  differs, ℕ, zero, suc, ◌+◌, ◌%◌, ◌^◌, String, Bool, true, false, ◌&&◌, ◌||◌, not, Option, none,
  some, List, [], ◌∷◌, ◌++◌, Result, ok, err, ◌==◌, if◌then◌else◌, ltb, eqb, str_lt, bool_eq,
  or_else, is_some, keep, take,
}
use opspilot_go_dev_kit.Prelude.Dict.{Dict, find, put, values}
use opspilot_go_dev_kit.Prelude.Sorting.{sort}
use opspilot_go_dev_kit.Prelude.Paging.{ℤ, pos, negsuc, Page, paginate, page_limit, page_offset}
use opspilot_go_dev_kit.Workflow.Types.{
  Task, AuditEvent, TaskListFilter, WorkflowError, task_not_found, status_queued, status_running,
  audit_action_claimed,
}
use opspilot_go_dev_kit.Workflow.Store.{TaskStore}

-- `next_event_id` is the bit pattern of an int64.
pub record MemoryStore : Type 0 where
  pub tasks : Dict Task
  pub events : Dict (List AuditEvent)
  pub next_event_id : ℕ

unfoldable pub new_memory_store : MemoryStore
new_memory_store = record { tasks = []; events = []; next_event_id = 0 }

-- `s.nextEventID++`
abbrev pub next_int64 : ℕ → ℕ
next_int64 n = (n + 1) % 2 ^ 64

-- `s.events[id]`: nil where the key is missing.
abbrev pub events_of : String → MemoryStore → List AuditEvent
events_of id s = or_else (find id s.events) []

unfoldable pub save_task : Task → MemoryStore → Result WorkflowError Task × MemoryStore
save_task task s = (ok task, record s { tasks = put task.id task s.tasks })

unfoldable pub append_task_event :
    AuditEvent → MemoryStore → Result WorkflowError AuditEvent × MemoryStore
append_task_event event s =
    let n = next_int64 s.next_event_id in
    let e : AuditEvent = record event { id = n } in
    (
      ok e,
      record s {
        next_event_id = n;
        events = put event.task_id (events_of event.task_id s ++ e ∷ []) s.events;
      },
    )

unfoldable pub create_task_with_event :
    Task → AuditEvent → MemoryStore → Result WorkflowError Task × MemoryStore
unfolding append_task_event
create_task_with_event task event s =
    (ok task, (append_task_event event (record s { tasks = put task.id task s.tasks })).1)

unfoldable pub get_task : String → MemoryStore → Result WorkflowError Task
get_task id s = elim (find id s.tasks) [ none ↦ err (task_not_found id) | some task ↦ ok task ]

unfoldable pub update_task : Task → MemoryStore → Result WorkflowError Task × MemoryStore
update_task task s =
    if is_some (find task.id s.tasks)
    then (ok task, record s { tasks = put task.id task s.tasks })
    else (err (task_not_found task.id), s)

unfoldable pub update_task_with_event :
    Task → AuditEvent → MemoryStore → Result WorkflowError Task × MemoryStore
unfolding append_task_event
update_task_with_event task event s =
    if is_some (find task.id s.tasks)
    then (ok task, (append_task_event event (record s { tasks = put task.id task s.tasks })).1)
    else (err (task_not_found task.id), s)

unfoldable pub list_task_events : String → MemoryStore → Result WorkflowError (List AuditEvent)
list_task_events id s = ok (events_of id s)

abbrev pub created_before : Task → Task → Bool
created_before a b = ltb a.created_at b.created_at

abbrev pub is_queued : Task → Bool
is_queued t = t.status == status_queued

-- The body of the loop over the claimed tasks.
unfoldable pub claim_one : ℕ → Task → MemoryStore → Task × MemoryStore
unfolding append_task_event
claim_one now task s =
    let t : Task = record task { status = status_running; updated_at = now } in
    (
      t,
      (append_task_event
          (record {
            id = 0;
            task_id = t.id;
            action = audit_action_claimed;
            actor = "worker";
            detail = t.status;
            created_at = t.updated_at;
          })
          (record s { tasks = put t.id t s.tasks })).1,
    )

unfoldable pub claim_each : ℕ → List Task → MemoryStore → List Task × MemoryStore
claim_each now [] s = ([], s)
claim_each now (task ∷ rest) s =
    let (t, s₁) = claim_one now task s in let (ts, s₂) = claim_each now rest s₁ in (t ∷ ts, s₂)

-- The queued tasks, oldest first, cut to the limit: `take` leaves a shorter list whole.
unfoldable pub claimable : ℕ → MemoryStore → List Task
claimable limit s = take limit (sort created_before (keep is_queued (values s.tasks)))

unfoldable pub claim_queued_tasks :
    ℕ → ℤ → MemoryStore → Result WorkflowError (List Task) × MemoryStore
unfolding claim_each claimable
claim_queued_tasks now (negsuc n) s = (ok [], s)
claim_queued_tasks now (pos zero) s = (ok [], s)
claim_queued_tasks now (pos (suc n)) s =
    let (ts, s') = claim_each now (claimable (suc n) s) s in (ok ts, s')

abbrev pub flag_differs : Option Bool → Bool → Bool
flag_differs none actual = false
flag_differs (some wanted) actual = not (bool_eq actual wanted)

abbrev pub not_after : Option ℕ → ℕ → Bool
not_after none t = false
not_after (some bound) t = not (ltb bound t)

abbrev pub not_before : Option ℕ → ℕ → Bool
not_before none t = false
not_before (some bound) t = not (ltb t bound)

-- The `continue` guards of `ListTasks`.
unfoldable pub skips : TaskListFilter → Task → Bool
skips f t =
    differs f.tenant_id t.tenant_id
    || differs f.status t.status
    || differs f.task_type t.task_type
    || differs f.reason t.reason
    || flag_differs f.requires_approval t.requires_approval
    || not_after f.created_after t.created_at
    || not_before f.created_before t.created_at
    || not_after f.updated_after t.updated_at
    || not_before f.updated_before t.updated_at

-- The test of `sort.Slice` in `ListTasks`: newest update first, then newest creation, then the id.
unfoldable pub listed_before : Task → Task → Bool
listed_before a b =
    if eqb a.updated_at b.updated_at
    then (if eqb a.created_at b.created_at then str_lt b.id a.id else ltb b.created_at a.created_at)
    else ltb b.updated_at a.updated_at

-- The rows of `ListTasks` before the page is cut.
unfoldable pub listed : TaskListFilter → MemoryStore → List Task
listed f s = sort listed_before (keep (λ t. not (skips f t)) (values s.tasks))

unfoldable pub list_tasks : TaskListFilter → MemoryStore → Result WorkflowError (Page Task)
unfolding listed
list_tasks f s = ok (paginate (listed f s) (page_limit f.limit) (page_offset f.offset))

abbrev pub memory_store : TaskStore MemoryStore
memory_store = record {
  save_task = save_task;
  update_task = update_task;
  append_task_event = append_task_event;
  list_tasks = list_tasks;
  create_task_with_event = create_task_with_event;
  get_task = get_task;
  claim_queued_tasks = claim_queued_tasks;
  update_task_with_event = update_task_with_event;
  list_task_events = list_task_events;
}
