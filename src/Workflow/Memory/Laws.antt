-- ===== src/Workflow/Memory/Laws.antt =====
-- The contract of `Workflow.Store` for the in-memory store, but for claims
-- (internal/workflow/memory_store.go).
use opspilot_go_dev_kit.Prelude.{
  String, ◌≡◌, refl, inl, inr, some, [], ◌∷◌, ◌++◌, Result, ok, err, ◌==◌, if◌then◌else◌, arith,
  Bool-cases, eq_of_str_eq, is_some,
}
use opspilot_go_dev_kit.Prelude.Dict.{find, put, KeyedBy, find_key, find-put, put-KeyedBy}
use opspilot_go_dev_kit.Workflow.Types.{Task, AuditEvent, WorkflowError, task_not_found}
use opspilot_go_dev_kit.Workflow.Store.{View, Same, Wrote}
use opspilot_go_dev_kit.Workflow.Memory.{
  MemoryStore, events_of, next_int64, append_task_event, create_task_with_event, get_task,
  update_task_with_event,
}

abbrev pub memory_view : View MemoryStore
memory_view = record {
  task_at = λ s id. find id s.tasks;
  log_at = λ s id. events_of id s;
  next_id = λ s. next_int64 s.next_event_id;
}

-- Every task is stored once, under its own id.
abbrev pub IsKeyed : MemoryStore → Type 0
IsKeyed s = KeyedBy (λ t. t.id) s.tasks

pub append_event_log :
    (e : AuditEvent) (s : MemoryStore) (j : String)
    → events_of j (append_task_event e s).1 ≡ (
        if e.task_id == j
        then events_of j s ++ (record e { id = next_int64 s.next_event_id }) ∷ []
        else events_of j s)
unfolding append_task_event
append_event_log e s j = elim (Bool-cases (e.task_id == j)) [
  | inl same ↦ rw (find-put, same, eq_of_str_eq same)
  | inr other ↦ rw (find-put, other)
]

write-Wrote :
    (t : Task) (e : AuditEvent) (s : MemoryStore)
    → Wrote memory_view t e s (append_task_event e (record s { tasks = put t.id t s.tasks })).1
unfolding append_task_event
write-Wrote t e s = record {
  tasks = λ j. find-put t.id j t s.tasks;
  logs = λ j. append_event_log e (record s { tasks = put t.id t s.tasks }) j;
}

pub memory_get :
    (id : String) (s : MemoryStore) (t : Task)
    → get_task id s ≡ ok t
    → IsKeyed s
    → (find id s.tasks ≡ some t) × (t.id ≡ id)
unfolding get_task
memory_get id s t h k =
    let found : find id s.tasks ≡ some t = ground arith in
    (found, find_key (λ t. t.id) id t s.tasks k.0 found)

pub memory_create :
    (t u : Task) (e : AuditEvent) (s : MemoryStore)
    → (create_task_with_event t e s).0 ≡ ok u
    → (u ≡ t) × Wrote memory_view t e s (create_task_with_event t e s).1
unfolding create_task_with_event
memory_create t u e s h = (cc, write-Wrote t e s)

pub memory_update :
    (t u : Task) (e : AuditEvent) (s : MemoryStore)
    → (update_task_with_event t e s).0 ≡ ok u
    → (u ≡ t) × Wrote memory_view t e s (update_task_with_event t e s).1
unfolding update_task_with_event
memory_update t u e s h = elim (Bool-cases (is_some (find t.id s.tasks))) [
  | inl known ↦
      let written : Result.ok t ≡ ok u = (rw known at h) in rw known (cc, write-Wrote t e s)
  | inr missing ↦ let refused : err (task_not_found t.id) ≡ ok u = (rw missing at h) in cc
]

pub memory_update_err :
    (t : Task) (e : AuditEvent) (x : WorkflowError) (s : MemoryStore)
    → (update_task_with_event t e s).0 ≡ err x
    → Same memory_view s (update_task_with_event t e s).1
unfolding update_task_with_event
memory_update_err t e x s h = elim (Bool-cases (is_some (find t.id s.tasks))) [
  | inl known ↦ let written : ok t ≡ err x = (rw known at h) in cc
  | inr missing ↦ rw missing (record { tasks = λ j. refl; logs = λ j. refl })
]

pub memory_create_good :
    (t : Task) (e : AuditEvent) (s : MemoryStore)
    → IsKeyed s
    → IsKeyed (create_task_with_event t e s).1
unfolding create_task_with_event
memory_create_good t e s k = put-KeyedBy (λ t. t.id) t s.tasks k

pub memory_update_good :
    (t : Task) (e : AuditEvent) (s : MemoryStore)
    → IsKeyed s
    → IsKeyed (update_task_with_event t e s).1
unfolding update_task_with_event
memory_update_good t e s k = elim (Bool-cases (is_some (find t.id s.tasks))) [
  | inl known ↦ rw known (put-KeyedBy (λ t. t.id) t s.tasks k)
  | inr missing ↦ rw missing k
]
