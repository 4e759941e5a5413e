-- ===== src/Workflow/Scenarios/Queue.antt =====
-- The claims and the listings of the memory store at concrete inputs.
use opspilot_go_dev_kit.Prelude.{
  ℕ, suc, String, ◌≡◌, refl, false, not, none, List, [], ◌∷◌, ◌++◌, map, min, Permᴰ, ok, length,
  keep, count_if, str-ne_of_false,
}
use opspilot_go_dev_kit.Prelude.Dict.{values}
use opspilot_go_dev_kit.Prelude.Sorting.{IsSorted, sort}
use opspilot_go_dev_kit.Prelude.Paging.{pos}
use opspilot_go_dev_kit.Workflow.Types.{
  Task, TaskListFilter, status_queued, status_running, task_type_report_generation,
}
use opspilot_go_dev_kit.Workflow.Memory.{
  MemoryStore, claim_queued_tasks, created_before, is_queued, skips, listed_before, list_tasks,
  claim_one,
}
use opspilot_go_dev_kit.Workflow.Memory.Laws.{IsKeyed}
use opspilot_go_dev_kit.Workflow.Memory.Fifo.{running_at, claim_fifo}
use opspilot_go_dev_kit.Workflow.Memory.Listing.{task_rows, list_tasks_of_perm, list_tasks_pages}

abbrev pub task_of : String → String → ℕ → Task
task_of id status created = record {
  id = id;
  request_id = "";
  tenant_id = "acme";
  session_id = "";
  task_type = task_type_report_generation;
  version_id = "";
  tool_name = "";
  tool_arguments = "";
  status = status;
  reason = "";
  error_reason = "";
  audit_ref = "";
  requires_approval = false;
  created_at = created;
  updated_at = created;
}

abbrev late : Task
late = task_of "task-b" status_queued 20

abbrev early : Task
early = task_of "task-a" status_queued 10

abbrev pub busy : Task
busy = task_of "task-c" status_running 5

abbrev pub three : MemoryStore
three = record {
  tasks = ("task-b", late) ∷ ("task-a", early) ∷ ("task-c", busy) ∷ [];
  events = [];
  next_event_id = 0;
}

three_again : MemoryStore
three_again = record three { tasks = ("task-a", early) ∷ ("task-b", late) ∷ ("task-c", busy) ∷ [] }

three-IsKeyed : IsKeyed three
three-IsKeyed = (
  (refl, (refl, (refl, tt))),
  ((str-ne_of_false refl, (str-ne_of_false refl, tt)), ((str-ne_of_false refl, tt), (tt, tt))),
)

claim_fifo_example :
    (taken left : List Task) × ((claim_queued_tasks 30 (pos 1) three).0
      ≡ ok (map (running_at 30) taken))
    × Permᴰ (taken ++ left) (keep is_queued (values three.tasks))
    × IsSorted created_before (taken ++ left)
    × (length taken ≡ min 1 (count_if is_queued (values three.tasks)))
claim_fifo_example = claim_fifo 30 0 three

claim_oldest_test : (claim_queued_tasks 30 (pos 1) three).0 ≡ ok (running_at 30 early ∷ [])
unfolding claim_queued_tasks sort keep claim_one
claim_oldest_test = refl

abbrev everything : TaskListFilter
everything = record {
  tenant_id = "acme";
  status = "";
  task_type = "";
  reason = "";
  requires_approval = none;
  created_after = none;
  created_before = none;
  updated_after = none;
  updated_before = none;
  limit = pos 2;
  offset = pos 0;
}

list_tasks_of_perm_example : list_tasks everything three ≡ list_tasks everything three_again
unfolding three_again
list_tasks_of_perm_example =
    list_tasks_of_perm everything three three_again three-IsKeyed (Permᴰ.swap refl refl)

list_tasks_pages_example :
    let rows = task_rows (suc (length (values three.tasks))) everything three in
    Permᴰ rows (keep (λ t. not (skips everything t)) (values three.tasks))
    × IsSorted listed_before rows
list_tasks_pages_example = list_tasks_pages everything three refl
