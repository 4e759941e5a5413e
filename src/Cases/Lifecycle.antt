-- ===== src/Cases/Lifecycle.antt =====
-- The life of the cases (internal/case): the calls of the service as steps on its store, in any order
-- and number, and what holds of every store that they reach.
pub mod Writes
pub mod Valid
pub mod Runs
use opspilot_go_dev_kit.Prelude.{
  ℕ, String, Bool, true, false, Option, some, List, ◌≡◌, ◌≢◌, ◌⊎◌, All,
}
use opspilot_go_dev_kit.Prelude.Dict.{Dict, find, KeyedBy}
use opspilot_go_dev_kit.Cases.Types.{Case, Note, CreateInput, status_open, status_closed}
use opspilot_go_dev_kit.Cases.Memory.{MemoryStore, new_memory_store}
use opspilot_go_dev_kit.Cases.Service.{
  create_case_with_outcome, close_case, reopen_case, assign_case, unassign_case, add_note,
}

-- The index says whether cases may be reopened. `existing` is whatever the caller read before.
pub data Step : Bool → MemoryStore → MemoryStore → Type 0 where
  created :
      {b : Bool} {s : MemoryStore} (now : ℕ) (input : CreateInput)
      → Step b s (create_case_with_outcome now input s).1
  closed :
      {b : Bool} {s : MemoryStore} (now : ℕ) (id closed_by : String)
      → Step b s (close_case now id closed_by s).1
  reopened :
      {s : MemoryStore} (now : ℕ) (id reopened_by : String)
      → Step true s (reopen_case now id reopened_by s).1
  assigned :
      {b : Bool} {s : MemoryStore} (now : ℕ) (existing : Case) (to : String)
      → Step b s (assign_case now existing to s).1
  unassigned :
      {b : Bool} {s : MemoryStore} (now : ℕ) (existing : Case) (by : String)
      → Step b s (unassign_case now existing by s).1
  noted :
      {b : Bool} {s : MemoryStore} (now : ℕ) (existing : Case) (body author : String)
      → Step b s (add_note now existing body author s).1

pub data Reach : Bool → MemoryStore → Type 0 where
  started : {b : Bool} → Reach b new_memory_store
  then_step : {b : Bool} {s s' : MemoryStore} → Reach b s → Step b s s' → Reach b s'

-- An open case has nobody who closed it, a closed case has somebody.
abbrev pub IsSettled : Case → Type 0
IsSettled c =
    ((c.status ≡ status_open) × (c.closed_by ≡ ""))
    ⊎ ((c.status ≡ status_closed) × (c.closed_by ≢ ""))

abbrev pub AllSettled : Dict Case → Type 0
AllSettled records = (id : String) (c : Case) → find id records ≡ some c → IsSettled c

-- Notes are kept for cases that exist, each under the case it names.
abbrev pub NotesBelong : Dict Case → Dict (List Note) → Type 0
NotesBelong records notes =
    (id : String) (ns : List Note)
    → find id notes ≡ some ns
    → ((c : Case) × (find id records ≡ some c)) × All (λ n. n.case_id ≡ id) ns

pub record IsValid (s : MemoryStore) : Type 0 where
  pub keyed : KeyedBy (λ c. c.id) s.records
  pub settled : AllSettled s.records
  pub belong : NotesBelong s.records s.notes

-- No two open cases of one tenant are for the same run of an evaluation.
abbrev pub OneOpenPerRun : MemoryStore → Type 0
OneOpenPerRun s =
    (i j : String) (c d : Case)
    → find i s.records ≡ some c
    → find j s.records ≡ some d
    → c.status ≡ status_open
    → d.status ≡ status_open
    → c.tenant_id ≡ d.tenant_id
    → c.source_eval_run_id ≡ d.source_eval_run_id
    → c.source_eval_run_id ≢ ""
    → i ≡ j
