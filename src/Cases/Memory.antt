-- ===== src/Cases/Memory.antt =====
-- internal/case/memory_store.go: the in-memory case store. A method holds the store's mutex from its
-- first line to its return, so it is one step here.
pub mod Listing
pub mod Newest
pub mod Notes
use opspilot_go_dev_kit.Prelude.{
  differs, ℕ, zero, suc, ◌+◌, ◌-◌, ◌%◌, ◌^◌, String, ◌<>◌, Bool, true, false, ◌&&◌, ◌||◌, not,
  Option, none, some, List, [], ◌∷◌, ◌++◌, Result, ok, err, ◌==◌, if◌then◌else◌, eqb, or_else,
  is_some, keep, any, take, length,
}
use opspilot_go_dev_kit.Prelude.Clock.{next_uint64, unix_nano}
use opspilot_go_dev_kit.Prelude.Decimal.{decimal}
use opspilot_go_dev_kit.Prelude.Dict.{Dict, find, put, values}
use opspilot_go_dev_kit.Prelude.Sorting.{sort}
use opspilot_go_dev_kit.Prelude.Paging.{ℤ, pos, negsuc, Page, paginate, page_limit, page_offset}
use opspilot_go_dev_kit.Cases.Types.{
  Case, CaseError, case_not_found, invalid_case_state, case_conflict, CompareOrigin, Note,
  ListFilter, status_open, status_closed,
}
use opspilot_go_dev_kit.Cases.Order.{case_sorts_after}

-- The package's two atomic counters, `caseIDSequence` and `caseNoteIDSequence`, stand with the state.
pub record MemoryStore : Type 0 where
  pub records : Dict Case
  pub notes : Dict (List Note)
  pub case_id_sequence : ℕ
  pub case_note_id_sequence : ℕ

unfoldable pub new_memory_store : MemoryStore
new_memory_store = record {
  records = [];
  notes = [];
  case_id_sequence = 0;
  case_note_id_sequence = 0;
}

-- The id for a value of the counter that was just raised.
unfoldable pub new_case_note_id : ℕ → ℕ → String
new_case_note_id now sequence = "case-note-" <> decimal (unix_nano now) <> "-" <> decimal sequence

-- `s.notes[id]`: nil where the key is missing.
abbrev pub notes_of : String → MemoryStore → List Note
notes_of id s = or_else (find id s.notes) []

abbrev pub set_record : Case → MemoryStore → MemoryStore
set_record item s = record s { records = put item.id item s.records }

unfoldable pub save : Case → MemoryStore → Result CaseError Case × MemoryStore
save item s = (ok item, set_record item s)

unfoldable pub is_open_for_run : Case → Case → Bool
is_open_for_run item existing =
    existing.tenant_id == item.tenant_id
    && existing.status == status_open
    && existing.source_eval_run_id == item.source_eval_run_id

-- The loop up to its first `return`: both of its branches return the same.
abbrev pub first_where : (Case → Bool) → List Case → Option Case
first_where p [] = none
first_where p (c ∷ cs) = let rest = first_where p cs in if p c then some c else rest

-- The Boolean says whether a case was created.
unfoldable pub save_or_reuse_open_eval_run_case :
    Case → MemoryStore → Result CaseError (Case × Bool) × MemoryStore
unfolding is_open_for_run
save_or_reuse_open_eval_run_case item s =
    elim (first_where (is_open_for_run item) (values s.records)) [
      | some existing ↦ (ok (existing, false), s)
      | none ↦ (ok (item, true), set_record item s)
    ]

unfoldable pub get : String → MemoryStore → Result CaseError Case
get id s = elim (find id s.records) [ none ↦ err (case_not_found id) | some item ↦ ok item ]

abbrev pub lacks_origin : CompareOrigin → Bool
lacks_origin o =
    o.left_eval_report_id == "" || o.right_eval_report_id == "" || o.selected_side == ""

-- The keys of the set that the code makes of the ids: the ids but the empty one.
abbrev pub allowed_ids : List String → List String
allowed_ids ids = keep (λ id. not (id == "")) ids

abbrev pub is_in : String → List String → Bool
is_in id ids = any (λ other. other == id) ids

abbrev pub not_allowed : List String → String → Bool
not_allowed [] id = false
not_allowed (a ∷ allowed) id = not (is_in id (a ∷ allowed))

-- The `continue` guards of `List`.
unfoldable pub skips : ListFilter → Case → Bool
skips f c =
    differs f.tenant_id c.tenant_id
    || differs f.status c.status
    || differs f.assigned_to c.assigned_to
    || (f.unassigned_only && not (c.assigned_to == ""))
    || (f.eval_backed_only && c.source_eval_report_id == "")
    || (f.run_backed_only && c.source_eval_run_id == "")
    || (f.compare_origin_only && lacks_origin c.compare_origin)
    || (f.exclude_compare_origin && not (c.compare_origin.selected_side == ""))
    || (f.plain_eval_report_only && not (c.source_eval_case_id == ""))
    || differs f.source_task_id c.source_task_id
    || differs f.source_report_id c.source_report_id
    || differs f.source_eval_report_id c.source_eval_report_id
    || not_allowed (allowed_ids f.source_eval_report_ids) c.source_eval_report_id
    || differs f.source_eval_case_id c.source_eval_case_id
    || differs f.source_eval_run_id c.source_eval_run_id

-- The rows of `List` before the page is cut.
unfoldable pub listed : ListFilter → MemoryStore → List Case
listed f s = sort case_sorts_after (keep (λ c. not (skips f c)) (values s.records))

unfoldable pub list : ListFilter → MemoryStore → Result CaseError (Page Case)
unfolding listed
list f s = ok (paginate (listed f s) (page_limit f.limit) (page_offset f.offset))

unfoldable pub is_open_for_origin : String → String → CompareOrigin → Case → Bool
is_open_for_origin tenant_id source_eval_report_id o c =
    c.tenant_id == tenant_id
    && c.status == status_open
    && c.source_eval_report_id == source_eval_report_id
    && c.compare_origin.left_eval_report_id == o.left_eval_report_id
    && c.compare_origin.right_eval_report_id == o.right_eval_report_id
    && c.compare_origin.selected_side == o.selected_side

-- The loops' `!found || caseSortsAfter(item, latest)`.
abbrev pub replaces : Case → Option Case → Bool
replaces item none = true
replaces item (some latest) = case_sorts_after item latest

-- The loop that keeps the latest of the cases that pass the guards.
abbrev pub latest_where : (Case → Bool) → Option Case → List Case → Option Case
latest_where p latest [] = latest
latest_where p latest (item ∷ rest) =
    latest_where p (if p item && replaces item latest then some item else latest) rest

-- None is the answer with `false`.
unfoldable pub find_open_by_compare_origin :
    String → String → CompareOrigin → MemoryStore → Result CaseError (Option Case)
unfolding is_open_for_origin
find_open_by_compare_origin tenant_id source_eval_report_id o s =
    ok (latest_where (is_open_for_origin tenant_id source_eval_report_id o) none (values s.records))

abbrev pub push_note : Note → MemoryStore → MemoryStore
push_note note s = record s {
  notes = put note.case_id (notes_of note.case_id s ++ note ∷ []) s.notes;
}

unfoldable pub append_note : Note → MemoryStore → Result CaseError Note × MemoryStore
append_note note s = elim (find note.case_id s.records) [
  | none ↦ (err (case_not_found note.case_id), s)
  | some item ↦ (
    ok note,
    push_note note (record s {
      records = put note.case_id (record item { updated_at = note.created_at }) s.records;
    }),
  )
]

-- The loop down from the last index, cut off at `count` notes.
unfoldable pub last_notes : ℕ → List Note → List Note
last_notes count [] = []
last_notes count (note ∷ rest) =
    let later = last_notes count rest in
    if eqb (length later) count then later else later ++ note ∷ []

unfoldable pub list_notes : String → ℤ → MemoryStore → Result CaseError (List Note)
unfolding last_notes
list_notes id limit s = elim (find id s.records) [
  | none ↦ err (case_not_found id)
  | some _ ↦ ok (last_notes (page_limit limit) (notes_of id s))
]

unfoldable pub closed : ℕ → String → Case → Case
closed closed_at closed_by item = record item {
  status = status_closed;
  closed_by = closed_by;
  updated_at = closed_at;
}

unfoldable pub close : String → String → ℕ → MemoryStore → Result CaseError Case × MemoryStore
unfolding closed
close id closed_by closed_at s = elim (find id s.records) [
  | none ↦ (err (case_not_found id), s)
  | some item ↦
      if item.status == status_closed
      then (err invalid_case_state, s)
      else (let c = closed closed_at closed_by item in
          (ok c, record s { records = put id c s.records }))
]

-- The note that the store writes itself, with the next id of the package's counter.
abbrev pub store_note : String → Case → String → String → ℕ → MemoryStore → MemoryStore
store_note id item body author now s =
    let n = next_uint64 s.case_note_id_sequence in
    record s {
      case_note_id_sequence = n;
      notes =
          put id
            (notes_of id s
              ++ record {
                id = new_case_note_id now n;
                tenant_id = item.tenant_id;
                case_id = item.id;
                body = body;
                created_by = author;
                created_at = now;
              }
                ∷ [])
            s.notes;
    }

unfoldable pub reopened : ℕ → Case → Case
reopened reopened_at item = record item {
  status = status_open;
  closed_by = "";
  updated_at = reopened_at;
}

unfoldable pub reopen : String → String → ℕ → MemoryStore → Result CaseError Case × MemoryStore
unfolding reopened new_case_note_id
reopen id reopened_by reopened_at s = elim (find id s.records) [
  | none ↦ (err (case_not_found id), s)
  | some item ↦
      if item.status == status_closed
      then (let c = reopened reopened_at item in
          (
            ok c,
            store_note id c ("case reopened by " <> reopened_by) reopened_by reopened_at
                (record s { records = put id c s.records }),
          ))
      else (err invalid_case_state, s)
]

unfoldable pub assigned : ℕ → String → Case → Case
assigned at to item = record item { assigned_to = to; assigned_at = at; updated_at = at }

unfoldable pub assign : String → String → ℕ → ℕ → MemoryStore → Result CaseError Case × MemoryStore
unfolding assigned
assign id to at expected s = elim (find id s.records) [
  | none ↦ (err (case_not_found id), s)
  | some item ↦
      if item.status == status_closed
      then (err invalid_case_state, s)
      else if eqb item.updated_at expected
      then (let c = assigned at to item in (ok c, record s { records = put id c s.records }))
      else (err case_conflict, s)
]

unfoldable pub unassigned : ℕ → Case → Case
unassigned at item = record item { assigned_to = ""; assigned_at = 0; updated_at = at }

unfoldable pub unassign :
    String → String → ℕ → ℕ → MemoryStore → Result CaseError Case × MemoryStore
unfolding unassigned new_case_note_id
unassign id by at expected s = elim (find id s.records) [
  | none ↦ (err (case_not_found id), s)
  | some item ↦
      if item.status == status_closed
      then (err invalid_case_state, s)
      else if item.assigned_to == ""
      then (err invalid_case_state, s)
      else if eqb item.updated_at expected
      then (let c = unassigned at item in
          (
            ok c,
            store_note id c ("case returned to queue by " <> by) by at
                (record s { records = put id c s.records }),
          ))
      else (err case_conflict, s)
]
