-- ===== src/Cases/Service.antt =====
-- internal/case/service.go: the case service over the store that `NewService` gives it, the one in
-- memory. Each `time.Now().UTC()` is an argument.
use opspilot_go_dev_kit.Prelude.{
  ℕ, String, ◌<>◌, Bool, true, false, ◌||◌, not, Option, none, some, List, [], ◌∷◌, Result, ok, err,
  ◌==◌, if◌then◌else◌,
}
use opspilot_go_dev_kit.Prelude.Clock.{next_uint64, unix_nano}
use opspilot_go_dev_kit.Prelude.Strings.{trim_space}
use opspilot_go_dev_kit.Prelude.Decimal.{decimal}
use opspilot_go_dev_kit.Prelude.Dict.{Dict}
use opspilot_go_dev_kit.Prelude.Paging.{ℤ, pos, Page}
use opspilot_go_dev_kit.Cases.Types.{
  Case, CaseError, invalid_case_state, invalid_note, CompareOrigin, Note, CreateInput, ListFilter,
  FollowUpSummary, EvalRunFollowUpSummary, status_open,
}
use opspilot_go_dev_kit.Cases.Memory.{
  MemoryStore, new_case_note_id, save, save_or_reuse_open_eval_run_case, get, list,
  find_open_by_compare_origin, append_note, list_notes, close, reopen, assign, unassign,
}
use opspilot_go_dev_kit.Cases.Summaries.{
  summarize_by_source_eval_report_ids, summarize_compare_origin_by_source_eval_report_ids,
  summarize_by_source_eval_case_ids, summarize_by_source_eval_run_ids,
}

unfoldable pub fallback_string : String → String → String
fallback_string value fallback = if value == "" then fallback else value

unfoldable pub new_case_id : ℕ → ℕ → String
new_case_id now sequence = "case-" <> decimal (unix_nano now) <> "-" <> decimal sequence

-- The case that `CreateCaseWithOutcome` builds.
unfoldable pub created_case : ℕ → String → CreateInput → Case
unfolding fallback_string
created_case now id input = record {
  id = id;
  tenant_id = input.tenant_id;
  status = status_open;
  title = input.title;
  summary = input.summary;
  source_task_id = input.source_task_id;
  source_report_id = input.source_report_id;
  source_eval_report_id = input.source_eval_report_id;
  source_eval_case_id = input.source_eval_case_id;
  source_eval_run_id = input.source_eval_run_id;
  compare_origin = input.compare_origin;
  created_by = fallback_string input.created_by "operator";
  assigned_to = "";
  assigned_at = 0;
  closed_by = "";
  created_at = now;
  updated_at = now;
}

abbrev with_outcome :
    Result CaseError Case × MemoryStore → Result CaseError (Case × Bool) × MemoryStore
with_outcome (ok saved, s) = (ok (saved, true), s)
with_outcome (err e, s) = (err e, s)

unfoldable pub create_case_with_outcome :
    ℕ → CreateInput → MemoryStore → Result CaseError (Case × Bool) × MemoryStore
unfolding created_case new_case_id save save_or_reuse_open_eval_run_case
create_case_with_outcome now input s =
    let n = next_uint64 s.case_id_sequence in
    let s₁ : MemoryStore = record s { case_id_sequence = n } in
    let item = created_case now (new_case_id now n) input in
    if item.source_eval_run_id == ""
    then with_outcome (save item s₁)
    else save_or_reuse_open_eval_run_case item s₁

abbrev without_outcome :
    Result CaseError (Case × Bool) × MemoryStore → Result CaseError Case × MemoryStore
without_outcome (ok (item, _), s) = (ok item, s)
without_outcome (err e, s) = (err e, s)

unfoldable pub create_case : ℕ → CreateInput → MemoryStore → Result CaseError Case × MemoryStore
unfolding create_case_with_outcome
create_case now input s = without_outcome (create_case_with_outcome now input s)

-- The methods that pass a call on to the store.
unfoldable pub get_case : String → MemoryStore → Result CaseError Case
unfolding get
get_case id s = get id s

unfoldable pub list_cases : ListFilter → MemoryStore → Result CaseError (Page Case)
unfolding list
list_cases filter s = list filter s

-- A filter that asks for nothing but the open cases of a tenant, one at most.
abbrev open_filter : String → ListFilter
open_filter tenant_id = record {
  tenant_id = tenant_id;
  status = status_open;
  assigned_to = "";
  unassigned_only = false;
  eval_backed_only = false;
  run_backed_only = false;
  compare_origin_only = false;
  exclude_compare_origin = false;
  plain_eval_report_only = false;
  source_task_id = "";
  source_report_id = "";
  source_eval_report_id = "";
  source_eval_report_ids = [];
  source_eval_case_id = "";
  source_eval_run_id = "";
  limit = pos 1;
  offset = pos 0;
}

abbrev pub head : List Case → Option Case
head [] = none
head (c ∷ _) = some c

-- `len(page.Cases) == 0` gives none, otherwise `page.Cases[0]`.
abbrev first_of_page : Result CaseError (Page Case) → Result CaseError (Option Case)
first_of_page (err e) = err e
first_of_page (ok page) = ok (head page.items)

abbrev pub eval_case_filter : String → String → ListFilter
eval_case_filter tenant_id source_eval_case_id = record (open_filter tenant_id) {
  exclude_compare_origin = true;
  source_eval_case_id = source_eval_case_id;
}

abbrev pub eval_run_filter : String → String → ListFilter
eval_run_filter tenant_id source_eval_run_id = record (open_filter tenant_id) {
  source_eval_run_id = source_eval_run_id;
}

abbrev pub eval_report_filter : String → String → ListFilter
eval_report_filter tenant_id source_eval_report_id = record (open_filter tenant_id) {
  exclude_compare_origin = true;
  plain_eval_report_only = true;
  source_eval_report_id = source_eval_report_id;
}

unfoldable pub find_open_case_by_source_eval_case :
    String → String → MemoryStore → Result CaseError (Option Case)
unfolding list
find_open_case_by_source_eval_case tenant_id id s =
    first_of_page (list (eval_case_filter tenant_id id) s)

unfoldable pub find_open_case_by_source_eval_run :
    String → String → MemoryStore → Result CaseError (Option Case)
unfolding list
find_open_case_by_source_eval_run tenant_id id s =
    first_of_page (list (eval_run_filter tenant_id id) s)

unfoldable pub find_open_case_by_source_eval_report :
    String → String → MemoryStore → Result CaseError (Option Case)
unfolding list
find_open_case_by_source_eval_report tenant_id id s =
    first_of_page (list (eval_report_filter tenant_id id) s)

unfoldable pub find_open_case_by_compare_origin :
    String → String → CompareOrigin → MemoryStore → Result CaseError (Option Case)
unfolding find_open_by_compare_origin
find_open_case_by_compare_origin tenant_id id o s = find_open_by_compare_origin tenant_id id o s

unfoldable pub service_summarize_by_source_eval_report_ids :
    String → List String → MemoryStore → Result CaseError (Dict FollowUpSummary)
service_summarize_by_source_eval_report_ids = summarize_by_source_eval_report_ids

unfoldable pub service_summarize_compare_origin_by_source_eval_report_ids :
    String → List String → MemoryStore → Result CaseError (Dict FollowUpSummary)
service_summarize_compare_origin_by_source_eval_report_ids =
    summarize_compare_origin_by_source_eval_report_ids

unfoldable pub service_summarize_by_source_eval_case_ids :
    String → List String → MemoryStore → Result CaseError (Dict FollowUpSummary)
service_summarize_by_source_eval_case_ids = summarize_by_source_eval_case_ids

unfoldable pub service_summarize_by_source_eval_run_ids :
    String → List String → MemoryStore → Result CaseError (Dict EvalRunFollowUpSummary)
service_summarize_by_source_eval_run_ids = summarize_by_source_eval_run_ids

unfoldable pub list_case_notes : String → ℤ → MemoryStore → Result CaseError (List Note)
unfolding list_notes
list_case_notes id limit s = list_notes id limit s

unfoldable pub close_case : ℕ → String → String → MemoryStore → Result CaseError Case × MemoryStore
unfolding close fallback_string
close_case now id closed_by s = close id (fallback_string closed_by "operator") now s

unfoldable pub reopen_case : ℕ → String → String → MemoryStore → Result CaseError Case × MemoryStore
unfolding reopen fallback_string
reopen_case now id reopened_by s =
    reopen id (fallback_string (trim_space reopened_by) "operator") now s

unfoldable pub assign_case : ℕ → Case → String → MemoryStore → Result CaseError Case × MemoryStore
unfolding assign fallback_string
assign_case now existing to s =
    assign existing.id (fallback_string (trim_space to) "operator") now existing.updated_at s

unfoldable pub unassign_case : ℕ → Case → String → MemoryStore → Result CaseError Case × MemoryStore
unfolding unassign fallback_string
unassign_case now existing by s =
    if not (existing.status == status_open) || trim_space existing.assigned_to == ""
    then (err invalid_case_state, s)
    else unassign existing.id (fallback_string (trim_space by) "operator") now existing.updated_at s

unfoldable pub add_note :
    ℕ → Case → String → String → MemoryStore → Result CaseError Note × MemoryStore
unfolding append_note new_case_note_id fallback_string
add_note now existing body created_by s =
    let text = trim_space body in
    if text == ""
    then (err invalid_note, s)
    else (let n = next_uint64 s.case_note_id_sequence in
        append_note
          (record {
            id = new_case_note_id now n;
            tenant_id = existing.tenant_id;
            case_id = existing.id;
            body = text;
            created_by = fallback_string (trim_space created_by) "operator";
            created_at = now;
          })
          (record s { case_note_id_sequence = n }))
