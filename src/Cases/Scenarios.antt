-- ===== src/Cases/Scenarios.antt =====
-- The case service on concrete stores (internal/case): tests of its operations, and the theorems of the
-- modules beside this one at work.
use opspilot_go_dev_kit.Prelude.{
  ℕ, ◌+◌, if◌then◌else◌, String, ◌≡◌, ◌≢◌, refl, Bool, true, false, none, some, [], ◌∷◌, Result, ok,
  err, arith, Permᴰ, keep, length, take, ◌&&◌, str-ne_of_false,
}
use opspilot_go_dev_kit.Prelude.Decimal.{decimal, write_digits}
use opspilot_go_dev_kit.Prelude.Strings.{trim_space, trim_left, trim_right, last_index}
use opspilot_go_dev_kit.Prelude.Dict.{Dict, find, values, KeyedBy}
use opspilot_go_dev_kit.Prelude.Sorting.{sort, IsSorted}
use opspilot_go_dev_kit.Prelude.Paging.{pos, page_limit}
use opspilot_go_dev_kit.Cases.Types.{
  Case, Note, CreateInput, ListFilter, CaseError, invalid_case_state, case_conflict,
  FollowUpSummary, EvalRunFollowUpSummary,
}
use opspilot_go_dev_kit.Cases.Order.{case_sorts_after, case_id_numeric_suffix}
use opspilot_go_dev_kit.Cases.Memory.{
  assigned, MemoryStore, new_memory_store, list, find_open_by_compare_origin, is_open_for_origin,
  closed, notes_of, assign, append_note, get, new_case_note_id,
}
use opspilot_go_dev_kit.Cases.Memory.Listing.{
  list_of_perm, list_pages, case_rows, passing, Suffixed,
}
use opspilot_go_dev_kit.Cases.Memory.Newest.{find_open_by_compare_origin-first, first_row}
use opspilot_go_dev_kit.Cases.Memory.Notes.{newest_first}
use opspilot_go_dev_kit.Cases.Summaries.{
  is_open, any_case, has_origin, summarize_by_source_eval_run_ids,
  summarize_by_source_eval_report_ids, summarize_by_source_eval_case_ids,
  summarize_compare_origin_by_source_eval_report_ids,
}
use opspilot_go_dev_kit.Cases.Summaries.Counts.{is_for}
use opspilot_go_dev_kit.Cases.Summaries.Totals.{summaries_by_source-totals, summaries_by_run-totals}
use opspilot_go_dev_kit.Cases.Service.{
  create_case_with_outcome, created_case, assign_case, unassign_case, add_note, list_case_notes,
  close_case, reopen_case, get_case, fallback_string,
}
use opspilot_go_dev_kit.Cases.Effects.{add_note-listed, assign_case-stale, returnable}
use opspilot_go_dev_kit.Cases.Reuse.{create_case_twice}
use opspilot_go_dev_kit.Cases.Closing.{close_case-then}
use opspilot_go_dev_kit.Cases.Lifecycle.{
  created, reopened, started, then_step, IsValid, OneOpenPerRun,
}
use opspilot_go_dev_kit.Cases.Lifecycle.Valid.{Reach-IsValid}
use opspilot_go_dev_kit.Cases.Lifecycle.Runs.{Reach-OneOpenPerRun}

abbrev start_time : ℕ
start_time = 62135596800000001000

abbrev run_input : CreateInput
run_input = record {
  tenant_id = "t1";
  title = "regression";
  summary = "";
  source_task_id = "";
  source_report_id = "";
  source_eval_report_id = "report-1";
  source_eval_case_id = "";
  source_eval_run_id = "run-1";
  compare_origin = record {
    left_eval_report_id = "report-0";
    right_eval_report_id = "report-1";
    selected_side = "right";
  };
  created_by = "";
}

abbrev first_case : Case
first_case = created_case start_time "case-1000-1" run_input

abbrev second_case : Case
second_case = created_case start_time "case-1000-2" run_input

abbrev two_cases : MemoryStore
two_cases = record {
  records = ("case-1000-1", first_case) ∷ ("case-1000-2", second_case) ∷ [];
  notes = [];
  case_id_sequence = 2;
  case_note_id_sequence = 0;
}

abbrev swapped : MemoryStore
swapped = record two_cases {
  records = ("case-1000-2", second_case) ∷ ("case-1000-1", first_case) ∷ [];
}

abbrev by_tenant : ListFilter
by_tenant = record {
  tenant_id = "t1";
  status = "";
  assigned_to = "";
  unassigned_only = true;
  eval_backed_only = true;
  run_backed_only = false;
  compare_origin_only = true;
  exclude_compare_origin = false;
  plain_eval_report_only = false;
  source_task_id = "";
  source_report_id = "";
  source_eval_report_id = "";
  source_eval_report_ids = "" ∷ "report-1" ∷ [];
  source_eval_case_id = "";
  source_eval_run_id = "";
  limit = pos 1;
  offset = pos 0;
}

suffix_test : case_id_numeric_suffix "case-1774310400000000000-12" ≡ some 12
unfolding case_id_numeric_suffix last_index
suffix_test = refl

suffix_overflow_test : case_id_numeric_suffix "case-18446744073709551616" ≡ none
unfolding case_id_numeric_suffix last_index
suffix_overflow_test = refl

two_cases-Suffixed : Suffixed two_cases
unfolding created_case case_id_numeric_suffix last_index
two_cases-Suffixed = ((1, refl), ((2, refl), tt))

two_cases-KeyedBy : KeyedBy (λ c. c.id) two_cases.records
unfolding created_case
two_cases-KeyedBy = ((refl, (refl, tt)), ((str-ne_of_false refl, tt), (tt, tt)))

list_of_perm_example : list by_tenant two_cases ≡ list by_tenant swapped
list_of_perm_example =
    list_of_perm by_tenant two_cases swapped two_cases-KeyedBy two_cases-Suffixed
      (Permᴰ.swap refl refl)

list_pages_example :
    Permᴰ (case_rows 3 by_tenant two_cases) (passing by_tenant two_cases)
    × IsSorted case_sorts_after (case_rows 3 by_tenant two_cases)
list_pages_example = list_pages by_tenant two_cases two_cases-Suffixed refl

find_open_by_compare_origin-first_example :
    find_open_by_compare_origin "t1" "report-1" run_input.compare_origin two_cases
    ≡ ok (
        first_row (
          sort case_sorts_after (
            keep
              (is_open_for_origin "t1" "report-1" run_input.compare_origin)
              (values two_cases.records))))
find_open_by_compare_origin-first_example =
    find_open_by_compare_origin-first "t1" "report-1" run_input.compare_origin two_cases
      two_cases-Suffixed

run_1_given : ◌≢◌ {A = String} "run-1" ""
run_1_given e = cc

report_1_given : ◌≢◌ {A = String} "report-1" ""
report_1_given e = cc

summaries_by_run-totals_example :
    (d : Dict EvalRunFollowUpSummary) × (m : EvalRunFollowUpSummary)
    × (summarize_by_source_eval_run_ids "t1" ("" ∷ "run-1" ∷ []) two_cases ≡ ok d)
    × (find "run-1" d ≡ some m)
    × (m.follow_up_case_count
        ≡ length (
            keep
              (is_for (λ c. c.source_eval_run_id) any_case "t1" "run-1")
              (values two_cases.records)))
    × (m.open_follow_up_case_count
        ≡ length (
            keep
              (λ c. is_for (λ c. c.source_eval_run_id) any_case "t1" "run-1" c && is_open c)
              (values two_cases.records)))
summaries_by_run-totals_example =
    summaries_by_run-totals "t1" ("" ∷ "run-1" ∷ []) two_cases "run-1" run_1_given refl

abbrev ReportTotals :
    (Case → String) → (Case → Bool) → Result CaseError (Dict FollowUpSummary) → Type 0
ReportTotals source extra r =
    (d : Dict FollowUpSummary) × (m : FollowUpSummary) × (r ≡ ok d)
    × (find "report-1" d ≡ some m)
    × (m.follow_up_case_count
        ≡ length (keep (is_for source extra "t1" "report-1") (values two_cases.records)))
    × (m.open_follow_up_case_count
        ≡ length (
            keep (λ c. is_for source extra "t1" "report-1" c && is_open c)
              (values two_cases.records)))

summaries_by_source-totals_example :
    ReportTotals
      (λ c. c.source_eval_report_id)
      any_case
      (summarize_by_source_eval_report_ids "t1" ("report-1" ∷ []) two_cases)
    × ReportTotals
        (λ c. c.source_eval_report_id)
        has_origin
        (summarize_compare_origin_by_source_eval_report_ids "t1" ("report-1" ∷ []) two_cases)
    × ReportTotals
        (λ c. c.source_eval_case_id)
        any_case
        (summarize_by_source_eval_case_ids "t1" ("report-1" ∷ []) two_cases)
summaries_by_source-totals_example =
    summaries_by_source-totals "t1" ("report-1" ∷ []) two_cases "report-1" report_1_given refl

abbrev after_create : MemoryStore
after_create = (create_case_with_outcome start_time run_input new_memory_store).1

create_case_twice_example :
    let (r, s') = create_case_with_outcome start_time run_input new_memory_store in
    let (r', s'') = create_case_with_outcome (start_time + 5) run_input s' in
    (x : Case) × (b : Bool) × (r ≡ ok (x, b))
    × (r' ≡ ok (x, false))
    × (s''.records ≡ s'.records)
    × (s''.notes ≡ s'.notes)
create_case_twice_example =
    create_case_twice start_time (start_time + 5) run_input run_input new_memory_store run_1_given
      refl refl

assigned_first :
    (assign_case (start_time + 1) first_case "ann" two_cases).0
    ≡ ok (record first_case {
      assigned_to = "ann";
      assigned_at = start_time + 1;
      updated_at = start_time + 1;
    })
unfolding assign_case assign assigned created_case fallback_string trim_space trim_left trim_right
    find
assigned_first = refl

later_instant : start_time + 1 ≢ first_case.updated_at
unfolding created_case
later_instant = λ e. omega arith

assign_case-stale_example :
    let s' = (assign_case (start_time + 1) first_case "ann" two_cases).1 in
    (assign_case (start_time + 2) first_case "bob" s' ≡ (err case_conflict, s'))
    × (unassign_case (start_time + 2) first_case "bob" s'
        ≡ (err (if returnable first_case then case_conflict else invalid_case_state), s'))
assign_case-stale_example =
    assign_case-stale (start_time + 1) (start_time + 2) first_case
      (record first_case {
        assigned_to = "ann";
        assigned_at = start_time + 1;
        updated_at = start_time + 1;
      })
      "ann" "bob" two_cases assigned_first later_instant

abbrev noted_first : Note
noted_first = record {
  id = "case-note-1001-1";
  tenant_id = "t1";
  case_id = "case-1000-1";
  body = "seen";
  created_by = "ann";
  created_at = start_time + 1;
}

note_taken : (add_note (start_time + 1) first_case " seen " "ann" two_cases).0 ≡ ok noted_first
unfolding add_note append_note created_case fallback_string trim_space trim_left trim_right find
    new_case_note_id decimal write_digits
note_taken = refl

add_note-listed_example :
    list_case_notes "case-1000-1"
      (pos 5)
      (add_note (start_time + 1) first_case " seen " "ann" two_cases).1
    ≡ ok (take 5 (noted_first ∷ newest_first (notes_of "case-1000-1" two_cases)))
unfolding created_case page_limit
add_note-listed_example =
    add_note-listed (start_time + 1) first_case " seen " "ann" noted_first two_cases (pos 5)
      note_taken

first_found : get_case "case-1000-1" two_cases ≡ ok first_case
unfolding get_case get find created_case
first_found = refl

close_case-then_example :
    let (r, s') = close_case (start_time + 1) "case-1000-1" "ann" two_cases in
    (r ≡ ok (closed (start_time + 1) (fallback_string "ann" "operator") first_case))
    × (close_case (start_time + 2) "case-1000-1" "bob" s' ≡ (err invalid_case_state, s'))
    × (assign_case (start_time + 2) first_case "bob" s' ≡ (err invalid_case_state, s'))
    × ((reopen_case (start_time + 2) "case-1000-1" "bob" s').0
        ≡ ok (record first_case { updated_at = start_time + 2 }))
unfolding created_case get_case
close_case-then_example =
    close_case-then (start_time + 1) (start_time + 2) "case-1000-1" "ann" "bob" first_case
      first_case two_cases first_found refl refl refl

Reach-IsValid_example : IsValid (reopen_case (start_time + 2) "case-1000-1" " " after_create).1
Reach-IsValid_example = Reach-IsValid (
    then_step (then_step started (created start_time run_input))
      (reopened (start_time + 2) "case-1000-1" " "))

Reach-OneOpenPerRun_example :
    OneOpenPerRun (create_case_with_outcome (start_time + 5) run_input after_create).1
Reach-OneOpenPerRun_example = Reach-OneOpenPerRun (
    then_step (then_step started (created start_time run_input))
      (created (start_time + 5) run_input))
