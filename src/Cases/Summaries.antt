-- ===== src/Cases/Summaries.antt =====
-- internal/case/memory_store.go: the four `Summarize` methods. Their loop is the same but for the field
-- that names the source, one more guard, and the fields of the summary: these are its parameters.
pub mod Counts
pub mod Totals
pub mod Turns
pub mod Keys
use opspilot_go_dev_kit.Prelude.{
  ℕ, ◌+◌, String, Bool, true, false, ◌&&◌, not, Option, none, some, List, [], ◌∷◌, Result, ok, err,
  ◌==◌, if◌then◌else◌, or_else, is_some, keep, length,
}
use opspilot_go_dev_kit.Prelude.Dict.{Dict, find, put, values}
use opspilot_go_dev_kit.Cases.Types.{
  Case, CaseError, FollowUpSummary, EvalRunFollowUpSummary, status_open,
}
use opspilot_go_dev_kit.Cases.Memory.{MemoryStore, replaces, lacks_origin, allowed_ids, is_in}

-- `start` is the zero summary but for its source, `tally` the fields that every case changes, and
-- `set_latest` those that the latest case sets.
module _ {S : Type 0} (start : String → S) (source : Case → String)
    (tally set_latest : Case → S → S) where
  -- One turn of the loop, past its guards: the summaries and the latest cases by source.
  unfoldable pub summarize_case : Case → Dict S × Dict Case → Dict S × Dict Case
  summarize_case item (summaries, latest) =
      let k = source item in
      let summary = tally item (or_else (find k summaries) (start k)) in
      if replaces item (find k latest)
      then (put k (set_latest item summary) summaries, put k item latest)
      else (put k summary summaries, latest)

  unfoldable pub summarize_loop :
      (Case → Bool) → List Case → Dict S × Dict Case → Dict S × Dict Case
  unfolding summarize_case
  summarize_loop counts [] state = state
  summarize_loop counts (item ∷ rest) state =
      summarize_loop counts rest (if counts item then summarize_case item state else state)

  -- The last loop, which adds an empty summary for each source that has none.
  unfoldable pub fill_missing : List String → Dict S → Dict S
  fill_missing [] summaries = summaries
  fill_missing (id ∷ rest) summaries =
      fill_missing rest
        (if is_some (find id summaries) then summaries else put id (start id) summaries)

  -- The guards that the four loops share.
  unfoldable pub is_counted : (Case → Bool) → String → List String → Case → Bool
  is_counted extra tenant_id ids item =
      item.tenant_id == tenant_id
      && not (source item == "")
      && extra item
      && is_in (source item) (allowed_ids ids)

  unfoldable pub summarize : (Case → Bool) → String → List String → MemoryStore → Dict S
  unfolding summarize_loop fill_missing is_counted
  summarize extra tenant_id [] s = []
  summarize extra tenant_id (id ∷ ids) s =
      fill_missing (allowed_ids (id ∷ ids))
        (summarize_loop (is_counted extra tenant_id (id ∷ ids)) (values s.records) ([], [])).0

-- `summary.FollowUpCaseCount++`, and the open ones.
abbrev pub plus_if : Bool → ℕ → ℕ
plus_if b n = if b then n + 1 else n

abbrev pub is_open : Case → Bool
is_open c = c.status == status_open

unfoldable pub empty_summary : String → FollowUpSummary
empty_summary id = record {
  source_id = id;
  follow_up_case_count = 0;
  open_follow_up_case_count = 0;
  latest_follow_up_case_id = "";
  latest_follow_up_case_status = "";
}

unfoldable pub tally_case : (Case → String) → Case → FollowUpSummary → FollowUpSummary
tally_case source item summary = record summary {
  source_id = source item;
  follow_up_case_count = summary.follow_up_case_count + 1;
  open_follow_up_case_count = plus_if (is_open item) summary.open_follow_up_case_count;
}

unfoldable pub set_latest_case : Case → FollowUpSummary → FollowUpSummary
set_latest_case item summary = record summary {
  latest_follow_up_case_id = item.id;
  latest_follow_up_case_status = item.status;
}

unfoldable pub empty_run_summary : String → EvalRunFollowUpSummary
empty_run_summary id = record {
  source_eval_run_id = id;
  follow_up_case_count = 0;
  open_follow_up_case_count = 0;
  latest_follow_up_case_id = "";
  latest_follow_up_case_status = "";
  latest_follow_up_assigned_to = "";
}

unfoldable pub tally_run_case : Case → EvalRunFollowUpSummary → EvalRunFollowUpSummary
tally_run_case item summary = record summary {
  source_eval_run_id = item.source_eval_run_id;
  follow_up_case_count = summary.follow_up_case_count + 1;
  open_follow_up_case_count = plus_if (is_open item) summary.open_follow_up_case_count;
}

unfoldable pub set_latest_run_case : Case → EvalRunFollowUpSummary → EvalRunFollowUpSummary
set_latest_run_case item summary = record summary {
  latest_follow_up_case_id = item.id;
  latest_follow_up_case_status = item.status;
  latest_follow_up_assigned_to = item.assigned_to;
}

abbrev pub has_origin : Case → Bool
has_origin c = not (lacks_origin c.compare_origin)

abbrev pub any_case : Case → Bool
any_case c = true

unfoldable pub summarize_by_source_eval_report_ids :
    String → List String → MemoryStore → Result CaseError (Dict FollowUpSummary)
unfolding summarize
summarize_by_source_eval_report_ids tenant_id ids s =
    let source = λ (c : Case). c.source_eval_report_id in
    ok (summarize empty_summary source (tally_case source) set_latest_case any_case tenant_id ids s)

unfoldable pub summarize_compare_origin_by_source_eval_report_ids :
    String → List String → MemoryStore → Result CaseError (Dict FollowUpSummary)
unfolding summarize
summarize_compare_origin_by_source_eval_report_ids tenant_id ids s =
    let source = λ (c : Case). c.source_eval_report_id in
    ok (
      summarize empty_summary source (tally_case source) set_latest_case has_origin tenant_id ids s)

unfoldable pub summarize_by_source_eval_case_ids :
    String → List String → MemoryStore → Result CaseError (Dict FollowUpSummary)
unfolding summarize
summarize_by_source_eval_case_ids tenant_id ids s =
    let source = λ (c : Case). c.source_eval_case_id in
    ok (summarize empty_summary source (tally_case source) set_latest_case any_case tenant_id ids s)

unfoldable pub summarize_by_source_eval_run_ids :
    String → List String → MemoryStore → Result CaseError (Dict EvalRunFollowUpSummary)
unfolding summarize
summarize_by_source_eval_run_ids tenant_id ids s = ok (
    summarize empty_run_summary (λ c. c.source_eval_run_id) tally_run_case set_latest_run_case
      any_case tenant_id ids s)
