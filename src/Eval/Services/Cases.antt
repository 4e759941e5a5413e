-- ===== src/Eval/Services/Cases.antt =====
-- internal/eval/service.go: the service of the evaluation cases. Its dependencies are interfaces in the
-- code and arguments here: the reader of operator cases, the optional summaries of follow-up cases and the
-- optional lookup of traces.
use opspilot_go_dev_kit.Prelude.{
  ℕ, String, ◌<>◌, Bool, true, false, ◌&&◌, not, Option, none, some, List, [], ◌∷◌, map, Result, ok,
  err, ◌==◌, if◌then◌else◌, keep, or_else,
}
use opspilot_go_dev_kit.Prelude.Clock.{next_uint64}
use opspilot_go_dev_kit.Prelude.Dict.{Dict, find}
use opspilot_go_dev_kit.Prelude.Strings.{trim_space}
use opspilot_go_dev_kit.Cases.Types.{Case, CaseError, FollowUpSummary}
use opspilot_go_dev_kit.Cases.Summaries.{empty_summary}
use opspilot_go_dev_kit.Eval.Types.{
  EvalCase, CreateInput, EvalError, case_not_found, case_missing, case_exists, invalid_source,
  of_case_service,
}
use opspilot_go_dev_kit.Eval.Store.{Store}
use opspilot_go_dev_kit.Eval.Store.Cases.{save, get, get_by_source_case}
use opspilot_go_dev_kit.Eval.Services.{Evals, fallback_string, new_id}

-- `SummarizeBySourceEvalCaseIDs`
abbrev pub Summarizer : Type 0
Summarizer = String → List String → Result CaseError (Dict FollowUpSummary)

-- What `PromoteCase` reads of a trace.
pub record TraceResult : Type 0 where
  pub task_id : String
  pub report_id : String
  pub trace_id : String
  pub version_id : String

-- `Lookup` by the id of a case, where none is an error.
abbrev pub TraceLookup : Type 0
TraceLookup = String → Option TraceResult

unfoldable pub with_summary : Dict FollowUpSummary → EvalCase → EvalCase
unfolding empty_summary
with_summary summaries item =
    let summary = or_else (find item.id summaries) (empty_summary "") in
    record item {
      follow_up_case_count = summary.follow_up_case_count;
      open_follow_up_case_count = summary.open_follow_up_case_count;
      latest_follow_up_case_id = summary.latest_follow_up_case_id;
      latest_follow_up_case_status = summary.latest_follow_up_case_status;
    }

-- The ids that the summaries are asked for: of the items of the first item's tenant.
unfoldable pub summary_ids : String → List EvalCase → List String
summary_ids tenant_id items =
    map (λ c. c.id) (keep (λ c. not (c.id == "") && c.tenant_id == tenant_id) items)

abbrev pub summarized :
    Summarizer → String → List String → List EvalCase → Result EvalError (List EvalCase)
summarized summarize tenant_id [] items = ok items
summarized summarize tenant_id (id ∷ ids) items = elim (summarize tenant_id (id ∷ ids)) [
  | err e ↦ err (of_case_service e)
  | ok summaries ↦ ok (map (with_summary summaries) items)
]

unfoldable pub apply_follow_up_summaries :
    Option Summarizer → List EvalCase → Result EvalError (List EvalCase)
unfolding with_summary summary_ids
apply_follow_up_summaries none items = ok items
apply_follow_up_summaries (some summarize) [] = ok []
apply_follow_up_summaries (some summarize) (item ∷ items) =
    summarized summarize item.tenant_id (summary_ids item.tenant_id (item ∷ items)) (item ∷ items)

-- `items[0]` of the list that the summaries make of one item.
abbrev pub only_item : EvalCase → Result EvalError (List EvalCase) → Result EvalError EvalCase
only_item item (err e) = err e
only_item item (ok []) = ok item
only_item item (ok (c ∷ _)) = ok c

unfoldable pub enrich_eval_case : Option Summarizer → EvalCase → Result EvalError EvalCase
unfolding apply_follow_up_summaries
enrich_eval_case summaries item = only_item item (apply_follow_up_summaries summaries (item ∷ []))

unfoldable pub get_eval_case : Option Summarizer → String → Evals → Result EvalError EvalCase
unfolding get enrich_eval_case
get_eval_case summaries id s = elim (get id s.store) [
  | err e ↦ err e
  | ok item ↦ enrich_eval_case summaries item
]

-- The case that `PromoteCase` builds before it looks the trace up.
unfoldable pub promoted_case : ℕ → String → CreateInput → Case → EvalCase
unfolding fallback_string
promoted_case created_at id input source_case = record {
  id = id;
  tenant_id = input.tenant_id;
  source_case_id = source_case.id;
  source_task_id = source_case.source_task_id;
  source_report_id = source_case.source_report_id;
  follow_up_case_count = 0;
  open_follow_up_case_count = 0;
  latest_follow_up_case_id = "";
  latest_follow_up_case_status = "";
  trace_id = "";
  version_id = "";
  title = source_case.title;
  summary = fallback_string source_case.summary ("Promoted from case " <> source_case.id);
  operator_note = trim_space input.operator_note;
  created_by = fallback_string (trim_space input.created_by) "operator";
  created_at = created_at;
}

unfoldable pub with_trace : Option TraceLookup → EvalCase → EvalCase
unfolding fallback_string
with_trace none item = item
with_trace (some lookup) item = elim (lookup item.source_case_id) [
  | none ↦ item
  | some trace ↦ record item {
    source_task_id = fallback_string item.source_task_id trace.task_id;
    source_report_id = fallback_string item.source_report_id trace.report_id;
    trace_id = trace.trace_id;
    version_id = trace.version_id;
  }
]

-- `errors.Is(err, ErrEvalCaseNotFound)`
abbrev pub is_case_not_found : EvalError → Bool
is_case_not_found (case_not_found id) = true
is_case_not_found case_missing = true
is_case_not_found _ = false

-- The Boolean says whether the case was created.
abbrev pub with_created : Bool → Result EvalError EvalCase → Result EvalError (EvalCase × Bool)
with_created created (err e) = err e
with_created created (ok item) = ok (item, created)

-- The case that is there already.
unfoldable pub reused :
    Option Summarizer → Result EvalError EvalCase → Result EvalError (EvalCase × Bool)
unfolding enrich_eval_case
reused summaries (err e) = err e
reused summaries (ok existing) = with_created false (enrich_eval_case summaries existing)

-- What `PromoteCase` answers once the store has taken the case, or has found that there is one.
unfoldable pub after_save :
    Option Summarizer
    → String
    → Result EvalError EvalCase
    → Store
    → Result EvalError (EvalCase × Bool)
unfolding reused enrich_eval_case get_by_source_case
after_save summaries source_case_id (ok saved) store =
    with_created true (enrich_eval_case summaries saved)
after_save summaries source_case_id (err (case_exists _)) store =
    reused summaries (get_by_source_case source_case_id store)
after_save summaries source_case_id (err e) store = err e

-- `now` is read for the id, `created_at` after it.
unfoldable pub promote_case :
    (String → Result CaseError Case)
    → Option Summarizer
    → Option TraceLookup
    → ℕ
    → ℕ
    → CreateInput
    → Evals
    → Result EvalError (EvalCase × Bool) × Evals
unfolding after_save get_by_source_case save promoted_case with_trace new_id reused
promote_case get_case summaries traces now created_at input s =
    elim (get_case input.source_case_id) [
      | err e ↦ (err (of_case_service e), s)
      | ok source_case ↦
          if not (source_case.tenant_id == input.tenant_id)
          then (err invalid_source, s)
          else elim (get_by_source_case input.source_case_id s.store) [
            | ok existing ↦ (reused summaries (ok existing), s)
            | err e ↦
                if not (is_case_not_found e)
                then (err e, s)
                else (let n = next_uint64 s.eval_case_id_sequence in
                    let item =
                      with_trace traces
                        (promoted_case created_at (new_id "eval-case-" now n) input source_case) in
                    let (answer, store) = save item s.store in
                    (
                      after_save summaries input.source_case_id answer store,
                      record s { eval_case_id_sequence = n; store = store },
                    ))
          ]
    ]
