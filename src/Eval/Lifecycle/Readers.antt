-- ===== src/Eval/Lifecycle/Readers.antt =====
-- internal/eval/service.go: `GetEvalCase` as the reader that the other services are given.
use opspilot_go_dev_kit.Prelude.{
  String, ◌≡◌, inl, inr, sym, ap, Option, none, some, List, [], ◌∷◌, Option-cases, Result,
  Result-cases, ok, err,
}
use opspilot_go_dev_kit.Prelude.Dict.{find}
use opspilot_go_dev_kit.Eval.Types.{EvalCase, of_case_service, EvalError}
use opspilot_go_dev_kit.Eval.Store.{Store}
use opspilot_go_dev_kit.Eval.Store.Cases as StoredCases
use opspilot_go_dev_kit.Eval.Services.{Evals}
use opspilot_go_dev_kit.Eval.Services.Cases.{
  Summarizer, get_eval_case, only_item, summarized, with_summary, enrich_eval_case,
  apply_follow_up_summaries, summary_ids,
}

-- The reader of evaluation cases by which the items of a dataset are made.
abbrev pub Reader : Store → (String → Result EvalError EvalCase) → Type 0
Reader s get =
    (id : String) (c : EvalCase)
    → get id ≡ ok c
    → (d : EvalCase) × ((find id s.by_id ≡ some d) × (c.id ≡ d.id))

abbrev id_in : Result EvalError EvalCase → String
id_in (ok c) = c.id
id_in (err _) = ""

summarized_id :
    (summarize : Summarizer) (tenant_id : String) (ids : List String) (item c : EvalCase)
    → only_item item (summarized summarize tenant_id ids (item ∷ [])) ≡ ok c
    → c.id ≡ item.id
unfolding with_summary
summarized_id summarize tenant_id [] item c e = sym (ap id_in e)
summarized_id summarize tenant_id (id ∷ ids) item c e =
    elim (Result-cases (summarize tenant_id (id ∷ ids))) [
      | inl (m, f) ↦ sym (ap id_in (rw (only_item, f) at e))
      | inr (x, f) ↦
          let impossible : err (of_case_service x) ≡ ok c = (rw (only_item, f) at e) in absurd cc
    ]

enriched_id :
    (summaries : Option Summarizer) (item c : EvalCase)
    → enrich_eval_case summaries item ≡ ok c
    → c.id ≡ item.id
unfolding enrich_eval_case apply_follow_up_summaries
enriched_id none item c e = sym (ap id_in e)
enriched_id (some summarize) item c e =
    summarized_id summarize item.tenant_id (summary_ids item.tenant_id (item ∷ [])) item c e

-- `GetEvalCase` reads the cases of the store.
pub get_eval_case-Reader :
    (summaries : Option Summarizer) (s : Evals)
    → Reader s.store (λ id. get_eval_case summaries id s)
unfolding get_eval_case StoredCases.get
get_eval_case-Reader summaries s id c e = elim (Option-cases (find id s.store.by_id)) [
  | inl f ↦
      let impossible : err (EvalError.case_not_found id) ≡ ok c = (rw (f, get_eval_case) at e) in
      absurd cc
  | inr (item, f) ↦ (item, (f, enriched_id summaries item c (rw (f, get_eval_case) at e)))
]
