-- ===== src/Eval/Lifecycle/Writes.antt =====
-- What a call of the evaluation services does to the store (internal/eval): nothing, or one of the
-- methods of the store under the guards that the service has checked.
use opspilot_go_dev_kit.Prelude.{
  ℕ, String, ◌<>◌, ◌≡◌, ◌||◌, inl, inr, refl, sym, ap, ◌∙◌, Option, List, [], ◌==◌, Bool-cases,
  Option-cases, Result, Result-cases, eq_of_str_eq,
}
use opspilot_go_dev_kit.Prelude.Clock.{next_uint64, unix_nano}
use opspilot_go_dev_kit.Prelude.Decimal.{decimal}
use opspilot_go_dev_kit.Prelude.Ids.{number_of, number_of-decimal}
use text.Mathlib.TextLemmas.{append_assoc}
use opspilot_go_dev_kit.Prelude.Dict.{find}
use opspilot_go_dev_kit.Prelude.Strings.{trim_space}
use opspilot_go_dev_kit.Cases.Types.{Case, CaseError}
use opspilot_go_dev_kit.Eval.Types.{
  EvalCase, EvalDataset, EvalRun, ItemResult, EvalError, CreateInput, CreateDatasetInput,
  AddDatasetItemInput, PublishDatasetInput, CreateRunInput, dataset_status_draft,
  dataset_status_published, item_result_succeeded, item_result_failed,
}
use opspilot_go_dev_kit.Eval.Reports.{Numerics, materialize_run_report, build_eval_report}
use opspilot_go_dev_kit.Eval.Judge.{RunJudge, placeholder_judge}
use opspilot_go_dev_kit.Eval.Store.{Store}
use opspilot_go_dev_kit.Eval.Store.Cases as StoredCases
use opspilot_go_dev_kit.Eval.Store.Datasets as StoredSets
use opspilot_go_dev_kit.Eval.Store.Datasets.{has_item}
use opspilot_go_dev_kit.Eval.Store.Runs as StoredRuns
use opspilot_go_dev_kit.Eval.Store.Claims as Changes
use opspilot_go_dev_kit.Eval.Services.{Evals, new_id, fallback_string}
use opspilot_go_dev_kit.Eval.Services.Cases.{
  Summarizer, TraceLookup, promote_case, get_eval_case, promoted_case, with_trace,
  is_case_not_found,
}
use opspilot_go_dev_kit.Eval.Services.Datasets.{
  create_dataset, add_dataset_item, publish_dataset, get_dataset, dataset_items, new_dataset,
  is_blank, is_empty, item_of,
}
use opspilot_go_dev_kit.Eval.Services.Runs.{
  create_run, claim_queued_runs, mark_run_succeeded, mark_run_failed, mark_run_failed_with_fallback,
  retry_run, finalize, new_run, claim_limit,
}
use opspilot_go_dev_kit.Eval.Lifecycle.{
  Step, promoted, dataset_created, item_added, published, run_created, claimed, succeeded, failed,
  failed_with_fallback, retried, reported,
}
use opspilot_go_dev_kit.Eval.Lifecycle.Readers.{get_eval_case-Reader, Reader}
use opspilot_go_dev_kit.Eval.Lifecycle.Kinds.{Write}

abbrev Writes : Evals → Evals → Type 0
Writes s s' = Write (next_uint64 s.eval_dataset_id_sequence) s.store s'.store

new_id-number : (prefix : String) (now n : ℕ) → number_of (new_id prefix now n) ≡ n
unfolding new_id
new_id-number prefix now n =
    ap number_of (sym (append_assoc prefix (decimal (unix_nano now)) ("-" <> decimal n)))
    ∙ number_of-decimal (prefix <> decimal (unix_nano now)) n

dataset_created-Write :
    (get : String → Result EvalError EvalCase) (now : ℕ) (input : CreateDatasetInput) (s : Evals)
    → Reader s.store get
    → Writes s (create_dataset get now input s).1
unfolding create_dataset new_dataset
dataset_created-Write get now input s r =
    elim (Bool-cases (is_blank input.tenant_id || is_empty input.eval_case_ids)) [
      | inl e ↦ rw (e, create_dataset) Write.unchanged
      | inr e ↦ elim (Result-cases (dataset_items get input.tenant_id [] input.eval_case_ids)) [
        | inr (x, f) ↦ rw (e, create_dataset, f) Write.unchanged
        | inl (items, f) ↦
            rw (e, create_dataset, f)
              (Write.dataset_made get
                (new_dataset now
                  (new_id "eval-dataset-" now (next_uint64 s.eval_dataset_id_sequence)) input items)
                input.eval_case_ids r f refl
                (new_id-number "eval-dataset-" now (next_uint64 s.eval_dataset_id_sequence)))
      ]
    ]

item_added-Write :
    (get : String → Result EvalError EvalCase) (now : ℕ) (id : String) (input : AddDatasetItemInput)
    (s : Evals)
    → Writes s (add_dataset_item get now id input s).1
unfolding add_dataset_item StoredSets.get_dataset
item_added-Write get now id input s =
    elim (Bool-cases (is_blank input.tenant_id || is_blank input.eval_case_id)) [
      | inl e ↦ rw (e, add_dataset_item) Write.unchanged
      | inr e ↦ elim (Option-cases (find id s.store.datasets)) [
        | inl f ↦ rw (e, add_dataset_item, f) Write.unchanged
        | inr (dataset, f) ↦ elim (Bool-cases (dataset.tenant_id == trim_space input.tenant_id)) [
          | inr g ↦ rw (e, add_dataset_item, f, g) Write.unchanged
          | inl g ↦ elim (Bool-cases (dataset.status == dataset_status_draft)) [
            | inr h ↦ rw (e, add_dataset_item, f, g, h) Write.unchanged
            | inl h ↦ elim (Result-cases (get (trim_space input.eval_case_id))) [
              | inr (x, k) ↦ rw (e, add_dataset_item, f, g, h, k) Write.unchanged
              | inl (c, k) ↦ elim (Bool-cases (c.tenant_id == dataset.tenant_id)) [
                | inr l ↦ rw (e, add_dataset_item, f, g, h, k, l) Write.unchanged
                | inl l ↦ elim (Bool-cases (has_item c.id dataset.items)) [
                  | inl m ↦ rw (e, add_dataset_item, f, g, h, k, l, m) Write.unchanged
                  | inr m ↦
                      rw (e, add_dataset_item, f, g, h, k, l, m)
                        (Write.item_pushed id dataset (item_of c) now f (eq_of_str_eq h))
                ]
              ]
            ]
          ]
        ]
      ]
    ]

published-Write :
    (now : ℕ) (id : String) (input : PublishDatasetInput) (s : Evals)
    → Writes s (publish_dataset now id input s).1
unfolding publish_dataset StoredSets.get_dataset
published-Write now id input s = elim (Bool-cases (is_blank input.tenant_id)) [
  | inl e ↦ rw (e, publish_dataset) Write.unchanged
  | inr e ↦ elim (Option-cases (find id s.store.datasets)) [
    | inl f ↦ rw (e, publish_dataset, f) Write.unchanged
    | inr (dataset, f) ↦ elim (Bool-cases (dataset.tenant_id == trim_space input.tenant_id)) [
      | inr g ↦ rw (e, publish_dataset, f, g) Write.unchanged
      | inl g ↦ elim (Bool-cases (dataset.status == dataset_status_draft)) [
        | inr h ↦ rw (e, publish_dataset, f, g, h) Write.unchanged
        | inl h ↦
            rw (e, publish_dataset, f, g, h)
              (Write.dataset_frozen dataset.id
                (fallback_string (trim_space input.published_by) "operator") now)
      ]
    ]
  ]
]

run_created-Write :
    (get : String → Result EvalError EvalDataset) (now : ℕ) (input : CreateRunInput) (s : Evals)
    → Writes s (create_run get now input s).1
unfolding create_run new_run
run_created-Write get now input s =
    elim (Bool-cases (is_blank input.tenant_id || is_blank input.dataset_id)) [
      | inl e ↦ rw (e, create_run) Write.unchanged
      | inr e ↦ elim (Result-cases (get (trim_space input.dataset_id))) [
        | inr (x, f) ↦ rw (e, create_run, f) Write.unchanged
        | inl (dataset, f) ↦ elim (Bool-cases (dataset.tenant_id == trim_space input.tenant_id)) [
          | inr g ↦ rw (e, create_run, f, g) Write.unchanged
          | inl g ↦ elim (Bool-cases (dataset.status == dataset_status_published)) [
            | inr h ↦ rw (e, create_run, f, g, h) Write.unchanged
            | inl h ↦
                rw (e, create_run, f, g, h)
                  (Write.run_made
                    (new_run now (new_id "eval-run-" now (next_uint64 s.eval_run_id_sequence)) input
                      dataset)
                    dataset.items refl)
          ]
        ]
      ]
    ]

finalize-Write :
    (judge : RunJudge) (what status detail : String) (now : ℕ)
    (mark : List ItemResult → Store → Result EvalError EvalRun × Store) (id : String) (s : Evals)
    → ((results : List ItemResult)
        → Write (next_uint64 s.eval_dataset_id_sequence) s.store (mark results s.store).1)
    → Writes s (finalize judge what status detail now mark id s).1
unfolding finalize
finalize-Write judge what status detail now mark id s w =
    elim (Result-cases (StoredRuns.get_run_detail id s.store)) [
      | inr (x, e) ↦ rw (e, finalize) Write.unchanged
      | inl (found, e) ↦ elim (Result-cases (judge found.items status detail now)) [
        | inr (x, f) ↦ rw (e, finalize, f) Write.unchanged
        | inl (results, f) ↦ rw (e, finalize, f) (w results)
      ]
    ]

promoted-Write :
    (get_case : String → Result CaseError Case) (summaries : Option Summarizer)
    (traces : Option TraceLookup) (now created_at : ℕ) (input : CreateInput) (s : Evals)
    → Writes s (promote_case get_case summaries traces now created_at input s).1
unfolding promote_case
promoted-Write get_case summaries traces now created_at input s =
    elim (Result-cases (get_case input.source_case_id)) [
      | inr (x, e) ↦ rw (e, promote_case) Write.unchanged
      | inl (c, e) ↦ elim (Bool-cases (c.tenant_id == input.tenant_id)) [
        | inr f ↦ rw (e, promote_case, f) Write.unchanged
        | inl f ↦
            elim (Result-cases (StoredCases.get_by_source_case input.source_case_id s.store)) [
              | inl (found, g) ↦ rw (e, promote_case, f, g) Write.unchanged
              | inr (x, g) ↦ elim (Bool-cases (is_case_not_found x)) [
                | inr h ↦ rw (e, promote_case, f, g, h) Write.unchanged
                | inl h ↦
                    let n = next_uint64 s.eval_case_id_sequence in
                    let item =
                      with_trace traces
                        (promoted_case created_at (new_id "eval-case-" now n) input c) in
                    rw (e, promote_case, f, g, h) (Write.case_saved item)
              ]
            ]
      ]
    ]

reported-Write :
    (numerics : Numerics) (id : String) (s : Evals)
    → Writes s (record s { store = (materialize_run_report numerics id s.store).1 })
unfolding materialize_run_report
reported-Write numerics id s = elim (Result-cases (StoredRuns.get_run_detail id s.store)) [
  | inr (x, e) ↦ rw (e, materialize_run_report) Write.unchanged
  | inl (d, e) ↦ elim (Result-cases (build_eval_report numerics d)) [
    | inr (x, f) ↦ rw (e, materialize_run_report, f) Write.unchanged
    | inl (r, f) ↦ rw (e, materialize_run_report, f) (Write.report_saved r)
  ]
]

pub step-Write : {s s' : Evals} → Step s s' → Writes s s'
unfolding claim_queued_runs mark_run_succeeded mark_run_failed mark_run_failed_with_fallback
    retry_run
step-Write (promoted {s} get_case summaries traces now created_at input) =
    promoted-Write get_case summaries traces now created_at input s
step-Write (dataset_created {s} summaries now input) =
    dataset_created-Write (λ id. get_eval_case summaries id s) now input s
      (get_eval_case-Reader summaries s)
step-Write (item_added {s} summaries now id input) =
    item_added-Write (λ id. get_eval_case summaries id s) now id input s
step-Write (published {s} now id input) = published-Write now id input s
step-Write (run_created {s} now input) = run_created-Write (λ id. get_dataset id s) now input s
step-Write (claimed limit now) = Write.runs_claimed (claim_limit limit) now
step-Write (succeeded {s} judge now id) =
    finalize-Write judge "build succeeded item results" item_result_succeeded
      "placeholder eval passed" now (Changes.mark_run_succeeded id now) id s
      (λ results. Write.run_succeeded id now results)
step-Write (failed {s} judge now id reason) =
    finalize-Write judge "build failed item results" item_result_failed (trim_space reason) now
      (Changes.mark_run_failed id (trim_space reason) now) id s
      (λ results. Write.run_failed id (trim_space reason) now results)
step-Write (failed_with_fallback {s} now id reason) =
    finalize-Write placeholder_judge "build fallback failed item results" item_result_failed
      (trim_space reason) now (Changes.mark_run_failed id (trim_space reason) now) id s
      (λ results. Write.run_failed id (trim_space reason) now results)
step-Write (retried now id) = Write.run_retried id now
step-Write (reported {s} numerics id) = reported-Write numerics id s
