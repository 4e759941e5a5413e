-- ===== src/Eval/Lifecycle/Timeline.antt =====
-- The timelines of the runs after any calls of the services (internal/eval).
use opspilot_go_dev_kit.Prelude.{
  ℕ, String, ◌≡◌, ◌⊎◌, inl, inr, refl, ◌∙◌, some, ◌==◌, Bool-cases, Option-cases, ok, err,
}
use opspilot_go_dev_kit.Prelude.Dict.{find}
use opspilot_go_dev_kit.Eval.Types.{EvalCase, RunDetail, Item, dataset_status_draft, run_not_found}
use opspilot_go_dev_kit.Eval.Store.{Store, new_store}
use opspilot_go_dev_kit.Eval.Store.Cases as StoredCases
use opspilot_go_dev_kit.Eval.Store.Cases.{is_taken}
use opspilot_go_dev_kit.Eval.Store.Datasets as StoredSets
use opspilot_go_dev_kit.Eval.Store.Datasets.{has_item}
use opspilot_go_dev_kit.Eval.Store.Runs.{slice_of, with_run_result_summary}
use opspilot_go_dev_kit.Eval.Store.Runs as StoredRuns
use opspilot_go_dev_kit.Eval.Services.{Evals, new_evals}
use opspilot_go_dev_kit.Eval.Services.Runs.{get_run_detail}
use opspilot_go_dev_kit.Eval.Lifecycle.{Reach, started, then_step}
use opspilot_go_dev_kit.Eval.Store.Reports.{save_eval_report}
use opspilot_go_dev_kit.Eval.Lifecycle.Writes.{step-Write}
use opspilot_go_dev_kit.Eval.Lifecycle.Kinds.{
  Write, unchanged, case_saved, dataset_made, item_pushed, dataset_frozen, run_made, runs_claimed,
  run_succeeded, run_failed, run_retried, report_saved,
}
use opspilot_go_dev_kit.Eval.Lifecycle.Replay.{IsReplayed, replay, status_in}
use opspilot_go_dev_kit.Eval.Lifecycle.Replay.Steps.{
  created-IsReplayed, claimed-IsReplayed, succeeded-IsReplayed, failed-IsReplayed,
  retried-IsReplayed,
}

saved-IsReplayed :
    (item : EvalCase) (s : Store) → IsReplayed s → IsReplayed (StoredCases.save item s).1
unfolding StoredCases.save
saved-IsReplayed item s v =
    elim (Bool-cases (is_taken (find item.source_case_id s.by_source_case) item.id)) [
      | inl t ↦ rw (t, StoredCases.save) v
      | inr t ↦ rw (t, StoredCases.save) (record { keyed = v.keyed; replayed = v.replayed })
    ]

pushed-IsReplayed :
    (id : String) (item : Item) (now : ℕ) (s : Store)
    → IsReplayed s
    → IsReplayed (StoredSets.add_dataset_item id item now s).1
unfolding StoredSets.add_dataset_item
pushed-IsReplayed id item now s v = elim (Option-cases (find id s.datasets)) [
  | inl e ↦ rw (e, StoredSets.add_dataset_item) v
  | inr (dataset, e) ↦ elim (Bool-cases (has_item item.eval_case_id dataset.items)) [
    | inl t ↦ rw (e, StoredSets.add_dataset_item, t) v
    | inr t ↦
        rw (e, StoredSets.add_dataset_item, t) (record { keyed = v.keyed; replayed = v.replayed })
  ]
]

frozen-IsReplayed :
    (id by : String) (now : ℕ) (s : Store)
    → IsReplayed s
    → IsReplayed (StoredSets.publish_dataset id by now s).1
unfolding StoredSets.publish_dataset
frozen-IsReplayed id by now s v = elim (Option-cases (find id s.datasets)) [
  | inl e ↦ rw (e, StoredSets.publish_dataset) v
  | inr (dataset, e) ↦ elim (Bool-cases (dataset.status == dataset_status_draft)) [
    | inr t ↦ rw (e, StoredSets.publish_dataset, t) v
    | inl t ↦
        rw (e, StoredSets.publish_dataset, t) (record { keyed = v.keyed; replayed = v.replayed })
  ]
]

Write-IsReplayed : {n : ℕ} {s s' : Store} → Write n s s' → IsReplayed s → IsReplayed s'
unfolding StoredSets.create_dataset save_eval_report
Write-IsReplayed unchanged v = v
Write-IsReplayed (case_saved {s} item) v = saved-IsReplayed item s v
Write-IsReplayed (dataset_made get item ids r f d m) v = record {
  keyed = v.keyed;
  replayed = v.replayed;
}
Write-IsReplayed (item_pushed {s} id dataset item now e d) v =
    pushed-IsReplayed dataset.id item now s v
Write-IsReplayed (dataset_frozen {s} id by now) v = frozen-IsReplayed id by now s v
Write-IsReplayed (run_made {s} run items q) v = created-IsReplayed run items s q v
Write-IsReplayed (runs_claimed {s} limit now) v = claimed-IsReplayed limit now s v
Write-IsReplayed (run_succeeded {s} id now results) v = succeeded-IsReplayed id now results s v
Write-IsReplayed (run_failed {s} id reason now results) v =
    failed-IsReplayed id reason now results s v
Write-IsReplayed (run_retried {s} id now) v = retried-IsReplayed id now s v
Write-IsReplayed (report_saved item) v = record { keyed = v.keyed; replayed = v.replayed }

pub Reach-IsReplayed : {s : Evals} → Reach s → IsReplayed s.store
unfolding new_evals new_store find
Reach-IsReplayed started = record { keyed = (tt, tt); replayed = λ id. refl }
Reach-IsReplayed (then_step r w) = Write-IsReplayed (step-Write w) (Reach-IsReplayed r)

-- After any calls of the services from their start, the timeline of a run that `GetRunDetail` returns,
-- read from the run's creation on, gives the status that the run has: each of its events was a
-- transition that the run's life allows (queued, running, succeeded or failed, and from failed back to
-- queued). An id without a run gives the error.
pub get_run_detail-replay :
    {s : Evals} (r : Reach s) (id : String)
    → ((d : RunDetail) × (get_run_detail id s ≡ ok d) × (replay d.events ≡ some d.run.status))
      ⊎ (get_run_detail id s ≡ err (run_not_found id))
unfolding get_run_detail StoredRuns.get_run_detail with_run_result_summary
get_run_detail-replay {s} r id = elim (Option-cases (find id s.store.runs)) [
  | inl e ↦ inr (rw (e, get_run_detail, StoredRuns.get_run_detail))
  | inr (run, e) ↦
      let results = slice_of id s.store.run_item_results in
      let d : RunDetail = record {
        run = with_run_result_summary run results;
        events = slice_of id s.store.run_events;
        items = slice_of id s.store.run_items;
        item_results = results;
      } in
      let status : status_in (find id s.store.runs) ≡ some run.status = rw e in
      inl (
        d,
        rw (e, get_run_detail, StoredRuns.get_run_detail),
        (Reach-IsReplayed r).replayed id ∙ status,
      )
]
