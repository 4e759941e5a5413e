-- ===== src/Eval/Lifecycle/Replay/Steps.antt =====
-- The changes of the runs, step by step (internal/eval/memory_store.go and run_service.go).
use opspilot_go_dev_kit.Prelude.{
  ℕ, String, ◌≡◌, ◌≢◌, inl, inr, refl, sym, ap, ◌∙◌, true, Option, some, List, [], ◌∷◌, ◌==◌,
  Bool-cases, Option-cases, All, AllPairs, All-zip, All-keep, All-take, All-imp, AllPairs-keep,
  AllPairs-take, AllPairs-perm, All-perm, Permᴰ, take, keep, keep_passes, eq_of_str_eq, eq_iff,
}
use mathlib.Core.List.Permᴰ
use opspilot_go_dev_kit.Prelude.Dict.{
  find, put, values, KeyedBy, find-put_ne, find_key, values_found, values_distinct,
}
use opspilot_go_dev_kit.Prelude.Sorting.{sort, sort-perm}
use opspilot_go_dev_kit.Eval.Types.{
  EvalRun, Item, ItemResult, run_status_queued, run_status_running, run_status_succeeded,
  run_status_failed, run_event_created, run_event_claimed, run_event_succeeded, run_event_failed,
  run_event_retried,
}
use opspilot_go_dev_kit.Eval.Store.{Store}
use opspilot_go_dev_kit.Eval.Store.Runs.{create_run, append_run_event_locked, delete}
use opspilot_go_dev_kit.Eval.Store.Claims.{
  claim_run, claim_each, claimed, claim_queued_runs, queued_runs, is_queued, is_older, retry_run,
  retried, finished, mark_run_succeeded, mark_run_failed,
}
use opspilot_go_dev_kit.Eval.Lifecycle.Replay.{IsReplayed, written-IsReplayed, status_in, moves}

pub created-IsReplayed :
    (run : EvalRun) (items : List Item) (s : Store)
    → run.status ≡ run_status_queued
    → IsReplayed s
    → IsReplayed (create_run run items s).1
unfolding create_run append_run_event_locked
created-IsReplayed run items s q v =
    written-IsReplayed run.id run run_event_created run.created_by run.status run.created_at
      (record s { run_items = put run.id items s.run_items }) refl (ap some (sym q))
      (record { keyed = v.keyed; replayed = v.replayed })

-- A run that has a status, found under an id.
abbrev pub Has : String → Store → EvalRun → Type 0
Has status s run = (find run.id s.runs ≡ some run) × (run.status ≡ status)

moves_to :
    (wanted next : String) (found : Option EvalRun) (run : EvalRun)
    → found ≡ some run
    → run.status ≡ wanted
    → moves wanted next (status_in found) ≡ some next
moves_to wanted next found run e q = rw (e, (eq_iff run.status wanted).1 q)

pub retried-IsReplayed :
    (id : String) (now : ℕ) (s : Store) → IsReplayed s → IsReplayed (retry_run id now s).1
unfolding retry_run retried append_run_event_locked
retried-IsReplayed id now s v = elim (Option-cases (find id s.runs)) [
  | inl e ↦ rw (e, retry_run) v
  | inr (run, e) ↦ elim (Bool-cases (run.status == run_status_failed)) [
    | inr t ↦ rw (e, retry_run, t) v
    | inl t ↦
        rw (e, retry_run, t)
          (written-IsReplayed id (retried now run) run_event_retried "operator" run_status_queued
            now (record s { run_item_results = delete id s.run_item_results })
            (find_key (λ r. r.id) id run s.runs v.keyed.0 e)
            (moves_to run_status_failed run_status_queued (find id s.runs) run e (eq_of_str_eq t))
            (record { keyed = v.keyed; replayed = v.replayed }))
  ]
]

pub succeeded-IsReplayed :
    (id : String) (now : ℕ) (results : List ItemResult) (s : Store)
    → IsReplayed s
    → IsReplayed (mark_run_succeeded id now results s).1
unfolding mark_run_succeeded finished append_run_event_locked
succeeded-IsReplayed id now results s v = elim (Option-cases (find id s.runs)) [
  | inl e ↦ rw (e, mark_run_succeeded) v
  | inr (run, e) ↦ elim (Bool-cases (run.status == run_status_running)) [
    | inr t ↦ rw (e, mark_run_succeeded, t) v
    | inl t ↦
        rw (e, mark_run_succeeded, t)
          (written-IsReplayed id (finished run_status_succeeded "" now run) run_event_succeeded
            "worker" run_status_succeeded now
            (record s { run_item_results = put id results s.run_item_results })
            (find_key (λ r. r.id) id run s.runs v.keyed.0 e)
            (moves_to run_status_running run_status_succeeded (find id s.runs) run e
              (eq_of_str_eq t))
            (record { keyed = v.keyed; replayed = v.replayed }))
  ]
]

pub failed-IsReplayed :
    (id reason : String) (now : ℕ) (results : List ItemResult) (s : Store)
    → IsReplayed s
    → IsReplayed (mark_run_failed id reason now results s).1
unfolding mark_run_failed finished append_run_event_locked
failed-IsReplayed id reason now results s v = elim (Option-cases (find id s.runs)) [
  | inl e ↦ rw (e, mark_run_failed) v
  | inr (run, e) ↦ elim (Bool-cases (run.status == run_status_running)) [
    | inr t ↦ rw (e, mark_run_failed, t) v
    | inl t ↦
        rw (e, mark_run_failed, t)
          (written-IsReplayed id (finished run_status_failed reason now run) run_event_failed
            "worker" reason now (record s { run_item_results = put id results s.run_item_results })
            (find_key (λ r. r.id) id run s.runs v.keyed.0 e)
            (moves_to run_status_running run_status_failed (find id s.runs) run e (eq_of_str_eq t))
            (record { keyed = v.keyed; replayed = v.replayed }))
  ]
]

claim_run-IsReplayed :
    (now : ℕ) (run : EvalRun) (s : Store)
    → Has run_status_queued s run
    → IsReplayed s
    → IsReplayed (claim_run now run s)
unfolding claim_run claimed
claim_run-IsReplayed now run s h v =
    written-IsReplayed run.id (claimed now run) run_event_claimed "worker" run_status_running now s
      refl (moves_to run_status_queued run_status_running (find run.id s.runs) run h.0 h.1) v

pub claim_run-Has :
    (now : ℕ) (run other : EvalRun) (s : Store)
    → run.id ≢ other.id
    → Has run_status_queued s other
    → Has run_status_queued (claim_run now run s) other
unfolding claim_run claimed append_run_event_locked
claim_run-Has now run other s n h =
    (find-put_ne run.id other.id (claimed now run) s.runs n ∙ h.0, h.1)

pub claim_run-All :
    (now : ℕ) (run : EvalRun) (others : List EvalRun) (s : Store)
    → All (λ other. run.id ≢ other.id) others
    → All (Has run_status_queued s) others
    → All (Has run_status_queued (claim_run now run s)) others
claim_run-All now run [] s n h = tt
claim_run-All now run (other ∷ others) s n h =
    (claim_run-Has now run other s n.0 h.0, claim_run-All now run others s n.1 h.1)

abbrev pub Distinct : EvalRun → EvalRun → Type 0
Distinct a b = a.id ≢ b.id

pub claim_each-IsReplayed :
    (now : ℕ) (runs : List EvalRun) (s : Store)
    → AllPairs Distinct runs
    → All (Has run_status_queued s) runs
    → IsReplayed s
    → IsReplayed (claim_each now runs s).1
unfolding claim_each
claim_each-IsReplayed now [] s d h v = v
claim_each-IsReplayed now (run ∷ runs) s d h v =
    claim_each-IsReplayed now runs (claim_run now run s) d.1 (claim_run-All now run runs s d.0 h.1)
      (claim_run-IsReplayed now run s h.0 v)

-- The runs to be claimed are those of the store, each once.
pub queued_runs_found :
    (s : Store)
    → KeyedBy (λ r. r.id) s.runs
    → All (Has run_status_queued s) (queued_runs s) × AllPairs Distinct (queued_runs s)
unfolding queued_runs
queued_runs_found s k =
    let rows = keep is_queued (values s.runs) in
    let back : Permᴰ rows (sort is_older rows) = Permᴰ.symm (sort-perm is_older rows) in
    (
      All-perm (Has run_status_queued s) back (
          All-imp (λ r. (find r.id s.runs ≡ some r) × (is_queued r ≡ true))
            (Has run_status_queued s) rows (λ r h. (h.0, eq_of_str_eq h.1))
            (All-zip _ _ rows
              (All-keep _ is_queued (values s.runs) (values_found (λ r. r.id) s.runs k))
              (keep_passes is_queued (values s.runs)))),
      AllPairs-perm Distinct (λ a b n e. n (sym e)) back
          (AllPairs-keep Distinct is_queued (values s.runs) (values_distinct (λ r. r.id) s.runs k)),
    )

pub claimed-IsReplayed :
    (limit now : ℕ) (s : Store) → IsReplayed s → IsReplayed (claim_queued_runs limit now s).1
unfolding claim_queued_runs
claimed-IsReplayed limit now s v =
    let (h, d) = queued_runs_found s v.keyed in
    claim_each-IsReplayed now (take limit (queued_runs s)) s
      (AllPairs-take Distinct limit (queued_runs s) d)
      (All-take (Has run_status_queued s) limit (queued_runs s) h) v
