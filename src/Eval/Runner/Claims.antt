-- ===== src/Eval/Runner/Claims.antt =====
-- The runs that a batch claims (internal/eval/runner.go, ClaimQueuedRuns of memory_store.go).
use opspilot_go_dev_kit.Prelude.{
  ℕ, String, ◌≡◌, ◌≢◌, refl, sym, ◌∙◌, List, [], ◌∷◌, All, AllPairs, All-imp,
}
use opspilot_go_dev_kit.Prelude.Dict.{find, find-put_ne, find-put_self}
use opspilot_go_dev_kit.Eval.Types.{EvalRun, run_status_queued}
use opspilot_go_dev_kit.Eval.Store.{Store}
use opspilot_go_dev_kit.Eval.Store.Runs.{append_run_event_locked}
use opspilot_go_dev_kit.Eval.Store.Claims.{claim_run, claim_each, claimed}
use opspilot_go_dev_kit.Eval.Runner.Marks.{Runs}
use opspilot_go_dev_kit.Eval.Lifecycle.Replay.Steps.{Has, Distinct, claim_run-All}

-- A claim changes no run but its own.
claim_each_elsewhere :
    (now : ℕ) (id : String) (items : List EvalRun) (s : Store)
    → All (λ item. item.id ≢ id) items
    → find id (claim_each now items s).1.runs ≡ find id s.runs
unfolding claim_each claim_run claimed append_run_event_locked
claim_each_elsewhere now id [] s n = refl
claim_each_elsewhere now id (item ∷ items) s n =
    claim_each_elsewhere now id items (claim_run now item s) n.1
    ∙ find-put_ne item.id id (claimed now item) s.runs n.0

-- The claimed runs have the ids of those that were queued.
claim_each_ids :
    (P : String → Type 0) (now : ℕ) (items : List EvalRun) (s : Store)
    → All (λ item. P item.id) items
    → All (λ run. P run.id) (claim_each now items s).0
unfolding claim_each claimed
claim_each_ids P now [] s h = tt
claim_each_ids P now (item ∷ items) s h =
    (h.0, claim_each_ids P now items (claim_run now item s) h.1)

pub claim_each-Distinct :
    (now : ℕ) (items : List EvalRun) (s : Store)
    → AllPairs Distinct items
    → AllPairs Distinct (claim_each now items s).0
unfolding claim_each claimed
claim_each-Distinct now [] s d = tt
claim_each-Distinct now (item ∷ items) s d = (
  claim_each_ids (λ j. item.id ≢ j) now items (claim_run now item s) d.0,
  claim_each-Distinct now items (claim_run now item s) d.1,
)

pub claim_each-Runs :
    (now : ℕ) (items : List EvalRun) (s : Store)
    → AllPairs Distinct items
    → All (Has run_status_queued s) items
    → All (λ run. Runs (claim_each now items s).1 run.id) (claim_each now items s).0
unfolding claim_each claimed claim_run append_run_event_locked
claim_each-Runs now [] s d h = tt
claim_each-Runs now (item ∷ items) s d h =
    let s₁ = claim_run now item s in
    let kept = claim_each_elsewhere now item.id items s₁ (
      All-imp (λ other. item.id ≢ other.id) (λ other. other.id ≢ item.id) items
        (λ other n e. n (sym e)) d.0) in
    (
      (claimed now item, kept ∙ find-put_self item.id (claimed now item) s.runs, refl),
      claim_each-Runs now items s₁ d.1 (claim_run-All now item items s d.0 h.1),
    )
