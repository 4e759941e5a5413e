-- ===== src/Workflow/Lifecycle/Between.antt =====
-- The claims in an audit log and the retries between them (internal/workflow/service.go, runner.go).
use opspilot_go_dev_kit.Prelude.{
  ◌<◌, String, ◌≡◌, refl, sym, ap, ◌∙◌, inl, inr, Bool, true, false, not, ◌&&◌, ◌||◌, Option, none,
  some, List, [], ◌∷◌, ◌++◌, ◌==◌, eq_iff, if◌then◌else◌, arith, Bool-cases,
}
use opspilot_go_dev_kit.Workflow.Types.{
  AuditEvent, status_queued, status_waiting_approval, audit_action_claimed, audit_action_retried,
}
use opspilot_go_dev_kit.Workflow.Store.{View}
use opspilot_go_dev_kit.Workflow.Service.{World}
use opspilot_go_dev_kit.Workflow.Runner.{Runner}
use opspilot_go_dev_kit.Workflow.Lifecycle.{Move, Move-rule, History, unborn, moved}
use opspilot_go_dev_kit.Workflow.Lifecycle.Worker.{IsSound}
use opspilot_go_dev_kit.Workflow.Lifecycle.Reach.{Reach, Inv, Reach-Inv}
use opspilot_go_dev_kit.Workflow.Lifecycle.Counts.{times}

-- Whether there is a claim that no retry has followed, after an action.
abbrev turn : Bool → String → Bool
turn held action =
    if action == audit_action_claimed
    then true
    else if action == audit_action_retried
    then false
    else held

abbrev allowed : Bool → String → Bool
allowed held action = if action == audit_action_claimed then not held else true

abbrev open_after : Bool → List AuditEvent → Bool
open_after held [] = held
open_after held (e ∷ es) = open_after (turn held e.action) es

-- No claim while another is open.
abbrev claims_apart : Bool → List AuditEvent → Bool
claims_apart held [] = true
claims_apart held (e ∷ es) = allowed held e.action && claims_apart (turn held e.action) es

open_after-snoc :
    (held : Bool) (log : List AuditEvent) (e : AuditEvent)
    → open_after held (log ++ e ∷ []) ≡ turn (open_after held log) e.action
open_after-snoc held [] e = refl
open_after-snoc held (x ∷ log) e = open_after-snoc (turn held x.action) log e

claims_apart-snoc :
    (held : Bool) (log : List AuditEvent) (e : AuditEvent)
    → claims_apart held log ≡ true
    → allowed (open_after held log) e.action ≡ true
    → claims_apart held (log ++ e ∷ []) ≡ true
claims_apart-snoc held [] e h k = rw k
claims_apart-snoc held (x ∷ log) e h k = elim (Bool-cases (allowed held x.action)) [
  | inl a ↦ rw a (claims_apart-snoc (turn held x.action) log e (rw a at h) k)
  | inr a ↦ let impossible : false ≡ true = (rw a at h) in absurd cc
]

-- The statuses from which a claim may come without a retry.
abbrev is_free : Option String → Bool
is_free none = true
is_free (some st) = st == status_queued || st == status_waiting_approval

abbrev Allows : Option String → String → String → Type 0
Allows from action to =
    (held : Bool)
    → (is_free from && held) ≡ false
    → (allowed held action ≡ true) × ((is_free (some to) && turn held action) ≡ false)

closed : (held : Bool) → held ≡ false → (held ≡ false) × (not held ≡ true)
closed held h = (h, ap not h)

move-Allows :
    (from : Option String) (action to : String) → Move from action to → Allows from action to
move-Allows from action to =
    Move-rule Allows (λ held h. (refl, h)) (λ held h. (refl, h)) (λ held h. (refl, refl))
      (λ held h. (refl, h)) (λ held h. (ap not h, refl)) (λ held h. (refl, refl))
      (λ held h. (refl, refl)) (λ held h. (refl, refl)) from action to

History-apart :
    {log : List AuditEvent} {st : Option String}
    → History log st
    → (claims_apart false log ≡ true) × ((is_free st && open_after false log) ≡ false)
History-apart unborn = (refl, refl)
History-apart (moved {log = log} {from = from} h e to log' m eq) =
    let (apart, held) = History-apart h in
    let (free, next) = move-Allows from e.action to m (open_after false log) held in
    (
      ap (claims_apart false) eq ∙ claims_apart-snoc false log e apart free,
      ap (λ l. is_free (some to) && open_after false l) eq
          ∙ (ap (λ b. is_free (some to) && b) (open_after-snoc false log e) ∙ next),
    )

-- The events up to a claim, while one is open.
open_claim :
    (ys zs : List AuditEvent) (d : AuditEvent)
    → d.action ≡ audit_action_claimed
    → claims_apart true (ys ++ d ∷ zs) ≡ true
    → 0 < times audit_action_retried ys
open_claim [] zs d k h = absurd cc
open_claim (y ∷ ys) zs d k h = elim (Bool-cases (y.action == audit_action_claimed)) [
  | inl c ↦ let impossible : false ≡ true = (rw c at h) in absurd cc
  | inr c ↦ elim (Bool-cases (y.action == audit_action_retried)) [
    | inl e ↦ rw e (omega arith)
    | inr e ↦ rw e (open_claim ys zs d k (rw (c, e) at h))
  ]
]

two_claims :
    (held : Bool) (xs ys zs : List AuditEvent) (c d : AuditEvent)
    → c.action ≡ audit_action_claimed
    → d.action ≡ audit_action_claimed
    → claims_apart held (xs ++ c ∷ (ys ++ d ∷ zs)) ≡ true
    → 0 < times audit_action_retried ys
two_claims held [] ys zs c d k l h =
    open_claim ys zs d l (ground (arith, eq_iff c.action audit_action_claimed))
two_claims held (x ∷ xs) ys zs c d k l h = elim (Bool-cases (allowed held x.action)) [
  | inl a ↦ two_claims (turn held x.action) xs ys zs c d k l (rw a at h)
  | inr a ↦ let impossible : false ≡ true = (rw a at h) in absurd cc
]

module _ {S : Type 0} (v : View S) (IsGood : S → Type 0) (r : Runner S)
    (i : IsSound v IsGood r) where
  -- Under `IsSound` (the task store and the report recorder keep their contracts, and an atomic
  -- recorder refuses a task without a version wherever the worker's own lookup of the version
  -- fails), and with each call and each batch taken as one step: in every store that the service
  -- and the worker reach from a store in which the invariant holds, there is a retry between any
  -- two claims in the log of an id.
  pub retry_between_claims :
      {w w' : World S} (j : String) (xs ys zs : List AuditEvent) (c d : AuditEvent)
      → Inv v IsGood r i w
      → Reach v r w w'
      → v.log_at w'.state j ≡ xs ++ c ∷ (ys ++ d ∷ zs)
      → c.action ≡ audit_action_claimed
      → d.action ≡ audit_action_claimed
      → 0 < times audit_action_retried ys
  retry_between_claims j xs ys zs c d h p e k l =
      two_claims false xs ys zs c d k l (
        sym (ap (claims_apart false) e)
        ∙ (History-apart ((Reach-Inv v IsGood r i h p).audited j)).0)
