-- ===== src/Cases/Memory/Notes.antt =====
-- The notes of a case, newest first (internal/case/memory_store.go and service.go).
use opspilot_go_dev_kit.Prelude.{
  ℕ, zero, suc, ◌≤◌, ◌≡◌, inl, inr, refl, sym, ap, ◌∙◌, List, [], ◌∷◌, ◌++◌, arith, length, take,
  length-take, take_all, eqb, Bool-cases,
}
use opspilot_go_dev_kit.Cases.Types.{Note}
use opspilot_go_dev_kit.Cases.Memory.{last_notes}

-- The notes from the last to the first.
abbrev pub newest_first : List Note → List Note
newest_first [] = []
newest_first (n ∷ ns) = newest_first ns ++ n ∷ []

take-snoc_full :
    (k : ℕ) (xs : List Note) (x : Note) → k ≤ length xs → take k (xs ++ x ∷ []) ≡ take k xs
take-snoc_full zero xs x h = refl
take-snoc_full (suc k) [] x h = absurd (omega arith)
take-snoc_full (suc k) (y ∷ ys) x h = ap (λ r. y ∷ r) (take-snoc_full k ys x (omega arith))

take-snoc_short :
    (k : ℕ) (xs : List Note) (x : Note) → suc (length xs) ≤ k → take k (xs ++ x ∷ []) ≡ xs ++ x ∷ []
take-snoc_short zero xs x h = absurd (omega arith)
take-snoc_short (suc zero) [] x h = refl
take-snoc_short (suc (suc k)) [] x h = refl
take-snoc_short (suc k) (y ∷ ys) x h = ap (λ r. y ∷ r) (take-snoc_short k ys x (omega arith))

pub last_notes_lem : (k : ℕ) (ns : List Note) → last_notes k ns ≡ take k (newest_first ns)
unfolding last_notes
last_notes_lem zero [] = refl
last_notes_lem (suc k) [] = refl
last_notes_lem k (n ∷ ns) =
    let len = length-take k (newest_first ns) in
    elim (Bool-cases (eqb (length (last_notes k ns)) k)) [
      | inl full ↦
          let e : length (take k (newest_first ns)) ≡ k =
            ap length (sym (last_notes_lem k ns)) ∙ ground arith in
          rw full (
            last_notes_lem k ns
            ∙ sym (take-snoc_full k (newest_first ns) n (omega (arith, len, e))))
      | inr room ↦
          let e : length (last_notes k ns) ≡ length (take k (newest_first ns)) =
            ap length (last_notes_lem k ns) in
          let short : suc (length (newest_first ns)) ≤ k = ground (arith, len, e) in
          rw room (
            ap (λ r. r ++ n ∷ [])
              (last_notes_lem k ns ∙ take_all k (newest_first ns) (omega (arith, short)))
            ∙ sym (take-snoc_short k (newest_first ns) n short))
    ]
