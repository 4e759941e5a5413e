-- ===== src/Ingestion/Chunker/Groups.antt =====
-- The groups of the chunker and the sentences that they are made of (internal/ingestion/chunker.go).
use opspilot_go_dev_kit.Prelude.{
  ℕ, String, Result, ◌+◌, ◌-◌, ◌/◌, ◌≤◌, ◌≡◌, inl, inr, refl, sym, ap, ◌∙◌, List, [], ◌∷◌, ◌++◌,
  arith, ltb, leb, length, take, drop, take-append-drop, Bool-cases,
}
use opspilot_go_dev_kit.Prelude.Floats.{Float64, float_lt}
use opspilot_go_dev_kit.Ingestion.Chunker.{
  split_loop, split_at_boundaries, merge_small, in_order, close_last, split_oversized,
  enforce_constraints, boundaries_from,
}

-- The boundaries do not go back.
abbrev pub Ascending : ℕ → List ℕ → Type 0
Ascending prev [] = Unit
Ascending prev (b ∷ bs) = (prev ≤ b) × Ascending b bs

module _ {A : Type 0} where
  -- The sentences of all groups, in order.
  abbrev pub concat : List (List A) → List A
  concat [] = []
  concat (g ∷ gs) = g ++ concat gs

  append_assoc : (xs ys zs : List A) → (xs ++ ys) ++ zs ≡ xs ++ (ys ++ zs)
  append_assoc [] ys zs = refl
  append_assoc (x ∷ xs) ys zs = ap (λ r. x ∷ r) (append_assoc xs ys zs)

  append-nil : (xs : List A) → xs ++ [] ≡ xs
  append-nil [] = refl
  append-nil (x ∷ xs) = ap (λ r. x ∷ r) (append-nil xs)

  concat-append : (gs hs : List (List A)) → concat (gs ++ hs) ≡ concat gs ++ concat hs
  concat-append [] hs = refl
  concat-append (g ∷ gs) hs =
      ap (λ r. g ++ r) (concat-append gs hs) ∙ sym (append_assoc g (concat gs) (concat hs))

  split_oversized-concat :
      (max_sentences : ℕ) (gs : List (List A))
      → concat (split_oversized max_sentences gs) ≡ concat gs
  unfolding split_oversized
  split_oversized-concat m [] = refl
  split_oversized-concat m (g ∷ gs) =
      let ih = split_oversized-concat m gs in
      elim (Bool-cases (leb (length g) m)) [
        | inl e ↦ rw (e, split_oversized) (ap (λ r. g ++ r) ih)
        | inr e ↦
            let mid = length g / 2 in
            rw (e, split_oversized)
              (sym (append_assoc (take mid g) (drop mid g) (concat (split_oversized m gs)))
                ∙ (ap (λ r. r ++ concat (split_oversized m gs)) (take-append-drop mid g)
                    ∙ ap (λ r. g ++ r) ih))
      ]

  -- What `in_order` puts in front.
  abbrev pub front : List (List A) → List A
  front before = concat (in_order before [])

  in_order-concat :
      (before gs : List (List A)) → concat (in_order before gs) ≡ front before ++ concat gs
  unfolding in_order
  in_order-concat [] gs = refl
  in_order-concat (b ∷ before) gs =
      in_order-concat before (b ∷ gs)
      ∙ (sym (append_assoc (front before) b (concat gs))
          ∙ ap (λ r. r ++ concat gs)
              (sym (in_order-concat before (b ∷ []) ∙ ap (λ r. front before ++ r) (append-nil b))))

  front-cons : (b : List A) (before : List (List A)) → front (b ∷ before) ≡ front before ++ b
  unfolding in_order
  front-cons b before = in_order-concat before (b ∷ []) ∙ ap (λ r. front before ++ r) (append-nil b)

  close_last-concat :
      (m : ℕ) (before : List (List A)) (last : List A)
      → concat (close_last m (before, last)) ≡ front before ++ last
  unfolding close_last in_order
  close_last-concat m [] last = append-nil last
  close_last-concat m (p ∷ before) last = elim (Bool-cases (ltb (length last) m)) [
    | inl e ↦
        rw (e, close_last)
          (in_order-concat before ((p ++ last) ∷ [])
            ∙ (ap (λ r. front before ++ r) (append-nil (p ++ last))
                ∙ (sym (append_assoc (front before) p last)
                    ∙ ap (λ r. r ++ last) (sym (front-cons p before)))))
    | inr e ↦
        rw (e, close_last)
          (in_order-concat before (p ∷ last ∷ [])
            ∙ (ap (λ r. front before ++ (p ++ r)) (append-nil last)
                ∙ (sym (append_assoc (front before) p last)
                    ∙ ap (λ r. r ++ last) (sym (front-cons p before)))))
  ]

  merge_small-concat :
      (m : ℕ) (before : List (List A)) (last : List A) (gs : List (List A))
      → concat (close_last m (merge_small m before last gs)) ≡ front before ++ (last ++ concat gs)
  unfolding merge_small
  merge_small-concat m before last [] =
      close_last-concat m before last ∙ ap (λ r. front before ++ r) (sym (append-nil last))
  merge_small-concat m before last (g ∷ gs) = elim (Bool-cases (ltb (length last) m)) [
    | inl e ↦
        rw (e, merge_small)
          (merge_small-concat m before (last ++ g) gs
            ∙ ap (λ r. front before ++ r) (append_assoc last g (concat gs)))
    | inr e ↦
        rw (e, merge_small)
          (merge_small-concat m (last ∷ before) g gs
            ∙ (ap (λ r. r ++ (g ++ concat gs)) (front-cons last before)
                ∙ append_assoc (front before) last (g ++ concat gs)))
  ]

  -- The constraints move sentences between groups and lose none.
  pub enforce_constraints-concat :
      (m n : ℕ) (gs : List (List A)) → concat (enforce_constraints m n gs) ≡ concat gs
  unfolding enforce_constraints in_order
  enforce_constraints-concat m n [] = refl
  enforce_constraints-concat m n (g ∷ gs) =
      split_oversized-concat n (close_last m (merge_small m [] g gs)) ∙ merge_small-concat m [] g gs

  split_loop-concat :
      (prev : ℕ) (rest : List A) (bs : List ℕ)
      → Ascending prev bs
      → concat (split_loop prev rest bs) ≡ rest
  unfolding split_loop
  split_loop-concat prev [] [] h = refl
  split_loop-concat prev (s ∷ rest) [] h = append-nil (s ∷ rest)
  split_loop-concat prev rest (b ∷ bs) h =
      let ih = split_loop-concat b (drop (b - prev) rest) bs h.1 in
      elim (Bool-cases (ltb prev b)) [
        | inl e ↦
            rw (e, split_loop)
              (ap (λ r. take (b - prev) rest ++ r) ih ∙ take-append-drop (b - prev) rest)
        | inr e ↦
            let none_between : b - prev ≡ 0 = ground arith in
            rw (e, split_loop) (ih ∙ ap (λ k. drop k rest) none_between)
      ]

  pub split_at_boundaries-concat :
      (sentences : List A) (bs : List ℕ)
      → Ascending 0 bs
      → concat (split_at_boundaries sentences bs) ≡ sentences
  unfolding split_at_boundaries
  split_at_boundaries-concat sentences [] h = append-nil sentences
  split_at_boundaries-concat sentences (b ∷ bs) h = split_loop-concat 0 sentences (b ∷ bs) h

Ascending-weaken : (i j : ℕ) (bs : List ℕ) → i ≤ j → Ascending j bs → Ascending i bs
Ascending-weaken i j [] h a = tt
Ascending-weaken i j (b ∷ bs) h a = (omega (arith, a.0), a.1)

pub boundaries-Ascending :
    {V : Type 0} (embed : String → Result String V) (similarity : V → V → Float64)
    (threshold : Float64) (i : ℕ) (vecs : List V)
    → Ascending i (boundaries_from embed similarity threshold i vecs)
unfolding boundaries_from
boundaries-Ascending embed similarity threshold i [] = tt
boundaries-Ascending embed similarity threshold i (a ∷ []) = tt
boundaries-Ascending embed similarity threshold i (a ∷ b ∷ rest) =
    let ih = boundaries-Ascending embed similarity threshold (i + 1) (b ∷ rest) in
    elim (Bool-cases (float_lt (similarity a b) threshold)) [
      | inl e ↦ rw (e, boundaries_from) (omega arith, ih)
      | inr e ↦ rw (e, boundaries_from) (Ascending-weaken i (i + 1) _ (omega arith) ih)
    ]
