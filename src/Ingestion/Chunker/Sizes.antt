-- ===== src/Ingestion/Chunker/Sizes.antt =====
-- How many sentences the groups of the chunker have (internal/ingestion/chunker.go).
use opspilot_go_dev_kit.Prelude.{
  ℕ, ◌+◌, ◌*◌, ◌/◌, ◌≤◌, ◌<◌, inl, inr, List, [], ◌∷◌, ◌++◌, arith, ltb, leb, length, Bool-cases,
  length-append, length-drop, length-take, All,
}
use opspilot_go_dev_kit.Ingestion.Chunker.{
  merge_small, in_order, close_last, split_oversized, enforce_constraints,
}
use opspilot_go_dev_kit.Ingestion.Chunker.Groups.{concat}

module _ {A : Type 0} where
  -- Every group has so many sentences at least.
  abbrev pub AtLeast : ℕ → List (List A) → Type 0
  AtLeast m gs = All (λ g. m ≤ length g) gs

  split_oversized-AtLeast :
      (m n : ℕ) (gs : List (List A))
      → 2 * m ≤ n + 1
      → AtLeast m gs
      → AtLeast m (split_oversized n gs)
  unfolding split_oversized
  split_oversized-AtLeast m n [] h a = tt
  split_oversized-AtLeast m n (g ∷ gs) h a =
      let ih = split_oversized-AtLeast m n gs h a.1 in
      elim (Bool-cases (leb (length g) n)) [
        | inl e ↦ rw (e, split_oversized) (a.0, ih)
        | inr e ↦
            let mid = length g / 2 in
            let large : n < length g = ground arith in
            rw (e, split_oversized)
              (
                omega (arith, length-take mid g, large),
                (omega (arith, length-drop mid g, large), ih),
              )
      ]

  in_order-AtLeast :
      (m : ℕ) (before gs : List (List A))
      → AtLeast m before
      → AtLeast m gs
      → AtLeast m (in_order before gs)
  unfolding in_order
  in_order-AtLeast m [] gs a b = b
  in_order-AtLeast m (g ∷ before) gs a b = in_order-AtLeast m before (g ∷ gs) a.1 (a.0, b)

  -- The last group may be small where it is the only one.
  abbrev total : List (List A) × List A → ℕ
  total (before, last) = length (concat before) + length last

  close_last-AtLeast :
      (m : ℕ) (before : List (List A)) (last : List A)
      → m ≤ total (before, last)
      → AtLeast m before
      → AtLeast m (close_last m (before, last))
  unfolding close_last in_order
  close_last-AtLeast m [] last h a = (omega arith, tt)
  close_last-AtLeast m (p ∷ before) last h a = elim (Bool-cases (ltb (length last) m)) [
    | inl e ↦
        rw (e, close_last)
          (in_order-AtLeast m before ((p ++ last) ∷ []) a.1
            (omega (arith, length-append p last, a.0), tt))
    | inr e ↦
        rw (e, close_last) (in_order-AtLeast m before (p ∷ last ∷ []) a.1 (a.0, (ground arith, tt)))
  ]

  merge_small-AtLeast :
      (m : ℕ) (before : List (List A)) (last : List A) (gs : List (List A))
      → m ≤ total (before, last) + length (concat gs)
      → AtLeast m before
      → AtLeast m (close_last m (merge_small m before last gs))
  unfolding merge_small
  merge_small-AtLeast m before last [] h a = close_last-AtLeast m before last (omega arith) a
  merge_small-AtLeast m before last (g ∷ gs) h a =
      let two = length-append g (concat gs) in
      elim (Bool-cases (ltb (length last) m)) [
        | inl e ↦
            rw (e, merge_small)
              (merge_small-AtLeast m before (last ++ g) gs
                (omega (arith, two, length-append last g)) a)
        | inr e ↦
            rw (e, merge_small)
              (merge_small-AtLeast m (last ∷ before) g gs
                (omega (arith, two, length-append last (concat before))) (ground arith, a))
      ]

  -- With enough sentences in all, and a maximum that two small groups just exceed, no group is small.
  pub enforce_constraints-AtLeast :
      (m n : ℕ) (gs : List (List A))
      → 2 * m ≤ n + 1
      → m ≤ length (concat gs)
      → AtLeast m (enforce_constraints m n gs)
  unfolding enforce_constraints
  enforce_constraints-AtLeast m n [] h k = tt
  enforce_constraints-AtLeast m n (g ∷ gs) h k =
      split_oversized-AtLeast m n (close_last m (merge_small m [] g gs)) h
        (merge_small-AtLeast m [] g gs (omega (arith, length-append g (concat gs))) tt)
