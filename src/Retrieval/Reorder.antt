-- ===== src/Retrieval/Reorder.antt =====
-- internal/retrieval/reorder.go: the most relevant blocks go to the two ends of the list. A block is a
-- value of any type.
use opspilot_go_dev_kit.Prelude.{
  ◌≡◌, inl, inr, refl, sym, ap, ◌∙◌, Bool, true, false, List, [], ◌∷◌, ◌++◌, Permᴰ, length, leb,
  if◌then◌else◌, Bool-cases,
}
use mathlib.Core.List.Permᴰ

module _ {ℓ} {A : Type ℓ} where
  -- The loop: `front` is `result[:left]` and `back` is `result[right+1:]`. The Boolean says whether the
  -- index is even.
  unfoldable pub place : Bool → List A → List A → List A → List A
  place even [] front back = front ++ back
  place true (block ∷ blocks) front back = place false blocks (front ++ block ∷ []) back
  place false (block ∷ blocks) front back = place true blocks front (block ∷ back)

  unfoldable pub reorder_lost_in_the_middle : List A → List A
  unfolding place
  reorder_lost_in_the_middle blocks =
      if leb (length blocks) 2 then blocks else place true blocks [] []

  -- Every other element, the first one if the Boolean says so.
  abbrev pub every_other : Bool → List A → List A
  every_other keep_it [] = []
  every_other true (x ∷ xs) = x ∷ every_other false xs
  every_other false (x ∷ xs) = every_other true xs

  abbrev pub backwards : List A → List A
  backwards [] = []
  backwards (x ∷ xs) = backwards xs ++ x ∷ []

  append_assoc : (xs ys zs : List A) → (xs ++ ys) ++ zs ≡ xs ++ (ys ++ zs)
  append_assoc [] ys zs = refl
  append_assoc (x ∷ xs) ys zs = ap (λ r. x ∷ r) (append_assoc xs ys zs)

  place_lem :
      (even : Bool) (blocks front back : List A)
      → place even blocks front back
        ≡ front
          ++ (every_other even blocks
              ++ (backwards (every_other (if even then false else true) blocks) ++ back))
  unfolding place
  place_lem true [] front back = refl
  place_lem false [] front back = refl
  place_lem true (b ∷ blocks) front back =
      place_lem false blocks (front ++ b ∷ []) back
      ∙ append_assoc front (b ∷ [])
          (every_other false blocks ++ (backwards (every_other true blocks) ++ back))
  place_lem false (b ∷ blocks) front back =
      place_lem true blocks front (b ∷ back)
      ∙ ap (λ r. front ++ (every_other true blocks ++ r))
          (sym (append_assoc (backwards (every_other false blocks)) (b ∷ []) back))

  place-perm :
      (even : Bool) (blocks front back : List A)
      → Permᴰ (place even blocks front back) (blocks ++ (front ++ back))
  unfolding place
  place-perm true [] front back = Permᴰ.refl (front ++ back)
  place-perm false [] front back = Permᴰ.refl (front ++ back)
  place-perm true (b ∷ blocks) front back =
      Permᴰ.trans (place-perm false blocks (front ++ b ∷ []) back) (
        Permᴰ.trans
          (Permᴰ.append_left blocks (
            Permᴰ.append_right back
              (Permᴰ.trans (Permᴰ.middle b front []) (Permᴰ.cons refl (Permᴰ.append-nil front)))))
          (Permᴰ.middle b blocks (front ++ back)))
  place-perm false (b ∷ blocks) front back = Permᴰ.trans (place-perm true blocks front (b ∷ back)) (
      Permᴰ.trans (Permᴰ.append_left blocks (Permᴰ.middle b front back))
        (Permᴰ.middle b blocks (front ++ back)))

  -- `ReorderLostInTheMiddle` loses no block and adds none. Of more than two blocks, those of odd rank come
  -- first, by rank, then those of even rank, the other way round.
  pub reorder_lem :
      (blocks : List A)
      → Permᴰ (reorder_lost_in_the_middle blocks) blocks
        × (reorder_lost_in_the_middle blocks ≡ (
            if leb (length blocks) 2
            then blocks
            else every_other true blocks ++ backwards (every_other false blocks)))
  unfolding reorder_lost_in_the_middle
  reorder_lem blocks = elim (Bool-cases (leb (length blocks) 2)) [
    | inl few ↦ rw (reorder_lost_in_the_middle, few) (Permᴰ.refl blocks, refl)
    | inr many ↦
        rw (reorder_lost_in_the_middle, many)
          (
            Permᴰ.trans (place-perm true blocks [] []) (Permᴰ.append-nil blocks),
            place_lem true blocks [] []
                ∙ ap (λ r. every_other true blocks ++ r)
                    (append_nil (backwards (every_other false blocks))),
          )
  ]
    where
      append_nil : (xs : List A) → xs ++ [] ≡ xs
      append_nil [] = refl
      append_nil (x ∷ xs) = ap (λ r. x ∷ r) (append_nil xs)
