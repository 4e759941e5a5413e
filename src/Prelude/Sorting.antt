-- ===== src/Prelude/Sorting.antt =====
-- `sort.Slice(xs, func(i, j int) bool { return before(xs[i], xs[j]) })`. Go promises an ordered
-- permutation and no more; elements that the test does not order may come in any order, and so they do
-- here, since the input's order is that of a map.
use mathlib.Core.Path.{◌≡◌, refl, ap, ◌∙◌}
use mathlib.Core.Logic.{◌⊎◌, inl, inr}
use mathlib.Core.Bool.{Bool, true, false}
use mathlib.Core.List.{List, [], ◌∷◌, Permᴰ}
use mathlib.Core.List.Permᴰ
use native.Mathlib.Omega.{arith}
use opspilot_go_dev_kit.Prelude.Tests.{if◌then◌else◌, Bool-cases}
use opspilot_go_dev_kit.Prelude.Lists.{All, AllPairs, AllPairs-perm}

module _ {ℓ} {A : Type ℓ} (before : A → A → Bool) where
  unfoldable pub insert : A → List A → List A
  insert x [] = x ∷ []
  insert x (y ∷ ys) = let rest = insert x ys in if before y x then y ∷ rest else x ∷ y ∷ ys

  unfoldable pub sort : List A → List A
  unfolding insert
  sort [] = []
  sort (x ∷ xs) = insert x (sort xs)

  -- No element stands behind one that it should precede.
  abbrev pub IsSorted : List A → Type 0
  IsSorted xs = AllPairs (λ x y. before y x ≡ false) xs

  pub insert-perm : (x : A) (xs : List A) → Permᴰ (insert x xs) (x ∷ xs)
  unfolding insert
  insert-perm x [] = Permᴰ.refl (x ∷ [])
  insert-perm x (y ∷ ys) =
      elim (before y x) as (λ b. Permᴰ (if b then y ∷ insert x ys else x ∷ y ∷ ys) (x ∷ y ∷ ys)) [
        | true ↦ Permᴰ.trans (Permᴰ.cons refl (insert-perm x ys)) (Permᴰ.swap refl refl)
        | false ↦ Permᴰ.refl (x ∷ y ∷ ys)
      ]

  pub sort-perm : (xs : List A) → Permᴰ (sort xs) xs
  unfolding sort
  sort-perm [] = Permᴰ.nil
  sort-perm (x ∷ xs) = Permᴰ.trans (insert-perm x (sort xs)) (Permᴰ.cons refl (sort-perm xs))

-- The laws of a strict weak order, as `sort.Slice` wants of its test.
pub record WeakOrder {ℓ} {A : Type ℓ} (before : A → A → Bool) : Type ℓ where
  pub asym : (x y : A) → before x y ≡ true → before y x ≡ false
  pub cotrans : (x y z : A) → before y x ≡ false → before z y ≡ false → before z x ≡ false

module _ {ℓ} {A : Type ℓ} (before : A → A → Bool) (w : WeakOrder before) where
  All-insert : (P : A → Type 0) (x : A) (xs : List A) → P x → All P xs → All P (insert before x xs)
  unfolding insert
  All-insert P x [] p h = (p, tt)
  All-insert P x (y ∷ ys) p h = ground (arith, All-insert P x ys p h.1)

  behind-All :
      (x y : A) (ys : List A)
      → before y x ≡ false
      → All (λ z. before z y ≡ false) ys
      → All (λ z. before z x ≡ false) ys
  behind-All x y [] e h = tt
  behind-All x y (z ∷ zs) e h = (w.cotrans x y z e h.0, behind-All x y zs e h.1)

  insert-IsSorted :
      (x : A) (xs : List A) → IsSorted before xs → IsSorted before (insert before x xs)
  unfolding insert
  insert-IsSorted x [] h = (tt, tt)
  insert-IsSorted x (y ∷ ys) h = elim (Bool-cases (before y x)) [
    | inl e ↦
        rw e
          (All-insert (λ z. before z y ≡ false) x ys (w.asym y x e) h.0, insert-IsSorted x ys h.1)
    | inr e ↦ rw e ((e, behind-All x y ys e h.0), h)
  ]

  -- The result is in order.
  pub sort-IsSorted : (xs : List A) → IsSorted before (sort before xs)
  unfolding sort
  sort-IsSorted [] = tt
  sort-IsSorted (x ∷ xs) = insert-IsSorted x (sort before xs) (sort-IsSorted xs)

-- Where the test orders any two elements of the list, the result does not depend on their order.
module _ {ℓ} {A : Type ℓ} (before : A → A → Bool) (w : WeakOrder before) where
  abbrev pub Ordered : A → A → Type 0
  Ordered x y = (before x y ≡ true) ⊎ (before y x ≡ true)

  Ordered-symm : (x y : A) → Ordered x y → Ordered y x
  Ordered-symm x y (inl e) = inr e
  Ordered-symm x y (inr e) = inl e

  insert-insert :
      (x y : A) (l : List A)
      → Ordered x y
      → insert before x (insert before y l) ≡ insert before y (insert before x l)
  unfolding insert
  insert-insert x y [] o = ground (arith, w.asym x y, w.asym y x)
  insert-insert x y (z ∷ l) o = ground (
    arith,
    w.asym x y,
    w.asym y x,
    w.cotrans x y z,
    w.cotrans y x z,
    w.asym z x,
    w.asym z y,
    insert-insert x y l o,
  )

  pub sort_of_perm :
      {xs ys : List A} → Permᴰ xs ys → AllPairs Ordered xs → sort before xs ≡ sort before ys
  unfolding sort
  sort_of_perm Permᴰ.nil h = refl
  sort_of_perm (Permᴰ.cons {a = a} {b = b} {l₁ = l} {l₂ = m} e p) h =
      ap (λ u. insert before u (sort before l)) e ∙ ap (insert before b) (sort_of_perm p h.1)
  sort_of_perm (Permᴰ.swap {a = a} {b = b} {a' = c} {b' = d} {l = l} e f) h =
      insert-insert a b (sort before l) h.0.0
      ∙ (ap (λ u. insert before u (insert before a (sort before l))) f
          ∙ ap (λ u. insert before c (insert before u (sort before l))) e)
  sort_of_perm (Permᴰ.trans p q) h =
      sort_of_perm p h ∙ sort_of_perm q (AllPairs-perm Ordered Ordered-symm p h)
