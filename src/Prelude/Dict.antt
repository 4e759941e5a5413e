-- ===== src/Prelude/Dict.antt =====
-- Go's `map[string]V` as an association list. The order of the entries stands for the iteration
-- order of `range`, which Go leaves open: a theorem about every list covers every order.
use Prim.Native.String.{String}
use mathlib.Core.Path.{◌≡◌, refl, ap, sym, subst, ◌∙◌}
use mathlib.Core.Logic.{◌≢◌, inl, inr}
use mathlib.Core.Option.{Option, none, some}
use mathlib.Core.List.{List, [], ◌∷◌}
use native.Mathlib.Omega.{arith}
use text.Mathlib.Text.{◌==◌}
use text.Mathlib.TextEquality.{eq_iff}
use text.Mathlib.TextPositions.{eq_refl}
use opspilot_go_dev_kit.Prelude.Tests.{if◌then◌else◌, Bool-cases, eq_of_str_eq, str-ne_of_false}
use opspilot_go_dev_kit.Prelude.Lists.{All, AllPairs}

abbrev pub Dict {ℓ} : Type ℓ → Type ℓ
Dict V = List (String × V)

module _ {ℓ} {V : Type ℓ} where
  -- `v, ok := m[k]`
  unfoldable pub find : String → Dict V → Option V
  find k [] = none
  find k ((j, v) ∷ m) = if j == k then some v else find k m

  -- `m[k] = v`
  unfoldable pub put : String → V → Dict V → Dict V
  put k v [] = (k, v) ∷ []
  put k v ((j, w) ∷ m) = if j == k then (k, v) ∷ m else (j, w) ∷ put k v m

  -- The values in iteration order.
  abbrev pub values : Dict V → List V
  values [] = []
  values ((_, v) ∷ m) = v ∷ values m

  pub find-put :
      (k j : String) (v : V) (m : Dict V)
      → find j (put k v m) ≡ (if k == j then some v else find j m)
  unfolding find put
  find-put k j v [] = refl
  find-put k j v ((i, w) ∷ m) = ground (arith, eq_iff k j, eq_iff i k, eq_iff i j, find-put k j v m)

  pub find-put_self : (k : String) (v : V) (m : Dict V) → find k (put k v m) ≡ some v
  find-put_self k v m = simp (find-put, eq_refl)

  pub find-put_ne : (k j : String) (v : V) (m : Dict V) → k ≢ j → find j (put k v m) ≡ find j m
  find-put_ne k j v m h = ground (arith, find-put k j v m, eq_iff k j)

  -- The keys are distinct, and each value is stored under the key that it carries.
  abbrev pub KeyedBy : (V → String) → Dict V → Type 0
  KeyedBy key m = All (λ e. e.0 ≡ key e.1) m × AllPairs (λ e f. e.0 ≢ f.0) m

module _ {ℓ} {V : Type ℓ} (key : V → String) where
  pub find_key :
      (k : String) (v : V) (m : Dict V) → All (λ e. e.0 ≡ key e.1) m → find k m ≡ some v → key v ≡ k
  unfolding find
  find_key k v [] h f = cc
  find_key k v ((j, w) ∷ m) h f = elim (Bool-cases (j == k)) [
    | inl e ↦
        let found : some w ≡ some v = (rw e at f) in
        let w_eq : w ≡ v = cc in sym (ap key w_eq) ∙ (sym h.0 ∙ eq_of_str_eq e)
    | inr e ↦ find_key k v m h.1 (rw e at f)
  ]

  put_keeps_keys :
      (k : String) (v : V) (m : Dict V)
      → k ≡ key v
      → All (λ e. e.0 ≡ key e.1) m
      → All (λ e. e.0 ≡ key e.1) (put k v m)
  unfolding put
  put_keeps_keys k v [] e h = (e, tt)
  put_keeps_keys k v ((j, w) ∷ m) e h = ground (arith, put_keeps_keys k v m e h.1)

  abbrev Fresh : String → Dict V → Type 0
  Fresh j m = All (λ e. j ≢ e.0) m

  put-Fresh : (j k : String) (v : V) (m : Dict V) → j ≢ k → Fresh j m → Fresh j (put k v m)
  unfolding put
  put-Fresh j k v [] n h = (n, tt)
  put-Fresh j k v ((i, w) ∷ m) n h = elim (Bool-cases (i == k)) [
    | inl e ↦ rw e (n, h.1)
    | inr e ↦ rw e (h.0, put-Fresh j k v m n h.1)
  ]

  put_distinct :
      (k : String) (v : V) (m : Dict V)
      → AllPairs (λ e f. e.0 ≢ f.0) m
      → AllPairs (λ e f. e.0 ≢ f.0) (put k v m)
  unfolding put
  put_distinct k v [] h = (tt, tt)
  put_distinct k v ((j, w) ∷ m) h = elim (Bool-cases (j == k)) [
    | inl e ↦ rw e (subst (λ i. Fresh i m) (eq_of_str_eq e) h.0, h.1)
    | inr e ↦ rw e (put-Fresh j k v m (str-ne_of_false e) h.0, put_distinct k v m h.1)
  ]

  pub put-KeyedBy : (v : V) (m : Dict V) → KeyedBy key m → KeyedBy key (put (key v) v m)
  put-KeyedBy v m h = (put_keeps_keys (key v) v m refl h.0, put_distinct (key v) v m h.1)

  -- The values of a well-keyed map have distinct keys.
  pub values_distinct : (m : Dict V) → KeyedBy key m → AllPairs (λ v w. key v ≢ key w) (values m)
  values_distinct [] h = tt
  values_distinct ((j, v) ∷ m) h =
      (fresh_values j v m h.0.0 h.0.1 h.1.0, values_distinct m (h.0.1, h.1.1))
    where
      fresh_values :
          (j : String) (v : V) (m : Dict V)
          → j ≡ key v
          → All (λ e. e.0 ≡ key e.1) m
          → Fresh j m
          → All (λ w. key v ≢ key w) (values m)
      fresh_values j v [] e h f = tt
      fresh_values j v ((i, w) ∷ m) e h f =
          (λ p. f.0 (e ∙ (p ∙ sym h.0)), fresh_values j v m e h.1 f.1)

  find-Fresh :
      (j : String) (v : V) (m n : Dict V)
      → Fresh j m
      → All (λ w. find (key w) n ≡ some w) (values m)
      → All (λ e. e.0 ≡ key e.1) m
      → All (λ w. find (key w) ((j, v) ∷ n) ≡ some w) (values m)
  unfolding find
  find-Fresh j v [] n f h k = tt
  find-Fresh j v ((i, w) ∷ m) n f h k =
      (ground (arith, eq_iff j (key w), h.0, k.0, f.0), find-Fresh j v m n f.1 h.1 k.1)

  -- Each value is found under its key.
  pub values_found : (m : Dict V) → KeyedBy key m → All (λ v. find (key v) m ≡ some v) (values m)
  unfolding find
  values_found [] h = tt
  values_found ((j, v) ∷ m) h = (
    ground (arith, eq_iff j (key v), h.0.0),
    find-Fresh j v m m h.1.0 (values_found m (h.0.1, h.1.1)) h.0.1,
  )
