-- ===== src/Prelude/TextOrder.antt =====
-- Go's `<` on strings is a strict total order.
use Prim.Native.Nat.{ℕ, compare as compare_ℕ, Ordering}
use Prim.Native.Char.{Char, code}
use Prim.Native.String as Text
use Prim.Native.String.{String, then as first_decided}
use Prim.Native.String.compare
use mathlib.Core.Path.{◌≡◌, refl, ap, ◌∙◌}
use mathlib.Core.Logic.{◌⊎◌, inl, inr}
use mathlib.Core.Bool.{true, false}
use native.Mathlib.Omega.{arith}
use text.Mathlib.Text.{is_lt}
use text.Mathlib.TextEquality.{codes_equal}
use opspilot_go_dev_kit.Prelude.Tests.{ltb, eqb, str_lt, if◌then◌else◌}

str_lt-nil : (s : String) → str_lt s "" ≡ false
str_lt-nil Text.[] = ap is_lt compare.nil-nil
str_lt-nil (Text.◌∷◌ c s) = ap is_lt (compare.cons-nil c s)

nil-str_lt : (c : Char) (s : String) → str_lt "" (Text.◌∷◌ c s) ≡ true
nil-str_lt c s = ap is_lt (compare.nil-cons c s)

is_lt-then :
    (m n : ℕ) (o : Ordering)
    → is_lt (first_decided (compare_ℕ m n) o)
      ≡ (if ltb m n then true else if eqb m n then is_lt o else false)
is_lt-then m n o = ground arith

str_lt-cons :
    (c d : Char) (s t : String)
    → str_lt (Text.◌∷◌ c s) (Text.◌∷◌ d t) ≡ (
        if ltb (code c) (code d) then true else if eqb (code c) (code d) then str_lt s t else false)
str_lt-cons c d s t =
    ap is_lt (compare.cons-cons c d s t) ∙ is_lt-then (code c) (code d) (Text.compare s t)

pub str_lt_asym : (s t : String) → str_lt s t ≡ true → str_lt t s ≡ false
str_lt_asym Text.[] t h = str_lt-nil t
str_lt_asym (Text.◌∷◌ c s) Text.[] h = ground (arith, str_lt-nil (Text.◌∷◌ c s))
str_lt_asym (Text.◌∷◌ c s) (Text.◌∷◌ d t) h =
    ground (arith, str_lt-cons c d s t, str_lt-cons d c t s, str_lt_asym s t)

pub str_lt_cotrans : (s t u : String) → str_lt t s ≡ false → str_lt u t ≡ false → str_lt u s ≡ false
str_lt_cotrans Text.[] t u h k = str_lt-nil u
str_lt_cotrans (Text.◌∷◌ c s) Text.[] u h k = ground (arith, nil-str_lt c s)
str_lt_cotrans (Text.◌∷◌ c s) (Text.◌∷◌ d t) Text.[] h k = ground (arith, nil-str_lt d t)
str_lt_cotrans (Text.◌∷◌ c s) (Text.◌∷◌ d t) (Text.◌∷◌ e u) h k =
    ground
      (arith, str_lt-cons d c t s, str_lt-cons e d u t, str_lt-cons e c u s, str_lt_cotrans s t u)

pub str_lt_total : (s t : String) → (str_lt s t ≡ true) ⊎ (str_lt t s ≡ true) ⊎ (s ≡ t)
str_lt_total Text.[] Text.[] = inr (inr refl)
str_lt_total Text.[] (Text.◌∷◌ d t) = inl (nil-str_lt d t)
str_lt_total (Text.◌∷◌ c s) Text.[] = inr (inl (nil-str_lt c s))
str_lt_total (Text.◌∷◌ c s) (Text.◌∷◌ d t) =
    by_head (compare_ℕ (code c) (code d)) refl (str_lt_total s t)
  where
    by_head :
        (o : Ordering)
        → compare_ℕ (code c) (code d) ≡ o
        → (str_lt s t ≡ true) ⊎ (str_lt t s ≡ true) ⊎ (s ≡ t)
        → (str_lt (Text.◌∷◌ c s) (Text.◌∷◌ d t) ≡ true)
          ⊎ (str_lt (Text.◌∷◌ d t) (Text.◌∷◌ c s) ≡ true)
          ⊎ (Text.◌∷◌ c s ≡ Text.◌∷◌ d t)
    by_head Ordering.lt e h = inl (ground (arith, str_lt-cons c d s t))
    by_head Ordering.gt e h = inr (inl (ground (arith, str_lt-cons d c t s)))
    by_head Ordering.eq e (inl h) = inl (ground (arith, str_lt-cons c d s t))
    by_head Ordering.eq e (inr (inl h)) = inr (inl (ground (arith, str_lt-cons d c t s)))
    by_head Ordering.eq e (inr (inr h)) = inr (inr (λ i. Text.◌∷◌ (codes_equal c d e i) (h i)))
