-- ===== src/Prelude/Ids.antt =====
-- Ids of the form prefix, time, `-`, number, and the reading of their number.
use Prim.Native.Nat.{ℕ, zero, suc, ◌+◌, ◌-◌, ◌*◌, ◌/◌, ◌%◌, ◌<◌}
use Prim.Native.Char.{Char, code}
use Prim.Native.String as Text
use Prim.Native.String.{String, ◌++◌, char_at}
use mathlib.Core.Path.{◌≡◌, refl, ap, ◌∙◌}
use mathlib.Core.Logic.{inl, inr}
use mathlib.Core.Bool.{false}
use native.Mathlib.Omega.{arith}
use text.Mathlib.TextLemmas.{cons-append, nil-append}
use opspilot_go_dev_kit.Prelude.Tests.{ltb, eqb, if◌then◌else◌, Bool-cases}
use opspilot_go_dev_kit.Prelude.Decimal.{decimal, write_digits, digit}

-- The number of the digits behind the last `-`, where `acc` is that of the digits read so far.
unfoldable pub number_from : ℕ → String → ℕ
number_from acc Text.[] = acc
number_from acc (Text.◌∷◌ c s) =
    let next = number_from (acc * 10 + (code c - 48)) s in
    let fresh = number_from 0 s in if eqb (code c) 45 then fresh else next

-- The number that an id ends in.
abbrev pub number_of : String → ℕ
number_of id = number_from 0 id

digit-code : (d : ℕ) → d < 10 → code (digit d) ≡ 48 + d
digit-code zero h = refl
digit-code (suc zero) h = refl
digit-code (suc (suc zero)) h = refl
digit-code (suc (suc (suc zero))) h = refl
digit-code (suc (suc (suc (suc zero)))) h = refl
digit-code (suc (suc (suc (suc (suc zero))))) h = refl
digit-code (suc (suc (suc (suc (suc (suc zero)))))) h = refl
digit-code (suc (suc (suc (suc (suc (suc (suc zero))))))) h = refl
digit-code (suc (suc (suc (suc (suc (suc (suc (suc zero)))))))) h = refl
digit-code (suc (suc (suc (suc (suc (suc (suc (suc (suc zero))))))))) h = refl
digit-code (suc (suc (suc (suc (suc (suc (suc (suc (suc (suc d)))))))))) h = absurd (omega arith)

number_from-digit :
    (acc d : ℕ) (s : String)
    → d < 10
    → number_from acc (Text.◌∷◌ (digit d) s) ≡ number_from (acc * 10 + d) s
unfolding number_from
number_from-digit acc d s h =
    let e = digit-code d h in
    let dash : eqb (code (digit d)) 45 ≡ false = ground arith in
    let value : acc * 10 + (code (digit d) - 48) ≡ acc * 10 + d = omega arith in
    rw (number_from, dash, value)

number_from-write_digits :
    (fuel n : ℕ) (tail : String)
    → n < fuel
    → number_from 0 (write_digits fuel n tail) ≡ number_from n tail
unfolding write_digits
number_from-write_digits zero n tail h = absurd (omega arith)
number_from-write_digits (suc fuel) n tail h = elim (Bool-cases (ltb n 10)) [
  | inl small ↦
      let zero_add : 0 * 10 + n ≡ n = omega arith in
      rw (write_digits, small)
        (number_from-digit 0 n tail (ground arith) ∙ ap (λ k. number_from k tail) zero_add)
  | inr large ↦
      let e : n / 10 * 10 + n % 10 ≡ n = omega arith in
      rw (write_digits, large)
        (number_from-write_digits fuel (n / 10) (Text.◌∷◌ (digit (n % 10)) tail) (ground arith)
          ∙ (number_from-digit (n / 10) (n % 10) tail (omega arith)
              ∙ ap (λ k. number_from k tail) e))
]

number_from-dash : (acc : ℕ) (s : String) → number_from acc ("-" ++ s) ≡ number_from 0 s
unfolding number_from
number_from-dash acc s =
    let dash : Char = char_at "-" 0 in
    let e : "-" ++ s ≡ Text.◌∷◌ dash s =
      cons-append dash "" s ∙ ap (λ r. Text.◌∷◌ dash r) (nil-append s) in
    rw e

number_from-append : (acc : ℕ) (p s : String) → number_from acc (p ++ ("-" ++ s)) ≡ number_from 0 s
unfolding number_from
number_from-append acc Text.[] s =
    ap (number_from acc) (nil-append ("-" ++ s)) ∙ number_from-dash acc s
number_from-append acc (Text.◌∷◌ c p) s = elim (Bool-cases (eqb (code c) 45)) [
  | inl dash ↦ rw (cons-append c p ("-" ++ s), number_from, dash) (number_from-append 0 p s)
  | inr other ↦
      rw (cons-append c p ("-" ++ s), number_from, other)
        (number_from-append (acc * 10 + (code c - 48)) p s)
]

-- The number of an id is the one that it was made with.
pub number_of-decimal : (p : String) (n : ℕ) → number_of (p ++ ("-" ++ decimal n)) ≡ n
unfolding decimal number_from
number_of-decimal p n =
    number_from-append 0 p (decimal n) ∙ number_from-write_digits (suc n) n "" (omega arith)
