-- ===== src/Prelude/Decimal.antt =====
-- `%d` of fmt and strconv.ParseUint, for numbers in base 10.
use Prim.Native.Nat.{ℕ, zero, suc, ◌/◌, ◌%◌}
use Prim.Native.Char.{Char}
use Prim.Native.String as Text
use Prim.Native.String.{String, char_at}
use mathlib.Core.Path.{◌≡◌, refl}
use opspilot_go_dev_kit.Prelude.Tests.{ltb, if◌then◌else◌}

-- The character of a digit below 10.
abbrev pub digit : ℕ → Char
digit d = char_at "0123456789" d

-- The digits of `n`, written in front of `tail`.
unfoldable pub write_digits : ℕ → ℕ → String → String
write_digits zero n tail = tail
write_digits (suc fuel) n tail =
    let rest = write_digits fuel (n / 10) (Text.◌∷◌ (digit (n % 10)) tail) in
    if ltb n 10 then Text.◌∷◌ (digit n) tail else rest

-- `%d`: a number has fewer digits than n + 1, so the fuel is enough.
unfoldable pub decimal : ℕ → String
unfolding write_digits
decimal n = write_digits (suc n) n ""

decimal_test : decimal 1774310400123 ≡ "1774310400123"
unfolding decimal
decimal_test = refl
