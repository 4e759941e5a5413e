-- ===== src/Prelude/Json.antt =====
-- How Go's encoding/json writes a string: the quotes, the backslash, the control characters, `<`, `>`,
-- `&` and the line separators U+2028 and U+2029 are escaped.
use Prim.Native.Nat.{ℕ, ◌+◌, ◌/◌, ◌%◌}
use Prim.Native.Char.{code}
use Prim.Native.String as Text
use Prim.Native.String.{String, slice, ◌++◌}
use mathlib.Core.Bool.{Bool, ◌||◌}
use opspilot_go_dev_kit.Prelude.Tests.{ltb, eqb, if◌then◌else◌}

abbrev hex_digit : ℕ → String
hex_digit n = slice "0123456789abcdef" n (n + 1)

-- `\u` and four digits.
abbrev unicode_escape : ℕ → String
unicode_escape n =
    "\\u"
    ++ hex_digit (n / 4096 % 16)
    ++ hex_digit (n / 256 % 16)
    ++ hex_digit (n / 16 % 16)
    ++ hex_digit (n % 16)

abbrev is_unicode_escaped : ℕ → Bool
is_unicode_escaped n =
    ltb n 32 || eqb n 0x3c || eqb n 0x3e || eqb n 0x26 || eqb n 0x2028 || eqb n 0x2029

-- One character, given also as a text.
abbrev escaped : ℕ → String → String
escaped n c =
    if eqb n 0x22
    then "\\\""
    else if eqb n 0x5c
    then "\\\\"
    else if eqb n 8
    then "\\b"
    else if eqb n 12
    then "\\f"
    else if eqb n 10
    then "\\n"
    else if eqb n 13
    then "\\r"
    else if eqb n 9
    then "\\t"
    else if is_unicode_escaped n
    then unicode_escape n
    else c

unfoldable pub escape : String → String
escape Text.[] = ""
escape (Text.◌∷◌ c s) = escaped (code c) (Text.◌∷◌ c Text.[]) ++ escape s

unfoldable pub json_string : String → String
unfolding escape
json_string s = "\"" ++ escape s ++ "\""
