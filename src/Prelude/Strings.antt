-- ===== src/Prelude/Strings.antt =====
-- What the source uses of Go's package strings. A position counts bytes.
-- `to_lower` maps every character whose lower case is ASCII (the letters A to Z, U+0130 and U+212A) and
-- leaves the others: its result is only searched for ASCII texts, and no other character lowers to ASCII.
use Prim.Native.Nat.{ℕ, ◌+◌, ◌-◌}
use Prim.Native.Char.{Char, code, len_utf8}
use Prim.Native.String as Text
use Prim.Native.String.{String, len, slice, char_at}
use mathlib.Core.Path.{◌≡◌, refl}
use mathlib.Core.Bool.{Bool, true, ◌&&◌, ◌||◌}
use mathlib.Core.Option.{Option, none, some}
use text.Mathlib.Text.{starts_with, find?}
use opspilot_go_dev_kit.Prelude.Tests.{leb, eqb, is_some, if◌then◌else◌}

-- strings.Contains
abbrev pub contains : String → String → Bool
contains s sub = is_some (find? s sub)

-- strings.LastIndex
unfoldable pub last_index : String → String → Option ℕ
last_index Text.[] sub = if starts_with "" sub then some 0 else none
last_index (Text.◌∷◌ c s) sub = elim (last_index s sub) [
  | some i ↦ some (i + len_utf8 c)
  | none ↦ if starts_with (Text.◌∷◌ c s) sub then some 0 else none
]

-- s[i:]
abbrev pub from : ℕ → String → String
from i s = slice s i (len s)

-- unicode.IsSpace
abbrev is_space_code : ℕ → Bool
is_space_code n =
    (leb 9 n && leb n 13)
    || eqb n 32
    || eqb n 0x85
    || eqb n 0xa0
    || eqb n 0x1680
    || (leb 0x2000 n && leb n 0x200a)
    || eqb n 0x2028
    || eqb n 0x2029
    || eqb n 0x202f
    || eqb n 0x205f
    || eqb n 0x3000

unfoldable pub trim_left : String → String
trim_left Text.[] = ""
trim_left (Text.◌∷◌ c s) =
    let rest = trim_left s in if is_space_code (code c) then rest else Text.◌∷◌ c s

abbrev push_unless_last_space : Bool → Char → String → String
push_unless_last_space true c Text.[] = ""
push_unless_last_space _ c r = Text.◌∷◌ c r

-- A space is dropped where nothing but spaces follows it.
unfoldable pub trim_right : String → String
trim_right Text.[] = ""
trim_right (Text.◌∷◌ c s) = push_unless_last_space (is_space_code (code c)) c (trim_right s)

-- strings.TrimSpace
unfoldable pub trim_space : String → String
unfolding trim_left trim_right
trim_space s = trim_right (trim_left s)

abbrev lower_char : Char → Char
lower_char c =
    if leb b'A' (code c) && leb (code c) b'Z'
    then char_at "abcdefghijklmnopqrstuvwxyz" (code c - b'A')
    else if eqb (code c) 0x130
    then "i"
    else if eqb (code c) 0x212a
    then "k"
    else c

-- strings.ToLower
unfoldable pub to_lower : String → String
to_lower Text.[] = ""
to_lower (Text.◌∷◌ c s) = Text.◌∷◌ (lower_char c) (to_lower s)

trim_space_test : trim_space " a b  " ≡ "a b"
unfolding trim_space
trim_space_test = refl

to_lower_test : to_lower "Ticket-42 É" ≡ "ticket-42 É"
unfolding to_lower
to_lower_test = refl

last_index_test : last_index "a): b): c" "): " ≡ some 5
unfolding last_index
last_index_test = refl
