-- ===== src/Cases/Order.antt =====
-- internal/case/order.go: which of two cases a listing shows first, and the order that this test is
-- where every id ends in a number.
use opspilot_go_dev_kit.Prelude.{
  ℕ, ◌+◌, ◌-◌, ◌*◌, ◌^◌, String, ◌≡◌, ◌≢◌, inl, inr, Bool, ◌&&◌, Option, none, some, arith, ◌==◌,
  ltb, leb, eqb, str_lt, if◌then◌else◌,
}
use Prim.Native.String as Text
use Prim.Native.String.{len}
use Prim.Native.Char.{code}
use opspilot_go_dev_kit.Prelude.Strings.{last_index, from}
use opspilot_go_dev_kit.Prelude.TextOrder.{str_lt_asym, str_lt_cotrans, str_lt_total}
use opspilot_go_dev_kit.Prelude.Sorting.{WeakOrder, Ordered}
use opspilot_go_dev_kit.Cases.Types.{Case}

-- The digits of `s` read after those that gave `acc`.
abbrev pub read_digits : ℕ → String → Option ℕ
read_digits acc Text.[] = some acc
read_digits acc (Text.◌∷◌ c s) =
    let rest = read_digits (acc * 10 + (code c - 48)) s in
    if leb 48 (code c) && leb (code c) 57 then rest else none

abbrev in_uint64 : Option ℕ → Option ℕ
in_uint64 none = none
in_uint64 (some n) = if ltb n (2 ^ 64) then some n else none

-- `strconv.ParseUint(s, 10, 64)`, where none is its error: a syntax error or a number out of range.
abbrev pub parse_uint : String → Option ℕ
parse_uint s = if s == "" then none else in_uint64 (read_digits 0 s)

unfoldable pub case_id_numeric_suffix : String → Option ℕ
unfolding last_index
case_id_numeric_suffix id = elim (last_index id "-") [
  | none ↦ none
  | some last_dash ↦
      if eqb (last_dash + 1) (len id) then none else parse_uint (from (last_dash + 1) id)
]

-- The comparison of the ids, the suffixes of which are given.
abbrev id_after : Option ℕ → Option ℕ → String → String → Bool
id_after (some m) (some n) l r = if eqb m n then str_lt r l else ltb n m
id_after (some m) none l r = str_lt r l
id_after none n l r = str_lt r l

unfoldable pub case_sorts_after : Case → Case → Bool
unfolding case_id_numeric_suffix
case_sorts_after left right =
    if eqb left.updated_at right.updated_at
    then (if eqb left.created_at right.created_at
        then id_after (case_id_numeric_suffix left.id) (case_id_numeric_suffix right.id) left.id
            right.id
        else ltb right.created_at left.created_at)
    else ltb right.updated_at left.updated_at

-- The id ends in a number of 64 bits, as those of `newCaseID` do.
abbrev pub HasSuffix : Case → Type 0
HasSuffix c = (n : ℕ) × (case_id_numeric_suffix c.id ≡ some n)

suffix_or_zero : Option ℕ → ℕ
suffix_or_zero none = 0
suffix_or_zero (some n) = n

-- The order that `case_sorts_after` is on ids with a number: an id without counts as number 0.
unfoldable pub newer : Case → Case → Bool
unfolding suffix_or_zero
newer left right =
    if eqb left.updated_at right.updated_at
    then (if eqb left.created_at right.created_at
        then (let m = suffix_or_zero (case_id_numeric_suffix left.id) in
            let n = suffix_or_zero (case_id_numeric_suffix right.id) in
            if eqb m n then str_lt right.id left.id else ltb n m)
        else ltb right.created_at left.created_at)
    else ltb right.updated_at left.updated_at

pub newer-agrees : (c d : Case) → HasSuffix c → HasSuffix d → case_sorts_after c d ≡ newer c d
unfolding case_sorts_after newer suffix_or_zero
newer-agrees c d (m, e) (n, f) = rw (e, f, case_sorts_after, newer)

pub newer-order : WeakOrder newer
unfolding newer
newer-order = record {
  asym = λ x y h. ground (arith, str_lt_asym y.id x.id);
  cotrans = λ x y z h k. ground (arith, str_lt_cotrans z.id y.id x.id);
}

pub newer_total : (c d : Case) → c.id ≢ d.id → Ordered newer newer-order c d
unfolding newer
newer_total c d n = elim (str_lt_total c.id d.id) [
  | inl lt ↦ ground arith
  | inr rest ↦ elim rest [ inl gt ↦ ground arith | inr same ↦ absurd (n same) ]
]
