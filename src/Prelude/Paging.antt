-- ===== src/Prelude/Paging.antt =====
-- The page that every list endpoint cuts from its ordered rows, and the walk over a listing by
-- `NextOffset`. `limit` and `offset` are Go `int`s that callers may send negative: here they are
-- integers, and the code's guards on them are `page_limit` and `page_offset`.
use Prim.Native.Nat.{ℕ, zero, suc, ◌+◌, ◌-◌, ◌<◌}
use mathlib.Core.Path.{◌≡◌, sym, ap, ◌∙◌}
use mathlib.Core.Logic.{inl, inr}
use mathlib.Core.Bool.{Bool, true, false}
use mathlib.Core.List.{List, [], ◌++◌}
use native.Mathlib.Omega.{arith}
use opspilot_go_dev_kit.Prelude.Tests.{ltb, leb, if◌then◌else◌, Bool-cases, leb→le}
use opspilot_go_dev_kit.Prelude.Lists.{
  length, take, drop, take_all, take-nil, take-append-drop, drop-drop, drop_all, length-drop,
}

-- `negsuc n` is -(n + 1).
pub data ℤ : Type 0 where
  pos : ℕ → ℤ
  negsuc : ℕ → ℤ

-- `limit := filter.Limit; if limit <= 0 { limit = 20 }`
unfoldable pub page_limit : ℤ → ℕ
page_limit (pos zero) = 20
page_limit (pos (suc n)) = suc n
page_limit (negsuc n) = 20

-- `offset := filter.Offset; if offset < 0 { offset = 0 }`
unfoldable pub page_offset : ℤ → ℕ
page_offset (pos n) = n
page_offset (negsuc n) = 0

pub page_limit-pos : (l : ℤ) → 0 < page_limit l
unfolding page_limit
page_limit-pos (pos zero) = omega arith
page_limit-pos (pos (suc n)) = omega arith
page_limit-pos (negsuc n) = omega arith

pub record Page {ℓ} (A : Type ℓ) : Type ℓ where
  pub items : List A
  pub has_more : Bool
  pub next_offset : ℕ

module _ {ℓ} {A : Type ℓ} where
  -- The tail of each `List` method, from `if offset >= len(out)`.
  unfoldable pub paginate : List A → ℕ → ℕ → Page A
  paginate xs limit offset =
      if leb (length xs) offset
      then record { items = []; has_more = false; next_offset = 0 }
      else (let end = offset + limit in
          let more = ltb end (length xs) in
          record {
            items = take (if more then limit else length xs - offset) (drop offset xs);
            has_more = more;
            next_offset = if more then end else 0;
          })

  -- A client that follows `NextOffset` while `HasMore`, for at most `fuel` pages.
  unfoldable pub walk : ℕ → List A → ℕ → ℕ → List A
  walk zero xs limit offset = []
  walk (suc fuel) xs limit offset =
      let page = paginate xs limit offset in
      let rest = walk fuel xs limit page.next_offset in
      if page.has_more then page.items ++ rest else page.items

  -- A page holds the rows from its offset on, at most `limit` of them.
  pub paginate-items :
      (xs : List A) (limit offset : ℕ)
      → (paginate xs limit offset).items ≡ take limit (drop offset xs)
  unfolding paginate
  paginate-items xs limit offset = elim (Bool-cases (leb (length xs) offset)) [
    | inl out ↦ rw (out, drop_all offset xs (leb→le _ _ out), take-nil limit)
    | inr within ↦ elim (Bool-cases (ltb (offset + limit) (length xs))) [
      | inl more ↦ rw (within, more)
      | inr last ↦
          rw (within, last)
            (take_all (length xs - offset) (drop offset xs)
                (omega (arith, length-drop {ℓ} offset xs))
              ∙ sym (take_all limit (drop offset xs) (ground (arith, length-drop offset xs))))
    ]
  ]

  pub paginate-has_more :
      (xs : List A) (limit offset : ℕ)
      → 0 < limit
      → (paginate xs limit offset).has_more ≡ ltb (offset + limit) (length xs)
  unfolding paginate
  paginate-has_more xs limit offset p = ground arith

  pub paginate-next_offset :
      (xs : List A) (limit offset : ℕ)
      → (paginate xs limit offset).has_more ≡ true
      → (paginate xs limit offset).next_offset ≡ offset + limit
  unfolding paginate
  paginate-next_offset xs limit offset h = ground arith

  last_page :
      (xs : List A) (limit offset : ℕ)
      → ltb (offset + limit) (length xs) ≡ false
      → take limit (drop offset xs) ≡ drop offset xs
  last_page xs limit offset h =
      take_all limit (drop offset xs) (ground (arith, length-drop offset xs))

  -- Following `NextOffset` from an offset yields every row from there on, once and in order.
  pub walk_lem :
      (fuel : ℕ) (xs : List A) (limit offset : ℕ)
      → 0 < limit
      → length xs < fuel + offset
      → 0 < fuel
      → walk fuel xs limit offset ≡ drop offset xs
  unfolding walk
  walk_lem zero xs limit offset p h f = absurd (omega arith)
  walk_lem (suc fuel) xs limit offset p h f = elim (Bool-cases (ltb (offset + limit) (length xs))) [
    | inl more ↦
        let e : (paginate xs limit offset).has_more ≡ true =
          paginate-has_more xs limit offset p ∙ more in
        rw (e, paginate-items xs limit offset, paginate-next_offset xs limit offset e)
          (ap (λ r. take limit (drop offset xs) ++ r)
              (walk_lem fuel xs limit (offset + limit) p (omega arith) (ground arith)
                ∙ sym (drop-drop offset limit xs))
            ∙ take-append-drop limit (drop offset xs))
    | inr done ↦
        rw (paginate-has_more xs limit offset p ∙ done, paginate-items xs limit offset)
          (last_page xs limit offset done)
  ]
