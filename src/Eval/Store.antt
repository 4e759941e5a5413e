-- ===== src/Eval/Store.antt =====
-- internal/eval/memory_store.go: the store in memory of the evaluation services, and how its listings cut
-- a page. A method holds the store's mutex from its first line to its return, so it is one step here.
pub mod Cases
pub mod Datasets
pub mod Runs
pub mod Claims
pub mod Reports
use opspilot_go_dev_kit.Prelude.{
  ℕ, ◌+◌, ◌^◌, ◌<◌, String, ◌≡◌, inl, inr, refl, Bool, true, false, Option, none, some, List, [],
  arith, ltb, leb, min, if◌then◌else◌, length, take, drop, drop_all, take_all, length-drop, leb→le,
  ap, sym, ◌∙◌, ◌-◌, Bool-cases,
}
use opspilot_go_dev_kit.Prelude.Dict.{Dict}
use opspilot_go_dev_kit.Prelude.Paging.{ℤ, pos, negsuc, Page, paginate}
use opspilot_go_dev_kit.Eval.Types.{
  EvalCase, EvalDataset, EvalRun, RunEvent, Item, ItemResult, EvalReport,
}

pub record Store : Type 0 where
  pub by_id : Dict EvalCase
  pub by_source_case : Dict String
  pub datasets : Dict EvalDataset
  pub runs : Dict EvalRun
  pub run_events : Dict (List RunEvent)
  pub run_items : Dict (List Item)
  pub run_item_results : Dict (List ItemResult)
  pub eval_reports : Dict EvalReport
  pub next_run_event : ℕ

unfoldable pub new_store : Store
new_store = record {
  by_id = [];
  by_source_case = [];
  datasets = [];
  runs = [];
  run_events = [];
  run_items = [];
  run_item_results = [];
  eval_reports = [];
  next_run_event = 0;
}

module _ {ℓ} {A : Type ℓ} where
  -- The end of each listing, from `start := filter.Offset`. None is a panic: the bounds of
  -- `items[start:end]` are out of order where the offset or the limit is negative, and where
  -- `start + limit` exceeds an int of 64 bits and so is negative.
  unfoldable pub cut_page : List A → ℤ → ℤ → Option (Page A)
  cut_page xs (pos limit) (pos offset) =
      let start = min offset (length xs) in
      let end = start + limit in
      let rest = drop start xs in
      if leb (2 ^ 63) end
      then none
      else some (
          if ltb end (length xs)
          then record { items = take limit rest; has_more = true; next_offset = end }
          else record { items = rest; has_more = false; next_offset = 0 })
  cut_page xs (pos limit) (negsuc offset) = none
  cut_page xs (negsuc limit) offset = none

  drop-min : (n : ℕ) (xs : List A) → drop (min n (length xs)) xs ≡ drop n xs
  drop-min n xs = elim (Bool-cases (leb (length xs) n)) [
    | inl out ↦
        let e : min n (length xs) ≡ length xs = ground arith in
        rw (e, drop_all (length xs) xs (omega arith), drop_all n xs (leb→le _ _ out))
    | inr within ↦ let e : min n (length xs) ≡ n = ground arith in rw e
  ]

  -- Where nothing overflows, the page is the one of the other listings.
  pub cut_page-paginate :
      (xs : List A) (limit offset : ℕ)
      → 0 < limit
      → min offset (length xs) + limit < 2 ^ 63
      → cut_page xs (pos limit) (pos offset) ≡ some (paginate xs limit offset)
  unfolding cut_page paginate
  cut_page-paginate xs limit offset p h =
      let small : leb (2 ^ 63) (min offset (length xs) + limit) ≡ false = ground arith in
      elim (Bool-cases (leb (length xs) offset)) [
        | inl out ↦
            let e : min offset (length xs) ≡ length xs = ground arith in
            let last : ltb (length xs + limit) (length xs) ≡ false = ground arith in
            rw small (rw (e, last, out, drop_all (length xs) xs (omega arith)) refl)
        | inr within ↦
            let e : min offset (length xs) ≡ offset = ground arith in
            elim (Bool-cases (ltb (offset + limit) (length xs))) [
              | inl more ↦ rw small (rw (e, more, within) refl)
              | inr last ↦ rw small (
                  rw (e, last, within)
                    (ap (λ r. some (record { items = r; has_more = false; next_offset = 0 }))
                      (sym (
                        take_all (length xs - offset) (drop offset xs)
                          (omega (arith, length-drop {ℓ} offset xs))))))
            ]
      ]
