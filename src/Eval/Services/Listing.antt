-- ===== src/Eval/Services/Listing.antt =====
-- internal/eval/service.go: the listing of the evaluation cases, by their follow-up cases too. The loop over
-- the pages of the store has no bound in the code: here it runs on fuel.
pub mod Pages
pub mod Turns
pub mod FollowUp
use opspilot_go_dev_kit.Prelude.{
  ℕ, ◌+◌, ◌-◌, zero, suc, String, Bool, true, false, not, Option, none, some, List, [], ◌∷◌, ◌++◌,
  Result, ok, err, if◌then◌else◌, ltb, leb, bool_eq, length, ◌⊎◌, inl, inr,
}
use opspilot_go_dev_kit.Prelude.Paging.{Page, ℤ, pos, negsuc, page_limit}
use opspilot_go_dev_kit.Eval.Types.{EvalCase, ListFilter, EvalError}
use opspilot_go_dev_kit.Eval.Store.{Store}
use opspilot_go_dev_kit.Eval.Store.Cases.{list}
use opspilot_go_dev_kit.Eval.Services.{Evals}
use opspilot_go_dev_kit.Eval.Services.Cases.{Summarizer, apply_follow_up_summaries}

-- `ListPage`. The offset that the caller sends may be negative, and then the next one too.
pub record ListPage : Type 0 where
  pub eval_cases : List EvalCase
  pub has_more : Bool
  pub next_offset : ℤ

-- `out_of_fuel` is no behaviour of the code.
pub data Outcome : Type 0 where
  returned : Result EvalError ListPage → Outcome
  panicked : Outcome
  out_of_fuel : Outcome

-- The sum of an int and a length.
abbrev pub plus_length : ℤ → ℕ → ℤ
plus_length (pos m) n = pos (m + n)
plus_length (negsuc m) n = if leb n m then negsuc (m - n) else pos (n - (m + 1))

-- `matchedCount < filter.Offset`
abbrev pub is_before : ℕ → ℤ → Bool
is_before n (pos m) = ltb n m
is_before n (negsuc m) = false

-- `hasOpenFollowUp == *filter.NeedsFollowUp`
abbrev pub is_match : Bool → EvalCase → Bool
is_match needed item = bool_eq (ltb 0 item.open_follow_up_case_count) needed

-- The page collected so far, and `matchedCount`.
pub record Scan : Type 0 where
  pub collected : List EvalCase
  pub matched_count : ℕ

abbrev pub last_page : Scan → ListPage
last_page scan = record { eval_cases = scan.collected; has_more = false; next_offset = pos 0 }

-- The loop over the items of one raw page: the page that it returns, or the state behind it.
unfoldable pub scan_items : Bool → ℕ → ℤ → List EvalCase → Scan → ListPage ⊎ Scan
scan_items needed limit offset [] scan = inr scan
scan_items needed limit offset (item ∷ items) scan =
    let skipped = scan_items needed limit offset items scan in
    let counted =
      scan_items needed limit offset items
        (record scan { matched_count = scan.matched_count + 1 }) in
    let taken = scan_items needed limit offset items (record {
      collected = scan.collected ++ item ∷ [];
      matched_count = scan.matched_count + 1;
    }) in
    if not (is_match needed item)
    then skipped
    else if is_before scan.matched_count offset
    then counted
    else if ltb (length scan.collected) limit
    then taken
    else inl (record {
      eval_cases = scan.collected;
      has_more = true;
      next_offset = plus_length offset (length scan.collected);
    })

-- The rest of the loop's body, behind the scan of one page.
abbrev pub after_scan : Bool → (Scan → Outcome) → ListPage ⊎ Scan → Outcome
after_scan has_more next (inl page) = returned (ok page)
after_scan has_more next (inr scan) =
    let rest = next scan in if has_more then rest else returned (ok (last_page scan))

abbrev pub is_empty : List EvalCase → Bool
is_empty [] = true
is_empty (_ ∷ _) = false

module _ (summaries : Option Summarizer) (needed : Bool) (limit : ℕ) (offset : ℤ)
    (base : ListFilter) (s : Store) where
  unfoldable pub follow_up_loop : ℕ → ℕ → Scan → Outcome
  unfolding list apply_follow_up_summaries scan_items
  follow_up_loop zero raw_offset scan = out_of_fuel
  follow_up_loop (suc fuel) raw_offset scan =
      elim (list (record base { offset = pos raw_offset }) s) [
        | none ↦ panicked
        | some raw ↦
            if is_empty raw.items
            then returned (ok (last_page scan))
            else elim (apply_follow_up_summaries summaries raw.items) [
              | err e ↦ returned (err e)
              | ok enriched ↦
                  after_scan raw.has_more (follow_up_loop fuel raw.next_offset)
                    (scan_items needed limit offset enriched scan)
            ]
      ]

-- `if batchSize < 20 { batchSize = 20 }`
abbrev pub batch_size : ℕ → ℕ
batch_size limit = if ltb limit 20 then 20 else limit

abbrev pub base_filter : ℕ → ListFilter → ListFilter
base_filter limit f = record f {
  needs_follow_up = none;
  offset = pos 0;
  limit = pos (batch_size limit);
}

abbrev pub of_page : Page EvalCase → List EvalCase → ListPage
of_page page items = record {
  eval_cases = items;
  has_more = page.has_more;
  next_offset = pos page.next_offset;
}

abbrev enriched_page : Page EvalCase → Result EvalError (List EvalCase) → Result EvalError ListPage
enriched_page page (err e) = err e
enriched_page page (ok items) = ok (of_page page items)

unfoldable pub list_eval_cases : ℕ → Option Summarizer → ListFilter → Evals → Outcome
unfolding list apply_follow_up_summaries follow_up_loop
list_eval_cases fuel summaries f s =
    let limit = page_limit f.limit in
    elim f.needs_follow_up [
      | some needed ↦
          follow_up_loop summaries needed limit f.offset (base_filter limit f) s.store fuel 0
            (record { collected = []; matched_count = 0 })
      | none ↦ elim (list (record f { limit = pos limit }) s.store) [
        | none ↦ panicked
        | some page ↦ returned (enriched_page page (apply_follow_up_summaries summaries page.items))
      ]
    ]
