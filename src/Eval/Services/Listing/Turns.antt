-- ===== src/Eval/Services/Listing/Turns.antt =====
-- The loop over the pages of the store (internal/eval/service.go): its turns, and how many it takes.
use opspilot_go_dev_kit.Prelude.{
  ℕ, ◌+◌, ◌<◌, ◌^◌, zero, suc, ◌≡◌, ◌⊎◌, inl, inr, refl, sym, ap, ◌∙◌, Bool, true, false, Option,
  some, List, [], ◌∷◌, ◌++◌, map, ok, arith, ltb, leb, length, take, drop, take_all, take-nil,
  drop_all, take-append-drop, drop-drop, length-drop, length-take, All, All-take, All-drop,
  Bool-cases, leb→le,
}
use opspilot_go_dev_kit.Prelude.Paging.{
  Page, pos, paginate, paginate-items, paginate-has_more, paginate-next_offset,
}
use opspilot_go_dev_kit.Eval.Types.{EvalCase, ListFilter}
use opspilot_go_dev_kit.Eval.Store.{Store, cut_page, cut_page-paginate}
use opspilot_go_dev_kit.Eval.Store.Cases.{list, listed}
use opspilot_go_dev_kit.Eval.Services.Cases.{Summarizer, apply_follow_up_summaries}
use opspilot_go_dev_kit.Eval.Services.Listing.{
  ListPage, Outcome, returned, Scan, is_empty, scan_items, after_scan, follow_up_loop,
}
use opspilot_go_dev_kit.Eval.Services.Listing.Pages.{finish, then_scan, scan_items-append}

is_empty-length : (xs : List EvalCase) → 0 < length xs → is_empty xs ≡ false
is_empty-length [] h = absurd (omega arith)
is_empty-length (x ∷ xs) h = refl

map-append :
    (f : EvalCase → EvalCase) (xs ys : List EvalCase) → map f (xs ++ ys) ≡ map f xs ++ map f ys
map-append f [] ys = refl
map-append f (x ∷ xs) ys = ap (λ r. f x ∷ r) (map-append f xs ys)

after_scan_last :
    (next : Scan → Outcome) (scanned : ListPage ⊎ Scan)
    → after_scan false next scanned ≡ returned (ok (finish scanned))
after_scan_last next (inl page) = refl
after_scan_last next (inr scan) = refl

after_scan_more :
    (next : Scan → Outcome) (rest : Scan → ListPage ⊎ Scan) (scanned : ListPage ⊎ Scan)
    → ((scan : Scan) → next scan ≡ returned (ok (finish (rest scan))))
    → after_scan true next scanned ≡ returned (ok (finish (then_scan scanned rest)))
after_scan_more next rest (inl page) h = refl
after_scan_more next rest (inr scan) h = h scan

module _ (summaries : Option Summarizer) (needed : Bool) (limit o : ℕ) (base : ListFilter)
    (s : Store) (batch : ℕ) (enrich : EvalCase → EvalCase) (Known : EvalCase → Type 0)
    (asks : base.limit ≡ pos batch) (some_batch : 0 < batch)
    (enriches : (xs : List EvalCase)
      → All Known xs
      → apply_follow_up_summaries summaries xs ≡ ok (map enrich xs))
    (known : All Known (listed base s)) (small : length (listed base s) + batch < 2 ^ 63) where
  abbrev rows : List EvalCase
  rows = listed base s

  abbrev raw_page : ℕ → Page EvalCase
  raw_page r = paginate rows batch r

  raw_list : (r : ℕ) → list (record base { offset = pos r }) s ≡ some (raw_page r)
  unfolding list
  raw_list r =
      ap (λ l. cut_page rows l (pos r)) asks
      ∙ cut_page-paginate rows batch r some_batch (omega (arith, small))

  abbrev loop : ℕ → ℕ → Scan → Outcome
  loop fuel r scan = follow_up_loop summaries needed limit (pos o) base s fuel r scan

  abbrev scan_rest : ℕ → Scan → ListPage ⊎ Scan
  scan_rest r scan = scan_items needed limit (pos o) (map enrich (drop r rows)) scan

  abbrev raw_items : ℕ → List EvalCase
  raw_items r = take batch (drop r rows)

  past_end :
      (fuel r : ℕ) (scan : Scan)
      → leb (length rows) r ≡ true
      → loop (suc fuel) r scan ≡ returned (ok (finish (scan_rest r scan)))
  unfolding follow_up_loop scan_items
  past_end fuel r scan out =
      let nothing : drop r rows ≡ [] = drop_all r rows (leb→le _ _ out) in
      rw (raw_list r, follow_up_loop, paginate-items rows batch r, nothing, take-nil batch)

  -- One turn of the loop.
  one_turn :
      (fuel r : ℕ) (scan : Scan)
      → leb (length rows) r ≡ false
      → loop (suc fuel) r scan
        ≡ after_scan
            (raw_page r).has_more
            (loop fuel (raw_page r).next_offset)
            (scan_items needed limit (pos o) (map enrich (raw_items r)) scan)
  unfolding follow_up_loop
  one_turn fuel r scan within =
      let some_items : is_empty (raw_items r) ≡ false =
        is_empty-length (raw_items r)
          (ground (arith, length-take batch (drop r rows), length-drop r rows)) in
      let enriched =
        enriches (raw_items r) (All-take Known batch (drop r rows) (All-drop Known r rows known)) in
      rw (raw_list r, follow_up_loop, paginate-items rows batch r, some_items, enriched)

  split_rest :
      (r : ℕ) (scan : Scan)
      → scan_rest r scan
        ≡ then_scan
            (scan_items needed limit (pos o) (map enrich (raw_items r)) scan)
            (scan_rest (r + batch))
  split_rest r scan =
      let halves : drop r rows ≡ raw_items r ++ drop (r + batch) rows =
        sym (take-append-drop batch (drop r rows))
        ∙ ap (λ ys. raw_items r ++ ys) (drop-drop r batch rows) in
      ap (λ xs. scan_items needed limit (pos o) xs scan)
        (ap (map enrich) halves ∙ map-append enrich (raw_items r) (drop (r + batch) rows))
      ∙ scan_items-append needed limit (pos o) (map enrich (raw_items r))
          (map enrich (drop (r + batch) rows)) scan

  pub loop-finish :
      (fuel r : ℕ) (scan : Scan)
      → length rows < fuel + r
      → 0 < fuel
      → loop fuel r scan ≡ returned (ok (finish (scan_rest r scan)))
  loop-finish zero r scan h p = absurd (omega arith)
  loop-finish (suc fuel) r scan h p = elim (Bool-cases (leb (length rows) r)) [
    | inl out ↦ past_end fuel r scan out
    | inr within ↦ elim (Bool-cases (ltb (r + batch) (length rows))) [
      | inl more ↦
          let e : (raw_page r).has_more ≡ true = paginate-has_more rows batch r some_batch ∙ more in
          one_turn fuel r scan within
          ∙ (rw (e, paginate-next_offset rows batch r e)
                (after_scan_more (loop fuel (r + batch)) (scan_rest (r + batch))
                  (scan_items needed limit (pos o) (map enrich (raw_items r)) scan)
                  (λ scan'. loop-finish fuel (r + batch) scan' (omega arith) (ground arith)))
              ∙ ap (λ x. returned (ok (finish x))) (sym (split_rest r scan)))
      | inr last ↦
          let e : (raw_page r).has_more ≡ false =
            paginate-has_more rows batch r some_batch ∙ last in
          let all : raw_items r ≡ drop r rows =
            take_all batch (drop r rows) (ground (arith, length-drop r rows)) in
          one_turn fuel r scan within
          ∙ (rw (e, all) (after_scan_last (loop fuel (raw_page r).next_offset) (scan_rest r scan)))
    ]
  ]
