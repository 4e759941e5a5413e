-- ===== src/Eval/Services/Listing/Pages.antt =====
-- The page that the listing by follow-up cases comes to (internal/eval/service.go).
use opspilot_go_dev_kit.Prelude.{
  ℕ, ◌+◌, ◌-◌, ◌<◌, ◌≤◌, suc, ◌≡◌, ◌⊎◌, inl, inr, refl, sym, ap, ◌∙◌, Bool, true, false, List, [],
  ◌∷◌, ◌++◌, arith, if◌then◌else◌, ltb, length, take, drop, keep, take-nil, drop-nil, ltb→lt,
  length-append, Bool-cases,
}
use opspilot_go_dev_kit.Prelude.Paging.{ℤ, pos}
use opspilot_go_dev_kit.Eval.Types.{EvalCase}
use opspilot_go_dev_kit.Eval.Services.Listing.{
  ListPage, Scan, last_page, is_match, is_before, scan_items,
}

-- What a scan comes to where nothing follows.
abbrev pub finish : ListPage ⊎ Scan → ListPage
finish (inl page) = page
finish (inr scan) = last_page scan

abbrev pub then_scan : ListPage ⊎ Scan → (Scan → ListPage ⊎ Scan) → ListPage ⊎ Scan
then_scan (inl page) next = inl page
then_scan (inr scan) next = next scan

pub scan_items-append :
    (needed : Bool) (limit : ℕ) (offset : ℤ) (xs ys : List EvalCase) (scan : Scan)
    → scan_items needed limit offset (xs ++ ys) scan
      ≡ then_scan (scan_items needed limit offset xs scan) (scan_items needed limit offset ys)
unfolding scan_items
scan_items-append needed limit offset [] ys scan = refl
scan_items-append needed limit offset (x ∷ xs) ys scan = elim (Bool-cases (is_match needed x)) [
  | inr e ↦ rw (e, scan_items) (scan_items-append needed limit offset xs ys scan)
  | inl e ↦ elim (Bool-cases (is_before scan.matched_count offset)) [
    | inl f ↦
        rw (e, scan_items, f)
          (scan_items-append needed limit offset xs ys
            (record scan { matched_count = scan.matched_count + 1 }))
    | inr f ↦ elim (Bool-cases (ltb (length scan.collected) limit)) [
      | inl g ↦
          rw (e, scan_items, f, g)
            (scan_items-append needed limit offset xs ys (record {
              collected = scan.collected ++ x ∷ [];
              matched_count = scan.matched_count + 1;
            }))
      | inr g ↦ rw (e, scan_items, f, g)
    ]
  ]
]

-- A page of `limit` at most of `total` items.
abbrev page_with : ℕ → ℕ → List EvalCase → ℕ → ListPage
page_with limit o items total = record {
  eval_cases = items;
  has_more = ltb limit total;
  next_offset = pos (if ltb limit total then o + limit else 0);
}

-- The page with offset `o` of the items, where those in `done` are collected.
abbrev page_of : ℕ → ℕ → List EvalCase → List EvalCase → ListPage
page_of limit o done items =
    page_with limit o (done ++ take (limit - length done) items) (length done + length items)

same_page :
    (limit o : ℕ) {xs ys : List EvalCase} {m n : ℕ}
    → xs ≡ ys
    → m ≡ n
    → page_with limit o xs m ≡ page_with limit o ys n
same_page limit o {xs} {ys} {m} {n} e f =
    ap (λ zs. page_with limit o zs m) e ∙ ap (page_with limit o ys) f

append-nil : (xs : List EvalCase) → xs ++ [] ≡ xs
append-nil [] = refl
append-nil (x ∷ xs) = ap (λ r. x ∷ r) (append-nil xs)

snoc-append : (xs ys : List EvalCase) (x : EvalCase) → (xs ++ x ∷ []) ++ ys ≡ xs ++ x ∷ ys
snoc-append [] ys x = refl
snoc-append (y ∷ xs) ys x = ap (λ r. y ∷ r) (snoc-append xs ys x)

page_of-nil :
    (limit o m : ℕ) (done : List EvalCase)
    → length done ≤ limit
    → last_page (record { collected = done; matched_count = m }) ≡ page_of limit o done []
page_of-nil limit o m done h =
    let few : ltb limit (length done + 0) ≡ false = ground arith in
    let nothing : done ++ take (limit - length done) [] ≡ done =
      ap (λ r. done ++ r) (take-nil (limit - length done)) ∙ append-nil done in
    rw (few, nothing)

page_of-snoc :
    (limit o : ℕ) (x : EvalCase) (done items : List EvalCase)
    → length done < limit
    → page_of limit o (done ++ x ∷ []) items ≡ page_of limit o done (x ∷ items)
page_of-snoc limit o x done items h =
    let one : length (done ++ x ∷ []) ≡ length done + 1 = length-append done (x ∷ []) in
    let room : limit - length done ≡ suc (limit - length (done ++ x ∷ [])) = omega (arith, one) in
    same_page limit o
      (snoc-append done (take (limit - length (done ++ x ∷ [])) items) x
        ∙ sym (ap (λ k. done ++ take k (x ∷ items)) room))
      (omega (arith, one))

page_of_full :
    (limit o : ℕ) (done : List EvalCase) (x : EvalCase) (items : List EvalCase)
    → length done ≡ limit
    → record { eval_cases = done; has_more = true; next_offset = pos (o + length done) }
      ≡ page_of limit o done (x ∷ items)
page_of_full limit o done x items h =
    let none_left : limit - length done ≡ 0 = omega arith in
    let more : ltb limit (length done + suc (length items)) ≡ true = ground arith in
    rw (none_left, more, append-nil done)
      (ap (λ k. record { eval_cases = done; has_more = true; next_offset = pos (o + k) }) h)

collecting :
    (needed : Bool) (limit o m : ℕ) (done items : List EvalCase)
    → length done ≤ limit
    → o ≤ m
    → finish
        (scan_items needed limit (pos o) items (record { collected = done; matched_count = m }))
      ≡ page_of limit o done (keep (is_match needed) items)
unfolding scan_items keep
collecting needed limit o m done [] h k = page_of-nil limit o m done h
collecting needed limit o m done (x ∷ xs) h k = elim (Bool-cases (is_match needed x)) [
  | inr e ↦ rw (e, scan_items) (collecting needed limit o m done xs h k)
  | inl e ↦
      let past : ltb m o ≡ false = ground arith in
      elim (Bool-cases (ltb (length done) limit)) [
        | inl g ↦
            rw (e, scan_items, past, g)
              (collecting needed limit o (m + 1) (done ++ x ∷ []) xs
                  (omega (arith, length-append done (x ∷ []), ltb→lt (length done) limit g))
                  (omega arith)
                ∙ page_of-snoc limit o x done (keep (is_match needed) xs) (ltb→lt _ _ g))
        | inr g ↦
            rw (e, scan_items, past, g)
              (page_of_full limit o done x (keep (is_match needed) xs) (ground arith))
      ]
]

skipping :
    (needed : Bool) (limit o m : ℕ) (items : List EvalCase)
    → m ≤ o
    → finish (scan_items needed limit (pos o) items (record { collected = []; matched_count = m }))
      ≡ page_of limit o [] (drop (o - m) (keep (is_match needed) items))
unfolding scan_items keep
skipping needed limit o m [] h =
    page_of-nil limit o m [] (omega arith) ∙ ap (page_of limit o []) (sym (drop-nil (o - m)))
skipping needed limit o m (x ∷ xs) h = elim (Bool-cases (ltb m o)) [
  | inr reached ↦
      let e : o - m ≡ 0 = ground arith in
      rw e (collecting needed limit o m [] (x ∷ xs) (omega arith) (ground arith))
  | inl before ↦ elim (Bool-cases (is_match needed x)) [
    | inr e ↦ rw (e, scan_items) (skipping needed limit o m xs h)
    | inl e ↦
        let more : o - m ≡ suc (o - (m + 1)) = ground arith in
        rw (e, scan_items, before, more) (skipping needed limit o (m + 1) xs (ground arith))
  ]
]

-- The page of the matching items, as `limit` and `offset` ask for it.
abbrev pub page_at : ℕ → ℕ → List EvalCase → ListPage
page_at limit o items = page_with limit o (take limit (drop o items)) (length (drop o items))

abbrev pub start_scan : Scan
start_scan = record { collected = []; matched_count = 0 }

pub scan_items-page_at :
    (needed : Bool) (limit o : ℕ) (items : List EvalCase)
    → finish (scan_items needed limit (pos o) items start_scan)
      ≡ page_at limit o (keep (is_match needed) items)
scan_items-page_at needed limit o items =
    let ys = drop o (keep (is_match needed) items) in
    let from_zero : o - 0 ≡ o = omega arith in
    let all_room : limit - 0 ≡ limit = omega arith in
    skipping needed limit o 0 items (omega arith)
    ∙ (ap (λ k. page_of limit o [] (drop k (keep (is_match needed) items))) from_zero
        ∙ same_page limit o (ap (λ k. take k ys) all_room) (omega arith))
