-- ===== src/Eval/Services/Listing/FollowUp.antt =====
-- The listing of the evaluation cases by whether a follow-up case is open (internal/eval/service.go).
use opspilot_go_dev_kit.Prelude.{
  ℕ, ◌+◌, ◌<◌, ◌^◌, String, ◌≡◌, ◌≢◌, refl, sym, ap, ◌∙◌, subst, Bool, true, ◌&&◌, not, some, List,
  [], ◌∷◌, map, ok, ◌==◌, eq_iff, arith, length, keep, All, All-imp, All-perm, All-zip, keep_passes,
}
use mathlib.Core.List.Permᴰ
use opspilot_go_dev_kit.Prelude.Dict.{Dict, find, values}
use opspilot_go_dev_kit.Prelude.Sorting.{sort-perm}
use opspilot_go_dev_kit.Prelude.Paging.{pos, page_limit}
use opspilot_go_dev_kit.Cases.Types.{FollowUpSummary}
use opspilot_go_dev_kit.Eval.Types.{EvalCase, ListFilter}
use opspilot_go_dev_kit.Eval.Store.{Store}
use opspilot_go_dev_kit.Eval.Store.Cases.{listed, skips, is_newer}
use opspilot_go_dev_kit.Eval.Services.{Evals}
use opspilot_go_dev_kit.Eval.Services.Cases.{
  Summarizer, apply_follow_up_summaries, summarized, summary_ids, with_summary,
}
use opspilot_go_dev_kit.Eval.Services.Listing.{
  returned, is_match, list_eval_cases, base_filter, batch_size,
}
use opspilot_go_dev_kit.Eval.Services.Listing.Pages.{page_at, start_scan, scan_items-page_at}
use opspilot_go_dev_kit.Eval.Services.Listing.Turns.{loop-finish}

-- What the service expects of its summaries: the summary of a case does not depend on what else is asked
-- for. `of_case` gives the summary by the tenant and the id.
pub record Summarizes (summarize : Summarizer) (of_case : String → String → FollowUpSummary)
    : Type 0 where
  pub answers :
      (tenant_id : String) (ids : List String)
      → All (λ id. id ≢ "") ids
      → (m : Dict FollowUpSummary) × (summarize tenant_id ids ≡ ok m)
        × All (λ id. find id m ≡ some (of_case tenant_id id)) ids

-- The case with the summary of its follow-up cases.
abbrev pub followed : (String → String → FollowUpSummary) → EvalCase → EvalCase
followed of_case item =
    let summary = of_case item.tenant_id item.id in
    record item {
      follow_up_case_count = summary.follow_up_case_count;
      open_follow_up_case_count = summary.open_follow_up_case_count;
      latest_follow_up_case_id = summary.latest_follow_up_case_id;
      latest_follow_up_case_status = summary.latest_follow_up_case_status;
    }

-- A case of the tenant that has an id.
abbrev Known : String → EvalCase → Type 0
Known tenant_id c = (c.tenant_id ≡ tenant_id) × (c.id ≢ "")

module _ (summarize : Summarizer) (of_case : String → String → FollowUpSummary)
    (laws : Summarizes summarize of_case) where
  with_summary-followed :
      (m : Dict FollowUpSummary) (c : EvalCase)
      → find c.id m ≡ some (of_case c.tenant_id c.id)
      → with_summary m c ≡ followed of_case c
  unfolding with_summary
  with_summary-followed m c e = rw e

  -- Every case of the tenant is asked for.
  All-asked :
      (t : String) (items : List EvalCase)
      → All (Known t) items
      → summary_ids t items ≡ map (λ c. c.id) items
  unfolding summary_ids keep
  All-asked t [] h = refl
  All-asked t (c ∷ items) h =
      let test : (not (c.id == "") && c.tenant_id == t) ≡ true =
        ground (arith, eq_iff c.id "", eq_iff c.tenant_id t, h.0.0, h.0.1) in
      rw (summary_ids, test) (ap (λ ids. c.id ∷ ids) (All-asked t items h.1))

  map-followed :
      (t : String) (m : Dict FollowUpSummary) (items : List EvalCase)
      → All (Known t) items
      → All (λ id. find id m ≡ some (of_case t id)) (map (λ c. c.id) items)
      → map (with_summary m) items ≡ map (followed of_case) items
  map-followed t m [] h f = refl
  map-followed t m (c ∷ items) h f =
      let found : find c.id m ≡ some (of_case c.tenant_id c.id) =
        f.0 ∙ ap (λ u. some (of_case u c.id)) (sym h.0.0) in
      ap (λ d. d ∷ map (with_summary m) items) (with_summary-followed m c found)
      ∙ ap (λ ds. followed of_case c ∷ ds) (map-followed t m items h.1 f.1)

  have_ids :
      (t : String) (items : List EvalCase)
      → All (Known t) items
      → All (λ id. id ≢ "") (map (λ c. c.id) items)
  have_ids t [] h = tt
  have_ids t (c ∷ items) h = (h.0.1, have_ids t items h.1)

  enriches :
      (t : String) (items : List EvalCase)
      → All (Known t) items
      → apply_follow_up_summaries (some summarize) items ≡ ok (map (followed of_case) items)
  unfolding apply_follow_up_summaries
  enriches t [] h = refl
  enriches t (c ∷ items) h =
      let items' = c ∷ items in
      let (m, e, f) = laws.answers t (map (λ d. d.id) items') (have_ids t items' h) in
      ap (λ u. summarized summarize u (summary_ids u items') items') h.0.0
      ∙ (ap (λ ids. summarized summarize t ids items') (All-asked t items' h)
          ∙ rw (summarized, e) (ap ok (map-followed t m items' h f)))

-- The rows of a listing for a tenant are of the tenant.
rows-Known :
    (f : ListFilter) (s : Store)
    → f.tenant_id ≢ ""
    → All (λ c. c.id ≢ "") (listed f s)
    → All (Known f.tenant_id) (listed f s)
unfolding listed skips
rows-Known f s n ids =
    let rows = keep (λ c. not (skips f c)) (values s.by_id) in
    let of_tenant : All (λ c. c.tenant_id ≡ f.tenant_id) rows =
      All-imp (λ c. not (skips f c) ≡ true) (λ c. c.tenant_id ≡ f.tenant_id) rows
        (λ c h. ground (arith, eq_iff f.tenant_id "", eq_iff c.tenant_id f.tenant_id))
        (keep_passes (λ c. not (skips f c)) (values s.by_id)) in
    All-zip (λ c. c.tenant_id ≡ f.tenant_id) (λ c. c.id ≢ "") (listed f s)
      (All-perm (λ c. c.tenant_id ≡ f.tenant_id) (Permᴰ.symm (sort-perm is_newer rows)) of_tenant)
      ids

some_batch : (limit : ℕ) → 0 < batch_size limit
some_batch limit = ground arith

plus_zero : (n : ℕ) → n + 0 ≡ n
plus_zero n = omega arith

positive : (m n : ℕ) → m < n → 0 < n
positive m n h = omega arith

-- The listing by follow-up cases of a tenant returns, once the fuel exceeds the number of rows, and it
-- returns the page with the limit and the offset asked for of those rows, the newest first, that have an
-- open follow-up case or have none, as asked, each with its summary. The rows have ids, their number
-- and the limit fit an int, and the summaries do not depend on what else is asked for.
pub list_eval_cases-page_at :
    (summarize : Summarizer) (of_case : String → String → FollowUpSummary)
    (laws : Summarizes summarize of_case) (f : ListFilter) (s : Evals) (needed : Bool) (o fuel : ℕ)
    → f.needs_follow_up ≡ some needed
    → f.offset ≡ pos o
    → f.tenant_id ≢ ""
    → All (λ c. c.id ≢ "") (listed f s.store)
    → length (listed f s.store) + batch_size (page_limit f.limit) < 2 ^ 63
    → length (listed f s.store) < fuel
    → list_eval_cases fuel (some summarize) f s
      ≡ returned (
          ok (
            page_at
              (page_limit f.limit)
              o
              (keep (is_match needed) (map (followed of_case) (listed f s.store)))))
unfolding list_eval_cases
list_eval_cases-page_at summarize of_case laws f s needed o fuel e g n ids small enough =
    let limit = page_limit f.limit in
    let base = base_filter limit f in
    let known : All (Known f.tenant_id) (listed base s.store) = rows-Known f s.store n ids in
    let some_rows : 0 < batch_size limit = some_batch limit in
    let enough' : length (listed base s.store) < fuel + 0 =
      subst (λ k. length (listed f s.store) < k) (sym (plus_zero fuel)) enough in
    rw (e, list_eval_cases, g)
      (loop-finish (some summarize) needed limit o base s.store (batch_size limit)
          (followed of_case) (Known f.tenant_id) refl some_rows
          (enriches summarize of_case laws f.tenant_id) known small fuel 0 start_scan enough'
          (positive _ fuel enough)
        ∙ ap (λ page. returned (ok page))
            (scan_items-page_at needed limit o (map (followed of_case) (listed base s.store))))
