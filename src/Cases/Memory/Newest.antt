-- ===== src/Cases/Memory/Newest.antt =====
-- The loop of `FindOpenByCompareOrigin` beside the order of the listing
-- (internal/case/memory_store.go).
use opspilot_go_dev_kit.Prelude.{
  String, ◌≡◌, inl, inr, refl, sym, ap, ◌∙◌, Bool, Option, none, some, List, [], ◌∷◌, ok, arith,
  keep, All, All-keep, if◌then◌else◌, Bool-cases,
}
use opspilot_go_dev_kit.Prelude.Dict.{values}
use opspilot_go_dev_kit.Prelude.Sorting.{sort, insert, WeakOrder}
use opspilot_go_dev_kit.Cases.Types.{Case, CompareOrigin}
use opspilot_go_dev_kit.Cases.Order.{case_sorts_after, newer, newer-agrees, newer-order, HasSuffix}
use opspilot_go_dev_kit.Cases.Memory.{
  MemoryStore, find_open_by_compare_origin, is_open_for_origin, latest_where,
}
use opspilot_go_dev_kit.Cases.Memory.Listing.{Suffixed, sort_agree}

abbrev pub first_row : List Case → Option Case
first_row [] = none
first_row (c ∷ _) = some c

-- The first of a case and the head of a list.
abbrev front : Case → Option Case → Case
front c none = c
front c (some d) = if newer d c then d else c

first_row-insert :
    (c : Case) (cs : List Case) → first_row (insert newer c cs) ≡ some (front c (first_row cs))
unfolding insert
first_row-insert c [] = refl
first_row-insert c (d ∷ ds) = ground arith

front-front :
    (w : WeakOrder newer) (l c : Case) (h : Option Case)
    → front (if newer c l then c else l) h ≡ front l (some (front c h))
front-front w l c none = refl
front-front w l c (some d) = ground (
  arith,
  w.asym c l,
  w.asym l c,
  w.asym d c,
  w.asym c d,
  w.asym d l,
  w.asym l d,
  w.cotrans l c d,
  w.cotrans c l d,
  w.cotrans l d c,
  w.cotrans d l c,
  w.cotrans c d l,
  w.cotrans d c l,
)

latest_where-some :
    (p : Case → Bool) (l : Case) (cs : List Case)
    → HasSuffix l
    → All HasSuffix cs
    → latest_where p (some l) cs ≡ some (front l (first_row (sort newer (keep p cs))))
unfolding keep sort
latest_where-some p l [] k h = refl
latest_where-some p l (c ∷ cs) k h = elim (Bool-cases (p c)) [
  | inr miss ↦ rw miss (latest_where-some p l cs k h.1)
  | inl hit ↦ elim (Bool-cases (newer c l)) [
    | inl e ↦
        rw (hit, newer-agrees c l h.0 k ∙ e)
          (latest_where-some p c cs h.0 h.1
            ∙ (ap some (
                  ap (λ b. front (if b then c else l) (first_row (sort newer (keep p cs)))) (sym e)
                  ∙ front-front newer-order l c (first_row (sort newer (keep p cs))))
                ∙ ap (λ h. some (front l h)) (sym (first_row-insert c (sort newer (keep p cs))))))
    | inr e ↦
        rw (hit, newer-agrees c l h.0 k ∙ e)
          (latest_where-some p l cs k h.1
            ∙ (ap some (
                  ap (λ b. front (if b then c else l) (first_row (sort newer (keep p cs)))) (sym e)
                  ∙ front-front newer-order l c (first_row (sort newer (keep p cs))))
                ∙ ap (λ h. some (front l h)) (sym (first_row-insert c (sort newer (keep p cs))))))
  ]
]

latest_where-none :
    (p : Case → Bool) (cs : List Case)
    → All HasSuffix cs
    → latest_where p none cs ≡ first_row (sort newer (keep p cs))
unfolding keep sort
latest_where-none p [] h = refl
latest_where-none p (c ∷ cs) h = elim (Bool-cases (p c)) [
  | inl hit ↦
      rw hit (latest_where-some p c cs h.0 h.1 ∙ sym (first_row-insert c (sort newer (keep p cs))))
  | inr miss ↦ rw miss (latest_where-none p cs h.1)
]

-- Where every id ends in a number, the one case that `FindOpenByCompareOrigin` keeps in its loop is the
-- first of the open cases of the tenant, report and origin in the order of the listing, and there is
-- none just when no case is one of these.
pub find_open_by_compare_origin-first :
    (tenant_id report_id : String) (o : CompareOrigin) (s : MemoryStore)
    → Suffixed s
    → find_open_by_compare_origin tenant_id report_id o s
      ≡ ok (
          first_row (
            sort case_sorts_after
              (keep (is_open_for_origin tenant_id report_id o) (values s.records))))
unfolding find_open_by_compare_origin
find_open_by_compare_origin-first tenant_id report_id o s h =
    let p = is_open_for_origin tenant_id report_id o in
    ap ok (
      latest_where-none p (values s.records) h
      ∙ ap first_row (
          sym (
            sort_agree HasSuffix case_sorts_after newer newer-agrees (keep p (values s.records))
              (All-keep HasSuffix p (values s.records) h))))
