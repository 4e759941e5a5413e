-- ===== src/Cases/Memory/Listing.antt =====
-- What a client of the case store's `List` sees: which rows, in which order, over how many pages
-- (internal/case/memory_store.go).
use opspilot_go_dev_kit.Prelude.{
  ℕ, zero, suc, ◌≡◌, ◌≢◌, inl, inr, refl, sym, ap, ◌∙◌, subst, Bool, false, not, List, [], ◌∷◌,
  ◌++◌, Permᴰ, ok, err, arith, length, keep, length-keep, keep-perm, perm-length, All, All-perm,
  All-keep, AllPairs, AllPairs-keep, if◌then◌else◌, Bool-cases,
}
use mathlib.Core.List.Permᴰ
use opspilot_go_dev_kit.Prelude.Dict.{values, values_distinct, KeyedBy}
use opspilot_go_dev_kit.Prelude.Sorting.{
  sort, insert, IsSorted, sort-perm, sort-IsSorted, Ordered, sort_of_perm,
}
use opspilot_go_dev_kit.Prelude.Paging.{
  pos, paginate, walk, walk_lem, page_limit, page_offset, page_limit-pos,
}
use opspilot_go_dev_kit.Cases.Types.{Case, ListFilter}
use opspilot_go_dev_kit.Cases.Order.{
  case_sorts_after, newer, newer-agrees, newer-order, newer_total, HasSuffix,
}
use opspilot_go_dev_kit.Cases.Memory.{MemoryStore, skips, listed, list}

module _ {ℓ} {A : Type ℓ} (P : A → Type 0) (f g : A → A → Bool)
    (agree : (x y : A) → P x → P y → f x y ≡ g x y) where
  insert_agree : (x : A) (xs : List A) → P x → All P xs → insert f x xs ≡ insert g x xs
  unfolding insert
  insert_agree x [] p h = refl
  insert_agree x (y ∷ ys) p h = elim (Bool-cases (g y x)) [
    | inl e ↦ rw (agree y x h.0 p ∙ e, e) (ap (λ r. y ∷ r) (insert_agree x ys p h.1))
    | inr e ↦ rw (agree y x h.0 p ∙ e, e)
  ]

  -- Two tests that agree on the elements sort them alike.
  pub sort_agree : (xs : List A) → All P xs → sort f xs ≡ sort g xs
  unfolding sort
  sort_agree [] h = refl
  sort_agree (x ∷ xs) h =
      insert_agree x (sort f xs) h.0 (All-perm P (Permᴰ.symm (sort-perm f xs)) h.1)
      ∙ ap (insert g x) (sort_agree xs h.1)

  IsSorted_head :
      (x : A) (xs : List A)
      → P x
      → All P xs
      → All (λ y. g y x ≡ false) xs
      → All (λ y. f y x ≡ false) xs
  IsSorted_head x [] p h k = tt
  IsSorted_head x (y ∷ ys) p h k = (agree y x h.0 p ∙ k.0, IsSorted_head x ys p h.1 k.1)

  pub IsSorted-agree : (xs : List A) → All P xs → IsSorted g xs → IsSorted f xs
  IsSorted-agree [] h k = tt
  IsSorted-agree (x ∷ xs) h k = (IsSorted_head x xs h.0 h.1 k.0, IsSorted-agree xs h.1 k.1)

abbrev pub Suffixed : MemoryStore → Type 0
Suffixed s = All HasSuffix (values s.records)

abbrev pub passing : ListFilter → MemoryStore → List Case
passing f s = keep (λ c. not (skips f c)) (values s.records)

passing-Suffixed : (f : ListFilter) (s : MemoryStore) → Suffixed s → All HasSuffix (passing f s)
passing-Suffixed f s h = All-keep HasSuffix (λ c. not (skips f c)) (values s.records) h

sort-newer : (cs : List Case) → All HasSuffix cs → sort case_sorts_after cs ≡ sort newer cs
sort-newer cs h = sort_agree HasSuffix case_sorts_after newer newer-agrees cs h

All-Ordered :
    (c : Case) (cs : List Case) → All (λ d. c.id ≢ d.id) cs → All (Ordered newer newer-order c) cs
All-Ordered c [] h = tt
All-Ordered c (d ∷ ds) h = (newer_total c d h.0, All-Ordered c ds h.1)

distinct-Ordered :
    (cs : List Case) → AllPairs (λ c d. c.id ≢ d.id) cs → AllPairs (Ordered newer newer-order) cs
distinct-Ordered [] h = tt
distinct-Ordered (c ∷ cs) h = (All-Ordered c cs h.0, distinct-Ordered cs h.1)

-- Where every id ends in a number, the page that `List` answers with does not depend on the order in
-- which Go ranges over the map: two stores that hold the same cases, each once and under its id, in
-- whatever order, answer alike.
pub list_of_perm :
    (f : ListFilter) (s s' : MemoryStore)
    → KeyedBy (λ c. c.id) s.records
    → Suffixed s
    → Permᴰ (values s.records) (values s'.records)
    → list f s ≡ list f s'
unfolding list
list_of_perm f s s' k h p =
    let q : Permᴰ (passing f s) (passing f s') = keep-perm (λ c. not (skips f c)) p in
    let h₁ = passing-Suffixed f s h in
    ap (λ rows. ok (paginate rows (page_limit f.limit) (page_offset f.offset)))
      (sort-newer (passing f s) h₁
        ∙ (sort_of_perm newer newer-order q (
              distinct-Ordered (passing f s) (
                AllPairs-keep (λ c d. c.id ≢ d.id) (λ c. not (skips f c)) (values s.records)
                  (values_distinct (λ c. c.id) s.records k)))
            ∙ sym (sort-newer (passing f s') (All-perm HasSuffix q h₁))))

-- A client that asks for page after page, each from the `NextOffset` of the one before, while `HasMore`.
pub case_rows : ℕ → ListFilter → MemoryStore → List Case
case_rows zero f s = []
case_rows (suc fuel) f s = elim (list f s) [
  | err _ ↦ []
  | ok page ↦
      let rest = case_rows fuel (record f { offset = pos page.next_offset }) s in
      if page.has_more then page.items ++ rest else page.items
]

case_rows-walk :
    (fuel : ℕ) (f : ListFilter) (s : MemoryStore)
    → case_rows fuel f s ≡ walk fuel (listed f s) (page_limit f.limit) (page_offset f.offset)
unfolding case_rows walk list page_offset skips
case_rows-walk zero f s = refl
case_rows-walk (suc fuel) f s =
    let page = paginate (listed f s) (page_limit f.limit) (page_offset f.offset) in
    elim (Bool-cases page.has_more) [
      | inl more ↦ rw more (
          ap (λ r. page.items ++ r)
            (case_rows-walk fuel (record f { offset = pos page.next_offset }) s))
      | inr done ↦ rw done
    ]

-- Where every id ends in a number: following `NextOffset` from offset 0 for at most one page more than
-- there are cases yields each case that passes the filter exactly once and no other, none before
-- another that `caseSortsAfter` puts first, whatever the limit.
pub list_pages :
    (f : ListFilter) (s : MemoryStore)
    → Suffixed s
    → f.offset ≡ pos 0
    → let rows = case_rows (suc (length (values s.records))) f s in
      Permᴰ rows (passing f s) × IsSorted case_sorts_after rows
unfolding listed page_offset
list_pages f s h first =
    let all = suc (length (values s.records)) in
    let h₁ = passing-Suffixed f s h in
    let e : case_rows all f s ≡ listed f s =
      case_rows-walk all f s
      ∙ (ap (λ o. walk all (listed f s) (page_limit f.limit) (page_offset o)) first
          ∙ walk_lem all (listed f s) (page_limit f.limit) 0 (page_limit-pos f.limit)
              (omega (
                arith,
                perm-length (sort-perm case_sorts_after (passing f s)),
                length-keep (λ c. not (skips f c)) (values s.records),
              ))
              (omega arith)) in
    (
      subst (λ r. Permᴰ r (passing f s)) (sym e) (sort-perm case_sorts_after (passing f s)),
      subst (IsSorted case_sorts_after) (sym e) (
          IsSorted-agree HasSuffix case_sorts_after newer newer-agrees (listed f s)
            (All-perm HasSuffix (Permᴰ.symm (sort-perm case_sorts_after (passing f s))) h₁)
            (subst (IsSorted newer) (sym (sort-newer (passing f s) h₁))
              (sort-IsSorted newer newer-order (passing f s)))),
    )
