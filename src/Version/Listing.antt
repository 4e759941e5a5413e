-- ===== src/Version/Listing.antt =====
-- The pages of versions (internal/version).
use opspilot_go_dev_kit.Prelude.{
  ℕ, zero, suc, ◌≡◌, inl, inr, refl, sym, ap, ◌∙◌, subst, some, List, [], ◌++◌, Permᴰ, Result, ok,
  err, arith, length, perm-length, if◌then◌else◌, Bool-cases,
}
use opspilot_go_dev_kit.Prelude.TextOrder.{str_lt_asym, str_lt_cotrans}
use opspilot_go_dev_kit.Prelude.Dict.{find, values}
use opspilot_go_dev_kit.Prelude.Sorting.{WeakOrder, IsSorted, sort-perm, sort-IsSorted}
use opspilot_go_dev_kit.Prelude.Paging.{
  ℤ, pos, negsuc, Page, paginate, walk, walk_lem, page_limit, page_offset, page_limit-pos,
}
use opspilot_go_dev_kit.Version.{
  Version, VersionError, VersionListFilter, VersionStore, default_version_id, version_before,
  version_rows, stored_versions, with_limit, listed_after, list_versions, ensure_current_version,
}
use opspilot_go_dev_kit.Version.Current.{ensured, ensure_stable}

version_before-order : WeakOrder version_before
unfolding version_before
version_before-order = record {
  asym = λ x y h. ground (arith, str_lt_asym y.id x.id);
  cotrans = λ x y z h k. ground (arith, str_lt_cotrans z.id y.id x.id);
}

-- A client that asks for page after page, each from the `NextOffset` of the one before, while `HasMore`.
pub version_pages : ℕ → VersionListFilter → VersionStore → List Version
version_pages zero f s = []
version_pages (suc fuel) f s =
    let (r, s') = list_versions f s in
    elim r [
      | err _ ↦ []
      | ok page ↦
          let rest = version_pages fuel (record f { offset = pos page.next_offset }) s' in
          if page.has_more then page.items ++ rest else page.items
    ]

with_limit-same : (l : ℤ) → page_limit (with_limit l) ≡ page_limit l
unfolding page_limit
with_limit-same (pos zero) = refl
with_limit-same (pos (suc n)) = refl
with_limit-same (negsuc n) = refl

-- A listing where the built-in version is there already.
list_versions-stable :
    (f : VersionListFilter) (s : VersionStore) (v : Version)
    → find default_version_id s.versions ≡ some v
    → list_versions f s
      ≡ (ok (paginate (version_rows s) (page_limit f.limit) (page_offset f.offset)), s)
unfolding list_versions stored_versions
list_versions-stable f s v e =
    rw (list_versions, ensure_stable s v e)
      (ap (λ n. (ok (paginate (version_rows s) n (page_offset f.offset)), s))
        (with_limit-same f.limit))

version_pages-walk :
    (fuel : ℕ) (f : VersionListFilter) (s : VersionStore) (v : Version)
    → find default_version_id s.versions ≡ some v
    → version_pages fuel f s
      ≡ walk fuel (version_rows s) (page_limit f.limit) (page_offset f.offset)
unfolding version_pages walk page_offset
version_pages-walk zero f s v e = refl
version_pages-walk (suc fuel) f s v e =
    let page = paginate (version_rows s) (page_limit f.limit) (page_offset f.offset) in
    rw (version_pages, list_versions-stable f s v e)
      (elim (Bool-cases page.has_more) [
        | inl more ↦ rw more (
            ap
              (λ t. page.items ++ version_pages fuel (record f { offset = pos page.next_offset }) t)
              (ap (λ p. p.1) (list_versions-stable f s v e))
            ∙ ap (λ r. page.items ++ r)
                (version_pages-walk fuel (record f { offset = pos page.next_offset }) s v e))
        | inr done ↦ rw done
      ])

-- The first listing leaves the store with the built-in version.
list_versions-ensured :
    (f : VersionListFilter) (s : VersionStore)
    → list_versions f s ≡ list_versions f (ensure_current_version s).1
unfolding list_versions
list_versions-ensured f s =
    let (v, got, there, _) = ensured s in
    let s' = (ensure_current_version s).1 in
    ap (λ r. listed_after f (r, s')) got ∙ sym (ap (listed_after f) (ensure_stable s' v there))

version_pages-ensured :
    (fuel : ℕ) (f : VersionListFilter) (s : VersionStore)
    → version_pages fuel f s ≡ version_pages fuel f (ensure_current_version s).1
unfolding version_pages
version_pages-ensured zero f s = refl
version_pages-ensured (suc fuel) f s =
    ap
      (λ (p : Result VersionError (Page Version) × VersionStore). elim p.0 [
        | err _ ↦ []
        | ok page ↦
            if page.has_more
            then page.items ++ version_pages fuel (record f { offset = pos page.next_offset }) p.1
            else page.items
      ])
      (list_versions-ensured f s)

-- Following `NextOffset` over `ListVersions` from offset 0, on a store with or without the built-in version,
-- for at most one page more than there are versions with it: each version that is then stored comes exactly
-- once, the built-in one among them, the newest first, then the greatest id, whatever the limit.
pub list_versions_pages :
    (f : VersionListFilter) (s : VersionStore)
    → f.offset ≡ pos 0
    → let s' = (ensure_current_version s).1 in
      let rows = version_pages (suc (length (values s'.versions))) f s in
      ((v : Version) × (find default_version_id s'.versions ≡ some v))
      × Permᴰ rows (values s'.versions)
      × IsSorted version_before rows
unfolding version_rows page_offset
list_versions_pages f s first =
    let s' = (ensure_current_version s).1 in
    let (v, got, there, _) = ensured s in
    let all = suc (length (values s'.versions)) in
    let e : version_pages all f s ≡ version_rows s' =
      version_pages-ensured all f s
      ∙ (version_pages-walk all f s' v there
          ∙ (ap (λ o. walk all (version_rows s') (page_limit f.limit) (page_offset o)) first
              ∙ walk_lem all (version_rows s') (page_limit f.limit) 0 (page_limit-pos f.limit)
                  (omega (arith, perm-length (sort-perm version_before (values s'.versions))))
                  (omega arith))) in
    (
      (v, there),
      subst (λ r. Permᴰ r (values s'.versions)) (sym e)
          (sort-perm version_before (values s'.versions)),
      subst (IsSorted version_before) (sym e)
          (sort-IsSorted version_before version_before-order (values s'.versions)),
    )
