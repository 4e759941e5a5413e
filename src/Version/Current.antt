-- ===== src/Version/Current.antt =====
-- The built-in version and its reads (internal/version/service.go).
use opspilot_go_dev_kit.Prelude.{
  String, ◌≡◌, ◌≢◌, true, false, is_some, or_else, inl, inr, ap, ◌∙◌, Option, none, some, Result,
  ok, err, Option-cases,
}
use opspilot_go_dev_kit.Prelude.Dict.{
  find, find-put_self, find-put_ne, find_key, KeyedBy, put-KeyedBy,
}
use opspilot_go_dev_kit.Version.{
  Version, VersionStore, VersionError, version_not_found, default_version, default_version_id,
  save_version, stored_version, ensure_current_version, get_version, current_version_id, id_of,
}

abbrev pub IsKeyed : VersionStore → Type 0
IsKeyed s = KeyedBy (λ v. v.id) s.versions

-- What `ensureCurrentVersion` answers and leaves.
pub ensured :
    (s : VersionStore)
    → (v : Version) × ((ensure_current_version s).0 ≡ ok v)
      × (find default_version_id (ensure_current_version s).1.versions ≡ some v)
      × (or_else (find default_version_id s.versions) default_version ≡ v)
unfolding ensure_current_version stored_version save_version default_version
ensured s = elim (Option-cases (find default_version_id s.versions)) [
  | inr (v, e) ↦ (v, rw (ensure_current_version, e), rw (ensure_current_version, e) e, rw e)
  | inl e ↦ (
    default_version,
    rw (ensure_current_version, e),
    rw (ensure_current_version, e) (find-put_self default_version_id default_version s.versions),
    rw e,
  )
]

-- Once the version is there, reading it changes nothing.
pub ensure_stable :
    (s : VersionStore) (v : Version)
    → find default_version_id s.versions ≡ some v
    → ensure_current_version s ≡ (ok v, s)
unfolding ensure_current_version stored_version
ensure_stable s v e = rw (ensure_current_version, e)

ensure-IsKeyed : (s : VersionStore) → IsKeyed s → IsKeyed (ensure_current_version s).1
unfolding ensure_current_version stored_version save_version default_version
ensure-IsKeyed s k = elim (Option-cases (find default_version_id s.versions)) [
  | inr (v, e) ↦ rw (ensure_current_version, e) k
  | inl e ↦ rw (ensure_current_version, e) (put-KeyedBy (λ v. v.id) default_version s.versions k)
]

ensure_others :
    (s : VersionStore) (id : String)
    → default_version_id ≢ id
    → stored_version id (ensure_current_version s).1 ≡ stored_version id s
unfolding ensure_current_version stored_version save_version default_version
ensure_others s id ne = elim (Option-cases (find default_version_id s.versions)) [
  | inr (v, e) ↦ rw (ensure_current_version, e)
  | inl e ↦
      rw (ensure_current_version, e)
        (ap
          (λ (o : Option Version). elim o [
            | none ↦ err (version_not_found id)
            | some item ↦ ok item
          ])
          (find-put_ne default_version_id id default_version s.versions ne))
]

id_of-ok :
    (r : Result VersionError Version × VersionStore) (v : Version)
    → r.0 ≡ ok v
    → (id_of r).0 ≡ ok v.id
id_of-ok (ok item, s) v h = (let e : item ≡ v = cc in ap (λ x. ok x.id) e)
id_of-ok (err x, s) v h = absurd (cc)

-- `GetVersion` of the built-in version never fails: it gives the version that the store has under the
-- built-in id, or the built-in one where there is none, and leaves it stored under that id. A second
-- read gives the same and changes nothing, as does the first where the version was there, and every
-- other version stays as it is. Where each version stands under its id, `CurrentVersionID` answers
-- with the built-in id.
pub get_version_default :
    (s : VersionStore)
    → let (r, s') = get_version default_version_id s in
      let v = or_else (find default_version_id s.versions) default_version in
      (r ≡ ok v)
      × (find default_version_id s'.versions ≡ some v)
      × (get_version default_version_id s' ≡ (ok v, s'))
      × (is_some (find default_version_id s.versions) ≡ true → s' ≡ s)
      × ((id : String) → default_version_id ≢ id → stored_version id s' ≡ stored_version id s)
      × (IsKeyed s → (current_version_id s).0 ≡ ok default_version_id)
unfolding get_version current_version_id
get_version_default s =
    let (v, got, there, v_eq) = ensured s in
    let s' = (ensure_current_version s).1 in
    rw v_eq (
      got,
      there,
      ensure_stable s' v there,
      kept s,
      ensure_others s,
      λ k.
          (id_of-ok (ensure_current_version s) v got
            ∙ ap ok (
                find_key (λ v. v.id) default_version_id v s'.versions (ensure-IsKeyed s k).0
                  there)),
    )
  where
    kept :
        (s : VersionStore)
        → is_some (find default_version_id s.versions) ≡ true
        → (ensure_current_version s).1 ≡ s
    kept s h = elim (Option-cases (find default_version_id s.versions)) [
      | inl e ↦ absurd (let x : false ≡ true = (rw e at h) in cc)
      | inr (v, e) ↦ ap (λ x. x.1) (ensure_stable s v e)
    ]
