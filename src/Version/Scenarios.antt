-- ===== src/Version/Scenarios.antt =====
-- The version service on concrete stores (internal/version), and its theorems at work.
use opspilot_go_dev_kit.Prelude.{
  true, is_some, or_else, String, ◌≡◌, ◌≢◌, refl, suc, some, [], ◌∷◌, Permᴰ, ok, err, length,
}
use opspilot_go_dev_kit.Prelude.Dict.{find, values}
use opspilot_go_dev_kit.Prelude.Sorting.{IsSorted}
use opspilot_go_dev_kit.Prelude.Paging.{pos}
use opspilot_go_dev_kit.Version.{
  Version, VersionListFilter, VersionStore, new_version_store, default_version, default_version_id,
  version_before, get_version, stored_version, current_version_id, ensure_current_version,
  save_version,
}
use opspilot_go_dev_kit.Version
use opspilot_go_dev_kit.Version.Current.{get_version_default, IsKeyed}
use opspilot_go_dev_kit.Version.Listing.{version_pages, list_versions_pages}

abbrev one_version : VersionStore
one_version = record {
  versions = ("version-1", record default_version { id = "version-1"; created_at = 5 }) ∷ [];
}

get_version_test :
    get_version "version-2" one_version ≡ (err (Version.version_not_found "version-2"), one_version)
unfolding get_version stored_version find
get_version_test = refl

get_version_default_example :
    let (r, s') = get_version default_version_id one_version in
    let v = or_else (find default_version_id one_version.versions) default_version in
    (r ≡ ok v)
    × (find default_version_id s'.versions ≡ some v)
    × (get_version default_version_id s' ≡ (ok v, s'))
    × (is_some (find default_version_id one_version.versions) ≡ true → s' ≡ one_version)
    × ((id : String)
        → default_version_id ≢ id
        → stored_version id s' ≡ stored_version id one_version)
    × (IsKeyed one_version → (current_version_id one_version).0 ≡ ok default_version_id)
get_version_default_example = get_version_default one_version

abbrev one_by_one : VersionListFilter
one_by_one = record { limit = pos 1; offset = pos 0 }

list_versions_pages_example :
    let s' = (ensure_current_version one_version).1 in
    let rows = version_pages (suc (length (values s'.versions))) one_by_one one_version in
    ((v : Version) × (find default_version_id s'.versions ≡ some v))
    × Permᴰ rows (values s'.versions)
    × IsSorted version_before rows
list_versions_pages_example = list_versions_pages one_by_one one_version refl
