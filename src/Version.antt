-- ===== src/Version.antt =====
-- internal/version: the versions of the runtime, from service.go over the store of memory_store.go, which
-- `NewService` gives it. A method of the store holds its mutex throughout.
pub mod Current
pub mod Listing
mod Scenarios
use opspilot_go_dev_kit.Prelude.{
  ℕ, zero, suc, String, Bool, true, false, Option, none, some, List, [], ◌∷◌, Result, ok, err,
  if◌then◌else◌, ◌==◌, ltb, eqb, str_lt,
}
use opspilot_go_dev_kit.Prelude.Dict.{Dict, find, put, values}
use opspilot_go_dev_kit.Prelude.Sorting.{sort}
use opspilot_go_dev_kit.Prelude.Paging.{ℤ, pos, negsuc, Page, paginate, page_limit, page_offset}

abbrev pub default_version_id : String
default_version_id = "version-skeleton-2026-03-24"

-- Times are nanoseconds since year 1.
pub record Version : Type 0 where
  pub id : String
  pub runtime_version : String
  pub provider : String
  pub model : String
  pub prompt_bundle : String
  pub planner_version : String
  pub retrieval_version : String
  pub tool_registry_version : String
  pub critic_version : String
  pub workflow_version : String
  pub notes : String
  pub created_at : ℕ

pub record VersionListFilter : Type 0 where
  pub limit : ℤ
  pub offset : ℤ

-- `ErrVersionNotFound`, with the id that it is wrapped with.
pub data VersionError : Type 0 where
  version_not_found : String → VersionError

pub record VersionStore : Type 0 where
  pub versions : Dict Version

unfoldable pub new_version_store : VersionStore
new_version_store = record { versions = [] }

unfoldable pub save_version : Version → VersionStore → Result VersionError Version × VersionStore
save_version item s = (ok item, record { versions = put item.id item s.versions })

unfoldable pub stored_version : String → VersionStore → Result VersionError Version
stored_version id s = elim (find id s.versions) [
  | none ↦ err (version_not_found id)
  | some item ↦ ok item
]

-- The test of `sort.Slice`: the newest first, then the greatest id.
unfoldable pub version_before : Version → Version → Bool
version_before a b =
    if eqb a.created_at b.created_at then str_lt b.id a.id else ltb b.created_at a.created_at

unfoldable pub version_rows : VersionStore → List Version
version_rows s = sort version_before (values s.versions)

unfoldable pub stored_versions :
    VersionListFilter → VersionStore → Result VersionError (Page Version)
unfolding version_rows
stored_versions f s = ok (paginate (version_rows s) (page_limit f.limit) (page_offset f.offset))

-- The midnight that opens 24 March 2026.
unfoldable pub default_version : Version
default_version = record {
  id = default_version_id;
  runtime_version = "runtime-skeleton-v1";
  provider = "";
  model = "";
  prompt_bundle = "prompt-skeleton-v1";
  planner_version = "planner-skeleton-v1";
  retrieval_version = "retrieval-skeleton-v1";
  tool_registry_version = "ticket-http-adapters-v1";
  critic_version = "critic-skeleton-v1";
  workflow_version = "temporal-bridge-v1";
  notes = "Default runtime version for the current local skeleton.";
  created_at = 63909907200000000000;
}

-- The store's only error is the missing version, so the branch for another one is not reached.
unfoldable pub ensure_current_version : VersionStore → Result VersionError Version × VersionStore
unfolding stored_version save_version default_version
ensure_current_version s = elim (stored_version default_version_id s) [
  | ok item ↦ (ok item, s)
  | err (version_not_found id) ↦ save_version default_version s
]

unfoldable pub get_version : String → VersionStore → Result VersionError Version × VersionStore
unfolding ensure_current_version
get_version id s =
    if id == default_version_id then ensure_current_version s else (stored_version id s, s)

-- `if filter.Limit <= 0 { filter.Limit = 20 }`
abbrev pub with_limit : ℤ → ℤ
with_limit (pos zero) = pos 20
with_limit (negsuc n) = pos 20
with_limit (pos (suc n)) = pos (suc n)

abbrev pub listed_after :
    VersionListFilter
    → Result VersionError Version × VersionStore
    → Result VersionError (Page Version) × VersionStore
listed_after f (err e, s) = (err e, s)
listed_after f (ok _, s) = (stored_versions (record f { limit = with_limit f.limit }) s, s)

unfoldable pub list_versions :
    VersionListFilter → VersionStore → Result VersionError (Page Version) × VersionStore
unfolding ensure_current_version stored_versions
list_versions f s = listed_after f (ensure_current_version s)

abbrev pub id_of :
    Result VersionError Version × VersionStore → Result VersionError String × VersionStore
id_of (err e, s) = (err e, s)
id_of (ok item, s) = (ok item.id, s)

unfoldable pub current_version_id : VersionStore → Result VersionError String × VersionStore
unfolding ensure_current_version
current_version_id s = id_of (ensure_current_version s)
