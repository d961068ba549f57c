-- ===== src/Discovery/DropGrants.antt =====
-- discovery/grant.rs: `DropGrantRegistry`, which holds the roots of a drop until they are consumed.
pub mod Registry
pub mod Consuming
pub mod Issuing
use aiknowledge_sort_mit.Prelude.{
  ℕ, suc, ◌+◌, ◌*◌, Bool, not, ◌||◌, List, [], ◌∷◌, Text, codes, ltb, leb, length, is_empty, any,
  byte_len, text_eq, Result, ok, err, ◌>>=◌, ◌>>◌, fail_if, if◌then◌else◌,
}
use aiknowledge_sort_mit.Prelude.Maps.{Map}
use aiknowledge_sort_mit.Discovery.Roots.{FilePath, CapabilityRoot}

abbrev pub max_grant_id_bytes : ℕ
max_grant_id_bytes = 128

pub record RegistryLimits : Type 0 where
  pub max_grants : ℕ
  pub max_paths : ℕ
  pub max_path_bytes : ℕ
  pub ttl : ℕ

-- `RegistryLimits::default`.
abbrev pub default_drop_limits : RegistryLimits
default_drop_limits = record {
  max_grants = 32;
  max_paths = 64;
  max_path_bytes = 4096;
  ttl = 30 * 1_000_000_000;
}

pub record DropGrant : Type 0 where
  pub expires_at : ℕ
  pub roots : List CapabilityRoot

pub data DropError : Type 0 where
  no_paths too_many_paths path_not_absolute path_too_long deadline_exceeded : DropError
  too_many_grants invalid_grant_id unknown_grant grant_expired : DropError

-- What the platform supplies: `Path::is_absolute`, the n-th reading of the clock, the n-th UUID.
pub record DropIo : Type 0 where
  pub is_absolute : FilePath → Bool
  pub clock : ℕ → ℕ
  pub draws : ℕ → Text

-- A component `..` is `Component::ParentDir`.
abbrev pub has_parent_dir : FilePath → Bool
has_parent_dir path = any (text_eq (codes "..")) path.components

unfoldable pub check_paths :
    (FilePath → Bool) → RegistryLimits → List FilePath → Result DropError (Unit {0})
check_paths is_absolute limits [] = ok tt
check_paths is_absolute limits (path ∷ paths) = do
  fail_if (not (is_absolute path) || has_parent_dir path) path_not_absolute
  fail_if (ltb limits.max_path_bytes (byte_len path.display)) path_too_long
  check_paths is_absolute limits paths

unfoldable pub validate_paths :
    (FilePath → Bool) → RegistryLimits → List FilePath → Result DropError (Unit {0})
validate_paths is_absolute limits paths = do
  fail_if (is_empty paths) no_paths
  fail_if (ltb limits.max_paths (length paths)) too_many_paths
  check_paths is_absolute limits paths

abbrev pub ensure_before_deadline_at : ℕ → ℕ → Result DropError (Unit {0})
ensure_before_deadline_at deadline now = fail_if (leb deadline now) deadline_exceeded

-- The loop that opens the paths, from the reading `tick` of the clock on.
unfoldable pub open_roots :
    (ℕ → ℕ)
    → (FilePath → CapabilityRoot)
    → ℕ
    → ℕ
    → List FilePath
    → Result DropError (List CapabilityRoot)
open_roots clock open_root deadline tick [] = ok []
open_roots clock open_root deadline tick (path ∷ paths) = do
  ensure_before_deadline_at deadline (clock tick)
  ensure_before_deadline_at deadline (clock (tick + 1))
  roots ← open_roots clock open_root deadline (tick + 2) paths
  ok (open_root path ∷ roots)
