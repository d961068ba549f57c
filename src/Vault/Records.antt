-- ===== src/Vault/Records.antt =====
-- vault/records.rs: records that are written once, by a temporary file that is renamed.
-- The directory of the crate cap_std is a parameter: its calls are steps on a state that nothing else
-- is known of, and each of them may fail. Errors of the calls are texts, except that a missing file
-- is told apart.
use aiknowledge_sort_mit.Prelude.{
  ℕ, Bool, true, false, not, ◌||◌, Option, none, some, List, ◌++◌, Text, codes, ltb, length,
  is_empty, any, Result, ok, err, fail_if, ok_or, map_err, if◌then◌else◌,
}
use aiknowledge_sort_mit.Prelude.Paths.{components, is_normal, is_absolute, file_name, parent, join}
use aiknowledge_sort_mit.Prelude.Execs.{Exec, pure, lift, ◌>>=◌, ◌>>◌, catch}

pub data IoError : Type 0 where
  not_found : IoError
  io_failed : Text → IoError

pub data FileKind : Type 0 where
  regular_file : ℕ → FileKind
  directory_entry link_entry other_entry : FileKind

-- The handle of a directory, the clock and the UUIDs: what every call may read and change.
pub record Platform : Type 1 where
  pub State : Type 0
  pub symlink_metadata : Text → State → Result IoError FileKind
  pub open_new : Text → State → Result Text (Unit {0}) × State
  pub write_all : Text → List ℕ → State → Result Text (Unit {0}) × State
  pub overwrite_start : Text → List ℕ → State → Result Text (Unit {0}) × State
  pub flush : Text → State → Result Text (Unit {0}) × State
  pub sync_all : Text → State → Result Text (Unit {0}) × State
  pub rename : Text → Text → State → Result Text (Unit {0}) × State
  pub hard_link : Text → Text → State → Result Text (Unit {0}) × State
  pub remove_file : Text → State → Result Text (Unit {0}) × State
  pub create_dir : Text → State → Result Text (Unit {0}) × State
  pub read_file : Text → State → Result Text (List ℕ)
  pub new_uuid : State → Text × State
  pub unix_time_ms : State → ℕ × State

-- serde_json at one type.
pub record Codec (A : Type 0) : Type 0 where
  pub to_vec : A → Result Text (List ℕ)
  pub from_slice : List ℕ → Option A

pub data RecordError : Type 0 where
  path_unsafe already_exists no_parent no_file_name appeared not_regular : RecordError
  record_invalid over_limit : RecordError
  not_inspected io_error not_serialized : Text → RecordError

abbrev pub is_regular : FileKind → Bool
is_regular (regular_file _) = true
is_regular _ = false

abbrev pub file_len : FileKind → ℕ
file_len (regular_file n) = n
file_len _ = 0

unfoldable pub validate_relative_path : Text → Result RecordError (Unit {0})
validate_relative_path path =
    fail_if
      (is_empty path
        || is_absolute path
        || any (λ component. not (is_normal component)) (components path))
      path_unsafe

-- The call of `symlink_metadata` must say that the path is missing.
abbrev pub require_missing : RecordError → Result IoError FileKind → Result RecordError (Unit {0})
require_missing exists (ok kind) = err exists
require_missing exists (err not_found) = ok tt
require_missing exists (err (io_failed e)) = err (not_inspected e)

abbrev pub io_text : IoError → Text
io_text not_found = codes "not found"
io_text (io_failed e) = e

abbrev pub non_empty_directory : Option Text → Result RecordError Text
non_empty_directory none = err no_parent
non_empty_directory (some path) = if is_empty path then err no_parent else ok path

-- `format!(".{file_name}.{uuid}.tmp")`.
abbrev pub temporary_name : Text → Text → Text
temporary_name name uuid = codes "." ++ name ++ codes "." ++ uuid ++ codes ".tmp"

module _ (p : Platform) where
  abbrev pub Io : Type 0 → Type 0
  Io = Exec p.State RecordError

  -- The path must be missing.
  abbrev pub check_missing : RecordError → Text → Io (Unit {0})
  check_missing exists path s = (require_missing exists (p.symlink_metadata path s), s)

  abbrev pub draw_uuid : Io Text
  draw_uuid s = (ok (p.new_uuid s).0, (p.new_uuid s).1)

  abbrev pub call : (p.State → Result Text (Unit {0}) × p.State) → Io (Unit {0})
  call m = catch io_error m

  -- When an action fails, the temporary file goes, and the result of that is not read.
  abbrev pub remove_on_error : Text → Io (Unit {0}) → Io (Unit {0})
  remove_on_error temporary m s = elim (m s).0 [
    | ok done ↦ (ok done, (m s).1)
    | err e ↦ (err e, (p.remove_file temporary (m s).1).1)
  ]

  -- The closure of `write_new_bytes`.
  unfoldable pub publish : Text → Text → List ℕ → Io (Unit {0})
  publish temporary relative bytes = do
    call (p.open_new temporary)
    call (p.write_all temporary bytes)
    call (p.sync_all temporary)
    check_missing appeared relative
    call (p.rename temporary relative)

  unfoldable pub write_new_bytes : Text → List ℕ → Io (Unit {0})
  write_new_bytes relative bytes = do
    lift (validate_relative_path relative)
    check_missing already_exists relative
    found ← lift (non_empty_directory (parent relative))
    name ← lift (ok_or (file_name relative) no_file_name)
    uuid ← draw_uuid
    let temporary = join found (temporary_name name uuid)
    remove_on_error temporary (publish temporary relative bytes)

  unfoldable pub write_new_json : {A : Type 0} → Codec A → Text → A → Io (Unit {0})
  write_new_json codec relative value = do
    bytes ← lift (map_err not_serialized (codec.to_vec value))
    write_new_bytes relative bytes

  -- `symlink_metadata` where every error is reported.
  abbrev pub inspect : Text → Io FileKind
  inspect path s = (map_err (λ e. not_inspected (io_text e)) (p.symlink_metadata path s), s)

  abbrev pub read_all : Text → Io (List ℕ)
  read_all path s = (map_err io_error (p.read_file path s), s)

  unfoldable pub read_json : {A : Type 0} → Codec A → Text → Io A
  read_json codec relative = do
    lift (validate_relative_path relative)
    kind ← inspect relative
    lift (fail_if (not (is_regular kind)) not_regular)
    bytes ← read_all relative
    lift (ok_or (codec.from_slice bytes) record_invalid)

  unfoldable pub read_bytes_bounded : Text → ℕ → Io (List ℕ)
  read_bytes_bounded relative max_bytes = do
    lift (validate_relative_path relative)
    kind ← inspect relative
    lift (fail_if (not (is_regular kind)) not_regular)
    lift (fail_if (ltb max_bytes (file_len kind)) over_limit)
    bytes ← read_all relative
    lift (fail_if (ltb max_bytes (length bytes)) over_limit)
    pure bytes
