-- ===== src/Discovery/Opening.antt =====
-- discovery/grant.rs: `open_trusted_drop_root`, which walks to a path by directory handles. The
-- file system and the components of a path are arguments.
pub mod Walks
use aiknowledge_sort_mit.Prelude.{
  ℕ, Bool, not, ◌||◌, ◌&&◌, Option, none, some, List, [], ◌∷◌, ◌++◌, Text, codes, Result, ok, err,
  ◌>>=◌, ◌>>◌, fail_if, ok_or, map_err, if◌then◌else◌,
}
use aiknowledge_sort_mit.Discovery.Roots.{
  FilePath, DiagnosticCategory, excluded, unreadable, symlink, CapabilityRoot, directory_root,
  file_root, diagnostic_root,
}

pub data Component : Type 0 where
  root_dir cur_dir parent_dir : Component
  prefix normal : Text → Component

pub data IoError : Type 0 where
  not_found : IoError
  other_error : Text → IoError

-- `is_reparse` is what the file attributes say on Windows, and false elsewhere.
pub record Metadata : Type 0 where
  pub is_symlink : Bool
  pub is_reparse : Bool
  pub is_dir : Bool
  pub is_file : Bool

-- The calls of cap_std, on handles that are numbers, and what depends on the platform: the
-- separator, and the prefixes that `absolute_capability_path` refuses.
pub record FileSystem : Type 0 where
  pub components : FilePath → List Component
  pub separator : Text
  pub refuses_prefix : Text → Bool
  pub open_ambient_dir : Text → Result Text ℕ
  pub symlink_metadata : ℕ → Text → Result IoError Metadata
  pub open_nofollow : ℕ → Text → Result Text ℕ
  pub metadata : ℕ → Result Text Metadata
  pub reopen_dir : ℕ → Result Text ℕ

abbrev pub metadata_is_link : Metadata → Bool
metadata_is_link m = m.is_symlink || m.is_reparse

-- The category and the message of a diagnostic.
abbrev pub Diagnosis : Type 0
Diagnosis = DiagnosticCategory × Text

abbrev pub unreadable_with : Text → Text → Diagnosis
unreadable_with message e = (unreadable, message ++ e)

-- A missing file has a message of its own.
abbrev pub metadata_error : Text → Text → IoError → Diagnosis
metadata_error missing message not_found = (excluded, missing)
metadata_error missing message (other_error e) = (unreadable, message ++ e)

unfoldable pub relative_components : List Component → Option (List Text)
relative_components [] = some []
relative_components (root_dir ∷ cs) = none
relative_components (prefix p ∷ cs) = none
relative_components (parent_dir ∷ cs) = none
relative_components (cur_dir ∷ cs) = relative_components cs
relative_components (normal c ∷ cs) = elim (relative_components cs) [
  | none ↦ none
  | some rest ↦ some (c ∷ rest)
]

abbrev pub with_root : Text → Option (List Text) → Option (Text × List Text)
with_root root none = none
with_root root (some rest) = some (root, rest)

abbrev pub map_ok : {A B : Type 0} → (A → B) → Result Diagnosis A → Result Diagnosis B
map_ok f (ok a) = ok (f a)
map_ok f (err e) = err e

module _ (fs : FileSystem) where
  -- What may follow a prefix: the root directory.
  abbrev pub behind_prefix : Text → List Component → Option (Text × List Text)
  behind_prefix p (root_dir ∷ cs) = with_root (p ++ fs.separator) (relative_components cs)
  behind_prefix p _ = none

  unfoldable pub absolute_capability_path : List Component → Option (Text × List Text)
  absolute_capability_path (root_dir ∷ cs) = with_root fs.separator (relative_components cs)
  absolute_capability_path (prefix p ∷ cs) =
      if fs.refuses_prefix p then none else behind_prefix p cs
  absolute_capability_path _ = none

  unfoldable pub open_ancestor_directory : ℕ → Text → Result Diagnosis ℕ
  open_ancestor_directory directory name = do
    metadata ←
        map_err
          (metadata_error (codes "Dropped path ancestor does not exist")
            (codes "Dropped path ancestor metadata is unreadable: "))
          (fs.symlink_metadata directory name)
    fail_if (metadata_is_link metadata)
        (symlink, codes "Dropped path contains a link or reparse-point ancestor")
    fail_if (not metadata.is_dir) (excluded, codes "Dropped path ancestor is not a directory")
    opened ←
        map_err (unreadable_with (codes "Dropped path ancestor cannot be opened without links: "))
          (fs.open_nofollow directory name)
    opened_metadata ←
        map_err (unreadable_with (codes "Dropped path ancestor handle metadata is unreadable: "))
          (fs.metadata opened)
    fail_if (metadata_is_link opened_metadata)
        (symlink, codes "Dropped path ancestor resolved to a link or reparse point")
    fail_if (not opened_metadata.is_dir)
        (excluded, codes "Dropped path ancestor is not a directory")
    map_err (unreadable_with (codes "Dropped path ancestor capability cannot be opened: "))
        (fs.reopen_dir opened)

  unfoldable pub classify_opened_root : FilePath → ℕ → Result Diagnosis CapabilityRoot
  classify_opened_root display_path opened = do
    metadata ←
        map_err (unreadable_with (codes "Dropped root handle metadata is unreadable: "))
          (fs.metadata opened)
    fail_if (metadata_is_link metadata)
        (symlink, codes "Dropped root resolved to a link or reparse point")
    if metadata.is_dir
        then map_ok (directory_root display_path) (
            map_err (unreadable_with (codes "Dropped directory capability cannot be opened: "))
              (fs.reopen_dir opened))
        else if metadata.is_file
        then ok (file_root display_path opened)
        else err (excluded, codes "Dropped root is not a regular file or directory")

  -- The last component of a path, from the directory that has it.
  unfoldable pub open_last : FilePath → ℕ → Text → Result Diagnosis CapabilityRoot
  open_last display_path directory name = do
    metadata ←
        map_err
          (metadata_error (codes "Dropped path does not exist")
            (codes "Dropped root metadata is unreadable: "))
          (fs.symlink_metadata directory name)
    fail_if (metadata_is_link metadata) (symlink, codes "Dropped root is a link or reparse point")
    fail_if (not metadata.is_file && not metadata.is_dir)
        (excluded, codes "Dropped root is not a regular file or directory")
    opened ←
        map_err (unreadable_with (codes "Dropped root cannot be opened without links: "))
          (fs.open_nofollow directory name)
    classify_opened_root display_path opened

  -- The loop over the ancestors, and the last component behind it.
  unfoldable pub open_components : FilePath → ℕ → Text → List Text → Result Diagnosis CapabilityRoot
  open_components display_path directory name [] = open_last display_path directory name
  open_components display_path directory ancestor (name ∷ names) = do
    next ← open_ancestor_directory directory ancestor
    open_components display_path next name names

  abbrev pub open_below : FilePath → ℕ → List Text → Result Diagnosis CapabilityRoot
  open_below display_path directory [] = ok (directory_root display_path directory)
  open_below display_path directory (name ∷ names) =
      open_components display_path directory name names

  unfoldable pub open_root_checked : FilePath → Result Diagnosis CapabilityRoot
  open_root_checked display_path = do
    parts ←
        ok_or (absolute_capability_path (fs.components display_path))
          (excluded, codes "Dropped root is not an absolute traversal-free path")
    directory ←
        map_err (unreadable_with (codes "Dropped filesystem root is unreadable: "))
          (fs.open_ambient_dir parts.0)
    open_below display_path directory parts.1

  unfoldable pub open_trusted_drop_root : FilePath → CapabilityRoot
  open_trusted_drop_root display_path = elim (open_root_checked display_path) [
    | ok root ↦ root
    | err diagnosis ↦ diagnostic_root display_path diagnosis.0 diagnosis.1
  ]
