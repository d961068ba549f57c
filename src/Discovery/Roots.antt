-- ===== src/Discovery/Roots.antt =====
-- discovery/grant.rs and discovery/mod.rs: the opened root of a dropped path.
use aiknowledge_sort_mit.Prelude.{
  ℕ, Bool, true, false, ◌&&◌, List, [], ◌∷◌, Text, text_eq, text_le, sort_by, if◌then◌else◌,
}

-- A `PathBuf`: its lossy text, and its components, by which paths are compared.
pub record FilePath : Type 0 where
  pub display : Text
  pub components : List Text

unfoldable pub components_eq : List Text → List Text → Bool
components_eq [] [] = true
components_eq (a ∷ as') (b ∷ bs) = text_eq a b && components_eq as' bs
components_eq _ _ = false

unfoldable pub components_le : List Text → List Text → Bool
components_le [] bs = true
components_le (a ∷ as') [] = false
components_le (a ∷ as') (b ∷ bs) = if text_eq a b then components_le as' bs else text_le a b

abbrev pub path_eq : FilePath → FilePath → Bool
path_eq a b = components_eq a.components b.components

abbrev pub path_le : FilePath → FilePath → Bool
path_le a b = components_le a.components b.components

-- `Vec::dedup`: of neighbours that are equal the first stays.
unfoldable pub dedup_after : FilePath → List FilePath → List FilePath
dedup_after last [] = []
dedup_after last (path ∷ paths) =
    let skip = dedup_after last paths in
    let keep = path ∷ dedup_after path paths in if path_eq last path then skip else keep

unfoldable pub dedup : List FilePath → List FilePath
dedup [] = []
dedup (path ∷ paths) = path ∷ dedup_after path paths

-- `paths.sort(); paths.dedup();`
abbrev pub sorted_paths : List FilePath → List FilePath
sorted_paths paths = dedup (sort_by path_le paths)

pub data DiagnosticCategory : Type 0 where
  excluded unreadable symlink traversal_limit : DiagnosticCategory

-- The handle of an opened directory or file is a number.
pub data CapabilityRoot : Type 0 where
  directory_root : FilePath → ℕ → CapabilityRoot
  file_root : FilePath → ℕ → CapabilityRoot
  diagnostic_root : FilePath → DiagnosticCategory → Text → CapabilityRoot
