-- ===== src/Discovery/Opening/Walks.antt =====
-- discovery/grant.rs: the handles that `open_trusted_drop_root` comes by.
use aiknowledge_sort_mit.Prelude.{
  ℕ, subst, ◌≡◌, refl, ap, ◌∙◌, all, ◌++◌, Bool, true, false, some, List, [], ◌∷◌, Text, ok, arith,
  inl, inr, Result-cases, Option-cases, Bool-cases,
}
use aiknowledge_sort_mit.Discovery.Roots.{
  FilePath, CapabilityRoot, directory_root, file_root, diagnostic_root,
}
use aiknowledge_sort_mit.Discovery.Opening.{
  Component, root_dir, cur_dir, parent_dir, prefix, normal, relative_components, with_root,
  FileSystem, Metadata, metadata_is_link, absolute_capability_path, open_ancestor_directory,
  classify_opened_root, open_last, open_components, open_below, open_root_checked,
  open_trusted_drop_root,
}

-- A name in a directory was opened: neither the name nor the opened handle is a link.
pub record Opens (fs : FileSystem) (directory : ℕ) (name : Text) (opened : ℕ) : Type 0 where
  pub named : Metadata
  pub held : Metadata
  pub name_looked : fs.symlink_metadata directory name ≡ ok named
  pub name_no_link : metadata_is_link named ≡ false
  pub handle : fs.open_nofollow directory name ≡ ok opened
  pub handle_looked : fs.metadata opened ≡ ok held
  pub handle_no_link : metadata_is_link held ≡ false

-- The root came from the handle: a directory that was reopened, or a file.
pub data Classified (fs : FileSystem) (display_path : FilePath) (opened : ℕ)
    : CapabilityRoot → Type 0 where
  as_directory :
      (directory : ℕ)
      → fs.reopen_dir opened ≡ ok directory
      → Classified fs display_path opened (directory_root display_path directory)
  as_file : Classified fs display_path opened (file_root display_path opened)

-- A walk from a directory along names, by handles alone.
pub data Walk (fs : FileSystem) (display_path : FilePath) (root : CapabilityRoot)
    : ℕ → List Text → Type 0 where
  arrives :
      {directory opened : ℕ} {name : Text}
      → Opens fs directory name opened
      → Classified fs display_path opened root
      → Walk fs display_path root directory (name ∷ [])
  enters :
      {directory opened next : ℕ} {name : Text} {names : List Text}
      → Opens fs directory name opened
      → fs.reopen_dir opened ≡ ok next
      → Walk fs display_path root next names
      → Walk fs display_path root directory (name ∷ names)

-- Where a root is from: the file system's own root directory, or a walk from it.
abbrev pub FromRoot : FileSystem → FilePath → CapabilityRoot → ℕ → List Text → Type 0
FromRoot fs display_path root directory [] = root ≡ directory_root display_path directory
FromRoot fs display_path root directory (name ∷ names) =
    Walk fs display_path root directory (name ∷ names)

-- A component that does not lead out of the directory that it is looked up in.
abbrev pub stays_below : Component → Bool
stays_below (normal _) = true
stays_below cur_dir = true
stays_below _ = false

abbrev pub normal_names : List Component → List Text
normal_names [] = []
normal_names (normal name ∷ cs) = name ∷ normal_names cs
normal_names (_ ∷ cs) = normal_names cs

-- What stands before the names: the root directory, behind a prefix where the platform has one that
-- is not refused.
pub data Rooted (fs : FileSystem) (cs : List Component) : Text → List Component → Type 0 where
  at_root : Rooted fs cs fs.separator (root_dir ∷ cs)
  at_prefix :
      (p : Text)
      → fs.refuses_prefix p ≡ false
      → Rooted fs cs (p ++ fs.separator) (prefix p ∷ root_dir ∷ cs)

-- The components are absolute and lead along the names alone: no `..`, no second root or prefix.
pub record Absolute (fs : FileSystem) (components : List Component) (start : Text)
    (names : List Text) : Type 0 where
  pub below : List Component
  pub rooted : Rooted fs below start components
  pub no_traversal : all stays_below below ≡ true
  pub along : normal_names below ≡ names

abbrev pub is_diagnostic : CapabilityRoot → Bool
is_diagnostic (diagnostic_root _ _ _) = true
is_diagnostic _ = false

module _ (fs : FileSystem) (display_path : FilePath) where
  ancestor-Opens :
      (directory : ℕ) (name : Text) {next : ℕ}
      → open_ancestor_directory fs directory name ≡ ok next
      → (opened : ℕ) × Opens fs directory name opened × (fs.reopen_dir opened ≡ ok next)
  unfolding open_ancestor_directory
  ancestor-Opens directory name h = elim (Result-cases (fs.symlink_metadata directory name)) [
    | inr (e, failed) ↦ absurd (ground arith)
    | inl (named, looked) ↦ elim (Result-cases (fs.open_nofollow directory name)) [
      | inr (e, failed) ↦ absurd (ground arith)
      | inl (opened, handle) ↦ elim (Result-cases (fs.metadata opened)) [
        | inr (e, failed) ↦ absurd (ground arith)
        | inl (held, seen) ↦ (
          opened,
          record {
            named = named;
            held = held;
            name_looked = looked;
            name_no_link = ground arith;
            handle = handle;
            handle_looked = seen;
            handle_no_link = ground arith;
          },
          ground arith,
        )
      ]
    ]
  ]

  last-Walk :
      (directory : ℕ) (name : Text) {root : CapabilityRoot}
      → open_last fs display_path directory name ≡ ok root
      → Walk fs display_path root directory (name ∷ [])
  unfolding open_last classify_opened_root
  last-Walk directory name {root} h = elim (Result-cases (fs.symlink_metadata directory name)) [
    | inr (e, failed) ↦ absurd (ground arith)
    | inl (named, looked) ↦ elim (Result-cases (fs.open_nofollow directory name)) [
      | inr (e, failed) ↦ absurd (ground arith)
      | inl (opened, handle) ↦ elim (Result-cases (fs.metadata opened)) [
        | inr (e, failed) ↦ absurd (ground arith)
        | inl (held, seen) ↦
            arrives
              (record {
                named = named;
                held = held;
                name_looked = looked;
                name_no_link = ground arith;
                handle = handle;
                handle_looked = seen;
                handle_no_link = ground arith;
              })
              (elim (Bool-cases held.is_dir) [
                | inr no_dir ↦
                    subst (Classified fs display_path opened) {x = file_root display_path opened}
                      {y = root} (ground arith) as_file
                | inl dir ↦ elim (Result-cases (fs.reopen_dir opened)) [
                  | inr (e, failed) ↦ absurd (ground arith)
                  | inl (d, again) ↦
                      subst (Classified fs display_path opened) {x = directory_root display_path d}
                        {y = root} (ground arith) (as_directory d again)
                ]
              ])
      ]
    ]
  ]

  components-Walk :
      (directory : ℕ) (name : Text) (names : List Text) {root : CapabilityRoot}
      → open_components fs display_path directory name names ≡ ok root
      → Walk fs display_path root directory (name ∷ names)
  unfolding open_components
  components-Walk directory name [] h = last-Walk directory name h
  components-Walk directory ancestor (name ∷ names) {root} h =
      elim (Result-cases (open_ancestor_directory fs directory ancestor)) [
        | inr (e, failed) ↦ absurd (ground arith)
        | inl (next, entered) ↦
            let (opened, opens, again) = ancestor-Opens directory ancestor entered in
            enters opens again (components-Walk next name names (ground arith))
      ]

  below-FromRoot :
      (directory : ℕ) (names : List Text) {root : CapabilityRoot}
      → open_below fs display_path directory names ≡ ok root
      → FromRoot fs display_path root directory names
  below-FromRoot directory [] h = ground arith
  below-FromRoot directory (name ∷ names) h = components-Walk directory name names h

  relative-below :
      (cs : List Component) {names : List Text}
      → relative_components cs ≡ some names
      → (all stays_below cs ≡ true) × (normal_names cs ≡ names)
  unfolding relative_components all
  relative-below [] h = (refl, ground arith)
  relative-below (root_dir ∷ cs) h = absurd (ground arith)
  relative-below (prefix p ∷ cs) h = absurd (ground arith)
  relative-below (parent_dir ∷ cs) h = absurd (ground arith)
  relative-below (cur_dir ∷ cs) {names} h = relative-below cs {names = names} h
  relative-below (normal c ∷ cs) {names} h = elim (Option-cases (relative_components cs)) [
    | inl failed ↦ absurd (ground arith)
    | inr (rest, done) ↦
        let (below, along) = relative-below cs {names = rest} done in
        (below, ap (λ (ns : List Text). c ∷ ns) along ∙ ground arith)
  ]

  Rooted-Absolute :
      (root : Text) (cs components : List Component) {start : Text} {names : List Text}
      → Rooted fs cs root components
      → with_root root (relative_components cs) ≡ some (start, names)
      → Absolute fs components start names
  Rooted-Absolute root cs components {start} {names} rooted h =
      elim (Option-cases (relative_components cs)) [
        | inl failed ↦ absurd (ground arith)
        | inr (rest, done) ↦
            let (below, along) = relative-below cs {names = rest} done in
            record {
              below = cs;
              rooted =
                  subst (λ r. Rooted fs cs r components) {x = root} {y = start} (ground arith)
                    rooted;
              no_traversal = below;
              along = along ∙ ground arith;
            }
      ]

  path-Absolute :
      (components : List Component) {start : Text} {names : List Text}
      → absolute_capability_path fs components ≡ some (start, names)
      → Absolute fs components start names
  unfolding absolute_capability_path
  path-Absolute [] h = absurd (ground arith)
  path-Absolute (root_dir ∷ cs) {start} {names} h =
      Rooted-Absolute fs.separator cs (root_dir ∷ cs) {start = start} {names = names} at_root h
  path-Absolute (cur_dir ∷ cs) h = absurd (ground arith)
  path-Absolute (parent_dir ∷ cs) h = absurd (ground arith)
  path-Absolute (normal c ∷ cs) h = absurd (ground arith)
  path-Absolute (prefix p ∷ []) h = absurd (ground arith)
  path-Absolute (prefix p ∷ cur_dir ∷ cs) h = absurd (ground arith)
  path-Absolute (prefix p ∷ parent_dir ∷ cs) h = absurd (ground arith)
  path-Absolute (prefix p ∷ normal c ∷ cs) h = absurd (ground arith)
  path-Absolute (prefix p ∷ prefix q ∷ cs) h = absurd (ground arith)
  path-Absolute (prefix p ∷ root_dir ∷ cs) {start} {names} h =
      elim (Bool-cases (fs.refuses_prefix p)) [
        | inl refused ↦ absurd (ground arith)
        | inr accepted ↦
            Rooted-Absolute (p ++ fs.separator) cs (prefix p ∷ root_dir ∷ cs) {start = start}
              {names = names} (at_prefix p accepted) (ground arith)
      ]

  -- A dropped path that is opened, and not answered by a diagnostic, begins at the root directory,
  -- behind a prefix that is not refused if it has one, and none of its further components is `..`, a
  -- prefix or a root. Its handle is that of the file system's root directory or comes from there by a
  -- walk along the path's names, on which neither a name nor the handle opened for it is a link.
  pub open_trusted_drop_root-FromRoot :
      is_diagnostic (open_trusted_drop_root fs display_path) ≡ false
      → (start : Text) × (names : List Text) × (directory : ℕ) × Absolute fs
          (fs.components display_path)
          start
          names
        × (fs.open_ambient_dir start ≡ ok directory)
        × FromRoot fs display_path (open_trusted_drop_root fs display_path) directory names
  unfolding open_trusted_drop_root open_root_checked
  open_trusted_drop_root-FromRoot opened =
      elim (Option-cases (absolute_capability_path fs (fs.components display_path))) [
        | inl relative ↦ absurd (ground arith)
        | inr ((start, names), absolute) ↦ elim (Result-cases (fs.open_ambient_dir start)) [
          | inr (e, failed) ↦ absurd (ground arith)
          | inl (directory, ambient) ↦
              elim (Result-cases (open_below fs display_path directory names)) [
                | inr (e, failed) ↦ absurd (ground arith)
                | inl (root, done) ↦ (
                  start,
                  names,
                  directory,
                  path-Absolute (fs.components display_path) {start = start} {names = names}
                      absolute,
                  ambient,
                  subst (λ r. FromRoot fs display_path r directory names) {x = root}
                      {y = open_trusted_drop_root fs display_path} (ground arith)
                      (below-FromRoot directory names done),
                )
              ]
        ]
      ]
