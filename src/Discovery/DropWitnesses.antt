-- ===== src/Discovery/DropWitnesses.antt =====
-- discovery/grant.rs and discovery/mod.rs: a drop that is issued and consumed, a race of threads and
-- a walk to a directory, with the theorems at these inputs.
use aiknowledge_sort_mit.Discovery.Opening.{
  FileSystem, root_dir, normal, relative_components, absolute_capability_path,
  open_ancestor_directory, classify_opened_root, open_last, open_components, open_root_checked,
  open_trusted_drop_root,
}
use aiknowledge_sort_mit.Discovery.Opening.Walks.{
  Absolute, FromRoot, is_diagnostic, open_trusted_drop_root-FromRoot,
}
use aiknowledge_sort_mit.Prelude.{
  ℕ, suc, ◌+◌, ◌≡◌, ◌≤◌, ◌<◌, ◌&&◌, refl, Bool, true, false, List, [], ◌∷◌, map, Text, codes, arith,
  ltb, length, count_if, text_eq, ok, err, is_ok,
}
use aiknowledge_sort_mit.Prelude.Maps.{Map, get, retain}
use aiknowledge_sort_mit.Discovery.Roots.{FilePath, CapabilityRoot, directory_root}
use aiknowledge_sort_mit.Discovery.Limiter.{Thread, outside, Limiter, interleave, is_holding}
use aiknowledge_sort_mit.Discovery.Limiter.Bound.{interleave-bound}
use aiknowledge_sort_mit.Discovery.DropGrants.{
  DropGrant, DropIo, default_drop_limits, validate_paths, unknown_grant,
}
use aiknowledge_sort_mit.Discovery.DropGrants.Registry.{issue_with_deadline, consume_at}
use aiknowledge_sort_mit.Discovery.DropGrants.Consuming.{valid_grant_id, consume_at-once}
use aiknowledge_sort_mit.Discovery.DropGrants.Issuing.{
  before_deadline, readings, issue_with_deadline_iff,
}
use aiknowledge_sort_mit.Discovery.Scenarios.{evaluates, draws}

abbrev docs : FilePath
docs = record { display = codes "/docs"; components = codes "/" ∷ codes "docs" ∷ [] }

abbrev notes : FilePath
notes = record { display = codes "/notes"; components = codes "/" ∷ codes "notes" ∷ [] }

abbrev drop_io : DropIo
drop_io = record { is_absolute = λ path. true; clock = λ n. n; draws = draws }

abbrev open_root : FilePath → CapabilityRoot
open_root path = directory_root path 7

abbrev dropped : List FilePath
dropped = notes ∷ docs ∷ notes ∷ []

abbrev after_drop : Map DropGrant
after_drop = (issue_with_deadline default_drop_limits drop_io open_root dropped 100 []).1

drop_passes :
    (issue_with_deadline default_drop_limits drop_io open_root dropped 100 []).0 ≡ ok (codes "x")
unfolding evaluates
drop_passes = refl

issue_with_deadline_iff_example :
    is_ok (issue_with_deadline default_drop_limits drop_io open_root dropped 100 []).0
    ≡ is_ok (validate_paths drop_io.is_absolute default_drop_limits dropped)
      && before_deadline drop_io.clock 100 0 (suc (suc (suc (readings dropped))))
      && ltb
          (length (
            retain {V = DropGrant}
              (λ grant. ltb (drop_io.clock (readings dropped + 1)) grant.expires_at)
              []))
          32
issue_with_deadline_iff_example =
    issue_with_deadline_iff default_drop_limits drop_io open_root dropped 100 []

drop_current : 200 < drop_io.clock (readings dropped + 2) + default_drop_limits.ttl
unfolding evaluates
drop_current = omega arith

x_valid : valid_grant_id (codes "x") ≡ true
unfolding evaluates
x_valid = refl

consume_at-once_example :
    ((later : ℕ)
      → (consume_at (codes "x") later (consume_at (codes "x") 200 after_drop).1).0
        ≡ err unknown_grant)
    × ((j : Text)
        → text_eq (codes "x") j ≡ false
        → get j (consume_at (codes "x") 200 after_drop).1 ≡ get j after_drop)
unfolding evaluates
consume_at-once_example = consume_at-once (codes "x") 200 after_drop refl

abbrev dropped_grant : DropGrant
dropped_grant = record { expires_at = 30_000_000_006; roots = map open_root (docs ∷ notes ∷ []) }

-- Two threads race for one permit.
abbrev race : List (Bool × ℕ)
race = (false, 0) ∷ (false, 1) ∷ (false, 1) ∷ (false, 0) ∷ (false, 0) ∷ (false, 1) ∷ []

abbrev one_permit : Limiter
one_permit = record { active = 0; max_active = 1 }

abbrev two_threads : List Thread
two_threads = outside ∷ outside ∷ []

interleave-bound_example :
    ((interleave race (one_permit, two_threads)).0.active
      ≡ count_if is_holding (interleave race (one_permit, two_threads)).1)
    × ((interleave race (one_permit, two_threads)).0.active ≤ 1)
unfolding count_if
interleave-bound_example =
    interleave-bound race one_permit two_threads refl (omega arith) (omega arith)

-- A file system of directories only, each with the handle 7.
abbrev file_system : FileSystem
file_system = record {
  components = λ path. root_dir ∷ normal (codes "docs") ∷ normal (codes "notes") ∷ [];
  separator = codes "/";
  refuses_prefix = λ p. false;
  open_ambient_dir = λ path. ok 1;
  symlink_metadata = λ directory entry.
      ok (record { is_symlink = false; is_reparse = false; is_dir = true; is_file = false });
  open_nofollow = λ directory entry. ok 7;
  metadata = λ opened.
      ok (record { is_symlink = false; is_reparse = false; is_dir = true; is_file = false });
  reopen_dir = λ opened. ok opened;
}

docs_open : is_diagnostic (open_trusted_drop_root file_system docs) ≡ false
unfolding open_trusted_drop_root open_root_checked open_components open_last open_ancestor_directory
    classify_opened_root absolute_capability_path relative_components
docs_open = refl

open_trusted_drop_root-FromRoot_example :
    (start : Text) × (entries : List Text) × (directory : ℕ) × Absolute file_system
      (file_system.components docs)
      start
      entries
    × (file_system.open_ambient_dir start ≡ ok directory)
    × FromRoot file_system docs (open_trusted_drop_root file_system docs) directory entries
open_trusted_drop_root-FromRoot_example = open_trusted_drop_root-FromRoot file_system docs docs_open
