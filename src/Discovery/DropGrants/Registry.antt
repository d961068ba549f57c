-- ===== src/Discovery/DropGrants/Registry.antt =====
-- discovery/grant.rs: the methods of `DropGrantRegistry`, each one step on the locked map.
use aiknowledge_sort_mit.Prelude.{
  ℕ, ◌+◌, ◌*◌, ◌||◌, List, Text, ltb, leb, length, is_empty, byte_len, fail_if, ok_or,
}
use aiknowledge_sort_mit.Prelude.Maps.{Map, get, insert, remove, retain}
use aiknowledge_sort_mit.Prelude.Draws.{unique_id}
use aiknowledge_sort_mit.Prelude.Execs.{Exec, pure, lift, gets, modify, ◌>>=◌, ◌>>◌}
use aiknowledge_sort_mit.Discovery.Roots.{FilePath, CapabilityRoot, sorted_paths}
use aiknowledge_sort_mit.Discovery.DropGrants.{
  RegistryLimits, DropGrant, DropError, DropIo, too_many_grants, invalid_grant_id, unknown_grant,
  grant_expired, max_grant_id_bytes, validate_paths, ensure_before_deadline_at, open_roots,
}

-- `issue_with_deadline`, with how a path is opened. It returns the id of the grant.
unfoldable pub issue_with_deadline :
    RegistryLimits
    → DropIo
    → (FilePath → CapabilityRoot)
    → List FilePath
    → ℕ
    → Exec (Map DropGrant) DropError Text
issue_with_deadline limits io open_root paths deadline = do
  lift (validate_paths io.is_absolute limits paths)
  roots ← lift (open_roots io.clock open_root deadline 0 (sorted_paths paths))
  let tick = 2 * length (sorted_paths paths)
  lift (ensure_before_deadline_at deadline (io.clock tick))
  let locked_at = io.clock (tick + 1)
  lift (ensure_before_deadline_at deadline locked_at)
  modify (retain (λ grant. ltb locked_at grant.expires_at))
  grants ← gets (λ m. m)
  lift (fail_if (leb limits.max_grants (length grants)) too_many_grants)
  let insertion_time = io.clock (tick + 2)
  lift (ensure_before_deadline_at deadline insertion_time)
  modify (
      insert (unique_id io.draws grants)
        (record { expires_at = insertion_time + limits.ttl; roots = roots }))
  pure (unique_id io.draws grants)

unfoldable pub consume_at : Text → ℕ → Exec (Map DropGrant) DropError DropGrant
consume_at grant_id now = do
  lift (fail_if (is_empty grant_id || ltb max_grant_id_bytes (byte_len grant_id)) invalid_grant_id)
  grants ← gets (λ m. m)
  grant ← lift (ok_or (get grant_id grants) unknown_grant)
  modify (remove grant_id)
  lift (fail_if (leb grant.expires_at now) grant_expired)
  pure grant
