-- ===== src/Naming/Batches/Registry.antt =====
-- naming/registry.rs: the methods of `NamingBatchRegistry`, each one step on the locked map.
use aiknowledge_sort_mit.Prelude.{
  ℕ, ◌+◌, not, ◌||◌, List, Text, ltb, leb, length, is_empty, distinct, text_eq, sort_by, fail_if,
  ok_or,
}
use aiknowledge_sort_mit.Prelude.Maps.{Map, get, insert, remove, retain}
use aiknowledge_sort_mit.Prelude.Draws.{unique_id}
use aiknowledge_sort_mit.Prelude.Execs.{Exec, pure, lift, gets, modify, ◌>>=◌, ◌>>◌}
use aiknowledge_sort_mit.Discovery.Proposals.{ReviewedSource}
use aiknowledge_sort_mit.Naming.Schema.{NamingProposal, canonical_policy}
use aiknowledge_sort_mit.Naming.Normalize.{Tables}
use aiknowledge_sort_mit.Naming.Batches.{
  NamingItemInput, NamingBatch, NamingBatchRegistryLimits, StoredBatch, BatchError,
  too_many_batches, selection_size, selection_duplicates, unknown_batch, batch_mismatched,
  validate_opaque_id, check_inputs, propose_all, proposal_le, batch_expiry, proposal_ids, same_set,
}

-- `retain(|_, stored| stored.expires_at > now)`.
abbrev pub current_batches : ℕ → Map StoredBatch → Map StoredBatch
current_batches now = retain (λ stored. ltb now stored.expires_at)

abbrev pub new_batch : Text → Text → ℕ → List NamingProposal → NamingBatch
new_batch batch_id discovery_proposal_id expires_at_unix_ms proposals = record {
  batch_id = batch_id;
  discovery_proposal_id = discovery_proposal_id;
  policy_id = canonical_policy.policy_id;
  policy_version = canonical_policy.policy_version;
  expires_at_unix_ms = expires_at_unix_ms;
  proposals = proposals;
}

-- What the platform supplies: the tables, the Unix epoch and the UUIDs.
pub record BatchIo : Type 0 where
  pub tables : Tables
  pub unix_epoch : ℕ
  pub draws : ℕ → Text

unfoldable pub create_at :
    NamingBatchRegistryLimits
    → BatchIo
    → Text
    → List ReviewedSource
    → List NamingItemInput
    → Map (List Text)
    → ℕ
    → ℕ
    → Exec (Map StoredBatch) BatchError NamingBatch
create_at limits io discovery_proposal_id sources inputs occupied now wall_time = do
  by_id ← lift (check_inputs limits discovery_proposal_id sources inputs occupied)
  unsorted ← lift (propose_all io.tables occupied by_id inputs)
  let proposals = sort_by proposal_le unsorted
  expires_at_unix_ms ← lift (batch_expiry io.unix_epoch wall_time limits.ttl)
  modify (current_batches now)
  batches ← gets (λ m. m)
  lift (fail_if (leb limits.max_batches (length batches)) too_many_batches)
  let batch =
      new_batch (unique_id io.draws batches) discovery_proposal_id expires_at_unix_ms proposals
  modify (
      insert (unique_id io.draws batches) (record { expires_at = now + limits.ttl; batch = batch }))
  pure batch

unfoldable pub consume_batch_at :
    NamingBatchRegistryLimits
    → Text
    → Text
    → List Text
    → ℕ
    → Exec (Map StoredBatch) BatchError NamingBatch
consume_batch_at limits batch_id discovery_proposal_id item_ids now = do
  lift (validate_opaque_id batch_id)
  lift (validate_opaque_id discovery_proposal_id)
  lift (fail_if (is_empty item_ids || ltb limits.max_items (length item_ids)) selection_size)
  lift (fail_if (not (distinct item_ids)) selection_duplicates)
  modify (current_batches now)
  batches ← gets (λ m. m)
  stored ← lift (ok_or (get batch_id batches) unknown_batch)
  lift (
      fail_if
        (not (text_eq stored.batch.discovery_proposal_id discovery_proposal_id)
          || not (same_set (proposal_ids stored.batch) item_ids))
        batch_mismatched)
  modify (remove batch_id)
  pure stored.batch
