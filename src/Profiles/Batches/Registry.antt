-- ===== src/Profiles/Batches/Registry.antt =====
-- profiles/classification.rs: the methods of `ClassificationBatchRegistry`, each one step on the
-- locked map.
use aiknowledge_sort_mit.Prelude.{
  ℕ, ◌+◌, not, ◌||◌, List, Text, map, ltb, leb, length, is_empty, distinct, text_eq, fail_if, ok_or,
  map_err,
}
use aiknowledge_sort_mit.Prelude.Maps.{Map, get, insert, remove, retain}
use aiknowledge_sort_mit.Prelude.Execs.{Exec, pure, lift, gets, modify, ◌>>=◌, ◌>>◌}
use aiknowledge_sort_mit.Discovery.Proposals.{ReviewedSource}
use aiknowledge_sort_mit.Naming.Batches.{batch_expiry, same_set}
use aiknowledge_sort_mit.Profiles.Schema.{DeclarativeProfile}
use aiknowledge_sort_mit.Profiles.Batches.{
  ClassificationItemInput, ClassificationBatchItem, ClassificationBatch, StoredClassification,
  ClassificationError, ClassificationIo, classification_expiry, too_many_classifications,
  classification_selection, unknown_classification, classification_mismatched,
  validate_classification_id, classify_selection,
}

abbrev pub current_classifications : ℕ → Map StoredClassification → Map StoredClassification
current_classifications now = retain (λ stored. ltb now stored.expires_at)

abbrev pub new_classification :
    Text → Text → DeclarativeProfile → ℕ → List ClassificationBatchItem → ClassificationBatch
new_classification batch_id discovery_proposal_id profile expires_at_unix_ms items = record {
  batch_id = batch_id;
  discovery_proposal_id = discovery_proposal_id;
  profile_id = profile.profile_id;
  profile_version = profile.profile_version;
  expires_at_unix_ms = expires_at_unix_ms;
  items = items;
}

unfoldable pub store_batch :
    ℕ
    → ClassificationIo
    → Text
    → DeclarativeProfile
    → List ClassificationBatchItem
    → ℕ
    → ℕ
    → Exec (Map StoredClassification) ClassificationError ClassificationBatch
store_batch ttl io discovery_proposal_id profile items now wall_time = do
  expires_at_unix_ms ←
      lift (map_err classification_expiry (batch_expiry io.unix_epoch wall_time ttl))
  let batch = new_classification io.batch_id discovery_proposal_id profile expires_at_unix_ms items
  modify (current_classifications now)
  batches ← gets (λ m. m)
  lift (fail_if (leb 32 (length batches)) too_many_classifications)
  modify (insert io.batch_id (record { expires_at = now + ttl; batch = batch }))
  pure batch

unfoldable pub create_classification_at :
    ℕ
    → ClassificationIo
    → Text
    → DeclarativeProfile
    → List ReviewedSource
    → List ClassificationItemInput
    → ℕ
    → ℕ
    → Exec (Map StoredClassification) ClassificationError ClassificationBatch
create_classification_at ttl io discovery_proposal_id profile sources inputs now wall_time = do
  items ← lift (classify_selection io discovery_proposal_id profile sources inputs)
  store_batch ttl io discovery_proposal_id profile items now wall_time

abbrev pub item_ids_of : ClassificationBatch → List Text
item_ids_of batch = map (λ item. item.item_id) batch.items

unfoldable pub consume_classification_at :
    Text
    → Text
    → List Text
    → ℕ
    → Exec (Map StoredClassification) ClassificationError ClassificationBatch
consume_classification_at batch_id discovery_proposal_id item_ids now = do
  lift (validate_classification_id batch_id)
  lift (validate_classification_id discovery_proposal_id)
  lift (fail_if (is_empty item_ids || not (distinct item_ids)) classification_selection)
  modify (current_classifications now)
  batches ← gets (λ m. m)
  stored ← lift (ok_or (get batch_id batches) unknown_classification)
  lift (
      fail_if
        (not (text_eq stored.batch.discovery_proposal_id discovery_proposal_id)
          || not (same_set (item_ids_of stored.batch) item_ids))
        classification_mismatched)
  modify (remove batch_id)
  pure stored.batch
