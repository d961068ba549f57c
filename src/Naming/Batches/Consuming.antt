-- ===== src/Naming/Batches/Consuming.antt =====
-- naming/registry.rs: when `consume_at` returns a batch, and what it leaves.
use aiknowledge_sort_mit.Prelude.{
  ℕ, ◌<◌, ◌≡◌, ◌↔◌, Bool, true, false, not, ◌&&◌, none, some, List, ◌+◌, Result-cases, Text, arith,
  inl, inr, Option-cases, ok, err, length, ltb, leb, is_ok, is_empty, distinct, byte_len, text_eq,
  text_eq_refl,
}
use aiknowledge_sort_mit.Prelude.Maps.{Map, get, get-remove, get-insert, get-retain}
use aiknowledge_sort_mit.Prelude.Execs.{continue}
use aiknowledge_sort_mit.Discovery.Proposals.{ReviewedSource}
use aiknowledge_sort_mit.Naming.Batches.{
  NamingItemInput, NamingBatch, NamingBatchRegistryLimits, StoredBatch, BatchError,
  max_opaque_id_bytes, proposal_ids, same_set,
}
use aiknowledge_sort_mit.Naming.Batches.Registry.{
  BatchIo, current_batches, create_at, consume_batch_at,
}

abbrev pub valid_opaque_id : Text → Bool
valid_opaque_id value = not (is_empty value) && leb (byte_len value) max_opaque_id_bytes

-- A selection that may be consumed, whatever is stored.
abbrev pub valid_selection : NamingBatchRegistryLimits → List Text → Bool
valid_selection limits item_ids =
    not (is_empty item_ids) && leb (length item_ids) limits.max_items && distinct item_ids

-- A batch is consumed exactly when both ids and the selection are valid, the batch is stored under
-- its id and has not expired, it was made for the discovery proposal, and its items are those of the
-- selection; what is returned is the stored batch.
pub consume_batch_at_iff :
    (limits : NamingBatchRegistryLimits) (batch_id discovery_id : Text) (item_ids : List Text)
    (now : ℕ) (m : Map StoredBatch) (batch : NamingBatch)
    → ((consume_batch_at limits batch_id discovery_id item_ids now m).0 ≡ ok batch) ↔ (
        (valid_opaque_id batch_id && valid_opaque_id discovery_id && valid_selection limits item_ids
          ≡ true)
        × (text_eq batch.discovery_proposal_id discovery_id
              && same_set (proposal_ids batch) item_ids
            ≡ true)
        × ((stored : StoredBatch) × (get batch_id m ≡ some stored)
            × (now < stored.expires_at)
            × (stored.batch ≡ batch)))
unfolding consume_batch_at continue
consume_batch_at_iff limits batch_id discovery_id item_ids now m batch =
    let kept = get-retain (λ (stored : StoredBatch). ltb now stored.expires_at) batch_id m in
    elim (Option-cases (get batch_id m)) [
      | inl absent ↦ (λ h. absurd (ground arith), λ h. absurd (ground (arith, h.2.1)))
      | inr (stored, present) ↦ (
        λ h. (ground arith, ground arith, (stored, present, ground arith, ground arith)),
        λ h. ground (arith, h.2.1, h.2.2, h.2.3),
      )
    ]

-- What may become of the registry: batches are consumed, and batches are created under other ids.
pub data Later (batch_id : Text) (end : Map StoredBatch) : Map StoredBatch → Type 0 where
  stays : Later batch_id end end
  consumes :
      {m : Map StoredBatch} (limits : NamingBatchRegistryLimits) (id discovery_id : Text)
      (item_ids : List Text) (now : ℕ)
      → Later batch_id end (consume_batch_at limits id discovery_id item_ids now m).1
      → Later batch_id end m
  creates :
      {m : Map StoredBatch} (limits : NamingBatchRegistryLimits) (io : BatchIo)
      (discovery_id : Text) (sources : List ReviewedSource) (inputs : List NamingItemInput)
      (occupied : Map (List Text)) (now wall_time : ℕ)
      → ((batch : NamingBatch)
          → (create_at limits io discovery_id sources inputs occupied now wall_time m).0 ≡ ok batch
          → text_eq batch.batch_id batch_id ≡ false)
      → Later batch_id end
          (create_at limits io discovery_id sources inputs occupied now wall_time m).1
      → Later batch_id end m

consume-absent :
    (batch_id : Text) (limits : NamingBatchRegistryLimits) (id discovery_id : Text)
    (item_ids : List Text) (now : ℕ) (m : Map StoredBatch)
    → get batch_id m ≡ none
    → get batch_id (consume_batch_at limits id discovery_id item_ids now m).1 ≡ none
unfolding consume_batch_at continue
consume-absent batch_id limits id discovery_id item_ids now m h = ground (
  arith,
  get-retain (λ (s : StoredBatch). ltb now s.expires_at) batch_id m,
  get-remove id batch_id (current_batches now m),
)

create-absent :
    (batch_id : Text) (limits : NamingBatchRegistryLimits) (io : BatchIo) (discovery_id : Text)
    (sources : List ReviewedSource) (inputs : List NamingItemInput) (occupied : Map (List Text))
    (now wall_time : ℕ) (m : Map StoredBatch)
    → ((batch : NamingBatch)
        → (create_at limits io discovery_id sources inputs occupied now wall_time m).0 ≡ ok batch
        → text_eq batch.batch_id batch_id ≡ false)
    → get batch_id m ≡ none
    → get batch_id (create_at limits io discovery_id sources inputs occupied now wall_time m).1
      ≡ none
unfolding create_at continue
create-absent batch_id limits io discovery_id sources inputs occupied now wall_time m other h =
    let kept = get-retain (λ (s : StoredBatch). ltb now s.expires_at) batch_id m in
    elim (Result-cases
      (create_at limits io discovery_id sources inputs occupied now wall_time m).0) [
        | inr (e, failed) ↦ ground (arith, kept)
        | inl (batch, made) ↦
            let differs = other batch made in
            ground (
              arith,
              kept,
              get-insert batch.batch_id batch_id
                  (record { expires_at = now + limits.ttl; batch = batch }) (current_batches now m),
            )
      ]

Later-absent :
    (batch_id : Text) (end m : Map StoredBatch)
    → Later batch_id end m
    → get batch_id m ≡ none
    → get batch_id end ≡ none
Later-absent batch_id end m stays h = h
Later-absent batch_id end m (consumes limits id discovery_id item_ids now rest) h =
    Later-absent batch_id end (consume_batch_at limits id discovery_id item_ids now m).1 rest
      (consume-absent batch_id limits id discovery_id item_ids now m h)
Later-absent batch_id end m
      (creates limits io discovery_id sources inputs occupied now wall_time other rest) h =
    Later-absent batch_id end
      (create_at limits io discovery_id sources inputs occupied now wall_time m).1 rest
      (create-absent batch_id limits io discovery_id sources inputs occupied now wall_time m other
        h)

absent-refused :
    (limits : NamingBatchRegistryLimits) (batch_id discovery_id : Text) (item_ids : List Text)
    (now : ℕ) (m : Map StoredBatch)
    → get batch_id m ≡ none
    → is_ok (consume_batch_at limits batch_id discovery_id item_ids now m).0 ≡ false
unfolding consume_batch_at continue
absent-refused limits batch_id discovery_id item_ids now m h =
    ground (arith, get-retain (λ (s : StoredBatch). ltb now s.expires_at) batch_id m)

consumed-absent :
    (limits : NamingBatchRegistryLimits) (batch_id discovery_id : Text) (item_ids : List Text)
    (now : ℕ) (m : Map StoredBatch) {batch : NamingBatch}
    → (consume_batch_at limits batch_id discovery_id item_ids now m).0 ≡ ok batch
    → get batch_id (consume_batch_at limits batch_id discovery_id item_ids now m).1 ≡ none
unfolding consume_batch_at continue
consumed-absent limits batch_id discovery_id item_ids now m h =
    ground (arith, get-remove batch_id batch_id (current_batches now m), text_eq_refl batch_id)

-- A batch that was consumed is not consumed again: whatever batches are consumed, and created under
-- other ids, after that, a call under its id returns none. A call that fails leaves under every id
-- what has not expired, so that a wrong selection does not use a batch up.
pub consume_batch_at-once :
    (limits : NamingBatchRegistryLimits) (batch_id discovery_id : Text) (item_ids : List Text)
    (now : ℕ) (m : Map StoredBatch)
    → ((batch : NamingBatch)
        → (consume_batch_at limits batch_id discovery_id item_ids now m).0 ≡ ok batch
        → (end : Map StoredBatch)
        → Later batch_id end (consume_batch_at limits batch_id discovery_id item_ids now m).1
        → (other_id : Text) (other_ids : List Text) (later : ℕ)
        → is_ok (consume_batch_at limits batch_id other_id other_ids later end).0 ≡ false)
      × ((e : BatchError)
          → (consume_batch_at limits batch_id discovery_id item_ids now m).0 ≡ err e
          → (j : Text) (stored : StoredBatch) → get j m ≡ some stored
          → now < stored.expires_at
          → get j (consume_batch_at limits batch_id discovery_id item_ids now m).1 ≡ some stored)
unfolding consume_batch_at continue
consume_batch_at-once limits batch_id discovery_id item_ids now m = (
  λ batch h end after other_id other_ids later.
      absent-refused limits batch_id other_id other_ids later end (
        Later-absent batch_id end (consume_batch_at limits batch_id discovery_id item_ids now m).1
          after (consumed-absent limits batch_id discovery_id item_ids now m h)),
  λ e h j stored present current.
      ground (arith, get-retain (λ (s : StoredBatch). ltb now s.expires_at) j m),
)
