-- ===== src/Naming/Batches.antt =====
-- naming/registry.rs: `NamingBatchRegistry`, which holds a batch of proposals until it is consumed.
pub mod Registry
pub mod Consuming
pub mod Creating
use aiknowledge_sort_mit.Prelude.{
  ℕ, ◌+◌, ◌*◌, ◌-◌, ◌/◌, ◌^◌, ◌==◌, Bool, true, false, not, ◌||◌, ◌&&◌, Option, none, some, List,
  [], ◌∷◌, map, Text, codes, ltb, leb, length, is_empty, is_some, any, all, byte_len, text_eq,
  text_le, member, distinct, sort_by, Result, ok, err, ◌>>=◌, ◌>>◌, fail_if, ok_or, map_err,
  if◌then◌else◌,
}
use aiknowledge_sort_mit.Prelude.Maps.{Map, get, insert, remove, contains_key}
use aiknowledge_sort_mit.Identity.{IdentityError, validate_identity}
use aiknowledge_sort_mit.Discovery.Proposals.{ReviewedSource}
use aiknowledge_sort_mit.Naming.Schema.{
  NamingFact, NamingRequest, NamingProposal, NamingError, canonical_policy,
}
use aiknowledge_sort_mit.Naming.Normalize.{Tables}
use aiknowledge_sort_mit.Naming.Proposing.{propose_name}

abbrev pub max_opaque_id_bytes : ℕ
max_opaque_id_bytes = 128

pub record NamingItemInput : Type 0 where
  pub item_id : Text
  pub facts : List NamingFact

pub record NamingBatch : Type 0 where
  pub batch_id : Text
  pub discovery_proposal_id : Text
  pub policy_id : Text
  pub policy_version : Text
  pub expires_at_unix_ms : ℕ
  pub proposals : List NamingProposal

pub record NamingBatchRegistryLimits : Type 0 where
  pub max_batches : ℕ
  pub max_items : ℕ
  pub max_occupied_names : ℕ
  pub ttl : ℕ

-- `NamingBatchRegistryLimits::default`.
abbrev pub default_batch_limits : NamingBatchRegistryLimits
default_batch_limits = record {
  max_batches = 32;
  max_items = 1_000;
  max_occupied_names = 10_000;
  ttl = 5 * 60 * 1_000_000_000;
}

pub record StoredBatch : Type 0 where
  pub expires_at : ℕ
  pub batch : NamingBatch

pub data BatchError : Type 0 where
  id_invalid batch_size duplicate_sources inputs_mismatched namespace_unknown : BatchError
  occupied_overflow too_many_occupied input_unknown clock_before_epoch expiry_overflow
        expiry_out_of_range :
      BatchError
  too_many_batches selection_size selection_duplicates unknown_batch batch_mismatched : BatchError
  source_identity : IdentityError → BatchError
  name_error : NamingError → BatchError

abbrev pub validate_opaque_id : Text → Result BatchError (Unit {0})
validate_opaque_id value =
    fail_if (is_empty value || ltb max_opaque_id_bytes (byte_len value)) id_invalid

-- The map `source_by_id`, built by the loop over the sources.
unfoldable pub sources_by_id :
    Map ReviewedSource → List ReviewedSource → Result BatchError (Map ReviewedSource)
sources_by_id done [] = ok done
sources_by_id done (source ∷ sources) = do
  validate_opaque_id source.item_id
  map_err source_identity (validate_identity source.identity)
  fail_if (contains_key source.item_id done) duplicate_sources
  sources_by_id (insert source.item_id source done) sources

abbrev pub input_ids : List NamingItemInput → List Text
input_ids = map (λ input. input.item_id)

-- `checked_add` over the lists of names, in a `usize`.
unfoldable pub occupied_count : ℕ → Map (List Text) → Option ℕ
occupied_count count [] = some count
occupied_count count ((item_id, names) ∷ rest) =
    if ltb (count + length names) (2 ^ 64) then occupied_count (count + length names) rest else none

abbrev pub or_no_names : Option (List Text) → List Text
or_no_names none = []
or_no_names (some names) = names

-- The loop over the inputs, in which each takes its source out of the map.
unfoldable pub propose_all :
    Tables
    → Map (List Text)
    → Map ReviewedSource
    → List NamingItemInput
    → Result BatchError (List NamingProposal)
propose_all u occupied sources [] = ok []
propose_all u occupied sources (input ∷ inputs) = do
  source ← ok_or (get input.item_id sources) input_unknown
  proposal ← map_err name_error (
      propose_name u canonical_policy (record {
        item_id = source.item_id;
        original_name = source.name;
        identity = source.identity;
        facts = input.facts;
        occupied_names = or_no_names (get input.item_id occupied);
      }))
  rest ← propose_all u occupied (remove input.item_id sources) inputs
  ok (proposal ∷ rest)

abbrev pub proposal_le : NamingProposal → NamingProposal → Bool
proposal_le left right = text_le left.item_id right.item_id

-- Milliseconds of the Unix time `ttl` after `wall_time`; the Unix epoch is a parameter, and the
-- seconds of a `Duration` and the result are each a `u64`.
unfoldable pub batch_expiry : ℕ → ℕ → ℕ → Result BatchError ℕ
batch_expiry unix_epoch wall_time ttl = do
  fail_if (ltb wall_time unix_epoch) clock_before_epoch
  fail_if (leb (2 ^ 64) ((wall_time - unix_epoch + ttl) / 1_000_000_000)) expiry_overflow
  let milliseconds = (wall_time - unix_epoch + ttl) / 1_000_000
  fail_if (leb (2 ^ 64) milliseconds) expiry_out_of_range
  ok milliseconds

abbrev pub keys : {V : Type 0} → Map V → List Text
keys = map (λ entry. entry.0)

-- `create_at` up to the proposals.
unfoldable pub check_inputs :
    NamingBatchRegistryLimits
    → Text
    → List ReviewedSource
    → List NamingItemInput
    → Map (List Text)
    → Result BatchError (Map ReviewedSource)
check_inputs limits discovery_proposal_id sources inputs occupied = do
  validate_opaque_id discovery_proposal_id
  fail_if
      (is_empty inputs
        || ltb limits.max_items (length inputs)
        || not (length sources == length inputs))
      batch_size
  by_id ← sources_by_id [] sources
  fail_if
      (not (distinct (input_ids inputs))
        || not (length inputs == length by_id)
        || any (λ item_id. not (contains_key item_id by_id)) (input_ids inputs))
      inputs_mismatched
  fail_if (any (λ item_id. not (member item_id (input_ids inputs))) (keys occupied))
      namespace_unknown
  count ← ok_or (occupied_count 0 occupied) occupied_overflow
  fail_if (ltb limits.max_occupied_names count) too_many_occupied
  ok by_id

abbrev pub proposal_ids : NamingBatch → List Text
proposal_ids batch = map (λ proposal. proposal.item_id) batch.proposals

-- Equality of the sets of two lists.
unfoldable pub same_set : List Text → List Text → Bool
same_set xs ys = all (λ x. member x ys) xs && all (λ y. member y xs) ys
