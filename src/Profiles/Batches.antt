-- ===== src/Profiles/Batches.antt =====
-- profiles/classification.rs: `ClassificationBatchRegistry`, which holds the proposals of a reviewed
-- selection until a plan consumes them. `create_semantic_at` is not modelled.
pub mod Registry
pub mod Creating
use aiknowledge_sort_mit.Prelude.{
  ℕ, suc, ◌+◌, ◌*◌, ◌==◌, Bool, not, ◌&&◌, ◌||◌, Option, none, some, List, [], ◌∷◌, map, Text, ltb,
  leb, length, is_empty, is_some, any, all, byte_len, utf8, text_eq, text_le, member, distinct,
  is_ascii_lowercase, is_ascii_digit, sort_by, Result, ok, ◌>>=◌, ◌>>◌, fail_if, ok_or, map_err,
}
use aiknowledge_sort_mit.Prelude.Maps.{Map, get, insert, remove, retain, contains_key}
use aiknowledge_sort_mit.Identity.{IdentityError, validate_identity}
use aiknowledge_sort_mit.Discovery.Proposals.{ReviewedSource}
use aiknowledge_sort_mit.Naming.Batches.{BatchError, batch_expiry, same_set}
use aiknowledge_sort_mit.Profiles.Schema.{DeclarativeProfile, ProfileError}
use aiknowledge_sort_mit.Profiles.Taxonomy.{validate_profile}
use aiknowledge_sort_mit.Profiles.Evidence.{
  EvidenceReference, ClassificationProposal, ClassifyError, is_approved,
}
use aiknowledge_sort_mit.Profiles.Proposing.{classify}

abbrev pub max_classification_id_bytes : ℕ
max_classification_id_bytes = 128

pub record ClassificationItemInput : Type 0 where
  pub item_id : Text
  pub references : List EvidenceReference
  pub semantic_comparison_id : Option Text

pub record ClassificationBatchItem : Type 0 where
  pub item_id : Text
  pub proposal : ClassificationProposal

pub record ClassificationBatch : Type 0 where
  pub batch_id : Text
  pub discovery_proposal_id : Text
  pub profile_id : Text
  pub profile_version : Text
  pub expires_at_unix_ms : ℕ
  pub items : List ClassificationBatchItem

pub record StoredClassification : Type 0 where
  pub expires_at : ℕ
  pub batch : ClassificationBatch

-- The time to live of `ClassificationBatchRegistry::default`.
abbrev pub default_classification_ttl : ℕ
default_classification_ttl = 5 * 60 * 1_000_000_000

pub data ClassificationError : Type 0 where
  classification_id_invalid profile_not_approved classification_size : ClassificationError
  duplicate_reviewed_sources inputs_not_selection semantic_input source_missing :
      ClassificationError
  too_many_classifications classification_selection unknown_classification : ClassificationError
  classification_mismatched : ClassificationError
  batch_profile : ProfileError → ClassificationError
  reviewed_identity : IdentityError → ClassificationError
  not_classified : ClassifyError → ClassificationError
  classification_expiry : BatchError → ClassificationError

abbrev pub valid_classification_id : Text → Bool
valid_classification_id value = not (
    is_empty value
    || ltb max_classification_id_bytes (byte_len value)
    || not (
        all (λ byte. is_ascii_lowercase byte || is_ascii_digit byte || byte == b'-' || byte == b'_')
          (utf8 value)))

abbrev pub validate_classification_id : Text → Result ClassificationError (Unit {0})
validate_classification_id value =
    fail_if (not (valid_classification_id value)) classification_id_invalid

-- The loop that builds `source_by_id`.
unfoldable pub reviewed_by_id :
    Map ReviewedSource → List ReviewedSource → Result ClassificationError (Map ReviewedSource)
reviewed_by_id done [] = ok done
reviewed_by_id done (source ∷ sources) = do
  validate_classification_id source.item_id
  map_err reviewed_identity (validate_identity source.identity)
  fail_if (contains_key source.item_id done) duplicate_reviewed_sources
  reviewed_by_id (insert source.item_id source done) sources

abbrev pub classified_ids : List ClassificationItemInput → List Text
classified_ids = map (λ input. input.item_id)

-- What the platform supplies: lowercase letters, the Unix epoch, the UUIDs of the proposals and that
-- of the batch.
pub record ClassificationIo : Type 0 where
  pub to_lowercase : Text → Text
  pub unix_epoch : ℕ
  pub draws : ℕ → Text
  pub batch_id : Text

-- The loop over the inputs; `n` is the number of the proposals made.
unfoldable pub classify_all :
    ClassificationIo
    → DeclarativeProfile
    → ℕ
    → Map ReviewedSource
    → List ClassificationItemInput
    → Result ClassificationError (List ClassificationBatchItem)
classify_all io profile n sources [] = ok []
classify_all io profile n sources (input ∷ inputs) = do
  fail_if (is_some input.semantic_comparison_id) semantic_input
  source ← ok_or (get input.item_id sources) source_missing
  proposal ← map_err not_classified (
      classify io.to_lowercase (io.draws n) profile
        (record { source_identity = source.identity; references = input.references }))
  rest ← classify_all io profile (suc n) (remove input.item_id sources) inputs
  ok (record { item_id = input.item_id; proposal = proposal } ∷ rest)

abbrev pub item_le : ClassificationBatchItem → ClassificationBatchItem → Bool
item_le left right = text_le left.item_id right.item_id

-- `create_at` up to `store_batch`.
unfoldable pub classify_selection :
    ClassificationIo
    → Text
    → DeclarativeProfile
    → List ReviewedSource
    → List ClassificationItemInput
    → Result ClassificationError (List ClassificationBatchItem)
classify_selection io discovery_proposal_id profile sources inputs = do
  validate_classification_id discovery_proposal_id
  map_err batch_profile (validate_profile profile)
  fail_if (not (is_approved profile.status)) profile_not_approved
  fail_if (is_empty inputs || ltb 1_000 (length inputs) || not (length inputs == length sources))
      classification_size
  by_id ← reviewed_by_id [] sources
  fail_if
      (not (distinct (classified_ids inputs))
        || not (length inputs == length by_id)
        || any (λ item_id. not (contains_key item_id by_id)) (classified_ids inputs))
      inputs_not_selection
  items ← classify_all io profile 0 by_id inputs
  ok (sort_by item_le items)
