-- ===== src/Archive/Plans.antt =====
-- archive/plan.rs: the items of a plan, from the reviewed sources and the two batches of proposals.
pub mod Registry
pub mod Consuming
pub mod Items
pub mod Creating
pub mod Layout
mod Witnesses
use aiknowledge_sort_mit.Prelude.{
  ℕ, ◌+◌, ◌*◌, ◌==◌, Bool, true, false, not, ◌&&◌, ◌||◌, Option, none, some, List, [], ◌∷◌, ◌++◌,
  map, Text, codes, ltb, leb, length, is_empty, is_some, any, all, byte_len, utf8, text_eq, text_le,
  member, is_ascii_digit, is_ascii_lowercase, is_control, to_ascii_uppercase, sort_by, Result, ok,
  err, ◌>>=◌, ◌>>◌, fail_if, ok_or, map_err, if◌then◌else◌,
}
use aiknowledge_sort_mit.Prelude.Maps.{Map, get, insert, remove, from_list}
use aiknowledge_sort_mit.Prelude.Paths.{
  Component, root_component, current_component, parent_component, normal_component, components,
  is_normal,
}
use aiknowledge_sort_mit.Identity.{ContentIdentity, IdentityError, validate_identity, identity_eq}
use aiknowledge_sort_mit.Discovery.Proposals.{ReviewedSource}
use aiknowledge_sort_mit.Naming.Schema.{
  NamingStatus, NamingProposal, NamingDecisionEvidence, canonical_policy,
}
use aiknowledge_sort_mit.Naming.Normalize.{is_windows_reserved, before_first, ends_with_any}
use aiknowledge_sort_mit.Naming.Batches.{NamingBatch, BatchError}
use aiknowledge_sort_mit.Profiles.Schema.{is_reserved_character}
use aiknowledge_sort_mit.Profiles.Evidence.{
  ProposalStatus, destination_proposed, classification_review, ClassificationProposal,
}
use aiknowledge_sort_mit.Profiles.Batches.{ClassificationBatch, ClassificationBatchItem}

abbrev pub plan_version : ℕ
plan_version = 2

abbrev pub max_plan_id_bytes : ℕ
max_plan_id_bytes = 128

pub record ArchivePlanItem : Type 0 where
  pub item_id : Text
  pub source_path : Text
  pub destination_path : Text
  pub original_name : Text
  pub canonical_name : Text
  pub naming : NamingDecisionEvidence
  pub classification : Option ClassificationProposal
  pub byte_size : ℕ
  pub identity : ContentIdentity

pub record ArchivePlan : Type 0 where
  pub plan_id : Text
  pub version : ℕ
  pub proposal_id : Text
  pub naming_batch_id : Text
  pub classification_batch_id : Option Text
  pub authority_id : Text
  pub vault_path : Text
  pub expires_at_unix_ms : ℕ
  pub confirmation_nonce : Text
  pub source_preserved : Bool
  pub items : List ArchivePlanItem

pub record PlanRegistryLimits : Type 0 where
  pub max_plans : ℕ
  pub max_items : ℕ
  pub ttl : ℕ

-- `PlanRegistryLimits::default`.
abbrev pub default_plan_limits : PlanRegistryLimits
default_plan_limits = record { max_plans = 32; max_items = 1_000; ttl = 5 * 60 * 1_000_000_000 }

pub record StoredPlan : Type 0 where
  pub expires_at : ℕ
  pub plan : ArchivePlan

pub data VaultStatus : Type 0 where
  authoritative : VaultStatus

pub record VaultSummary : Type 0 where
  pub authority_id : Text
  pub display_path : Text
  pub status : VaultStatus

pub data PlanError : Type 0 where
  plan_id_invalid naming_other_proposal naming_policy plan_selection : PlanError
  duplicate_naming_items classification_other_proposal classification_unfit : PlanError
  duplicate_plan_items naming_missing naming_unapproved naming_needs_review : PlanError
  name_unsafe name_reserved duplicate_destinations classification_missing : PlanError
  classification_identity too_many_plans unknown_plan confirmation_mismatch : PlanError
  plan_identity : IdentityError → PlanError
  plan_expiry : BatchError → PlanError

abbrev pub valid_plan_id : Text → Bool
valid_plan_id value = not (is_empty value || ltb max_plan_id_bytes (byte_len value))

abbrev pub validate_plan_id : Text → Result PlanError (Unit {0})
validate_plan_id value = fail_if (not (valid_plan_id value)) plan_id_invalid

-- `classification_binding_valid`.
abbrev pub binding_valid : List Text → Option Text → Bool
binding_valid [] (some value) =
    byte_len value == 32
    && all (λ byte. is_ascii_lowercase byte || is_ascii_digit byte) (utf8 value)
binding_valid (_ ∷ _) (some value) = false
binding_valid rules none = not (is_empty rules)

abbrev pub is_one_normal : List Component → Bool
is_one_normal (normal_component _ ∷ []) = true
is_one_normal _ = false

unfoldable pub validate_plan_name : Text → Result PlanError (Unit {0})
validate_plan_name name = do
  fail_if
      (is_empty name
        || ltb 255 (byte_len name)
        || not (is_one_normal (components name))
        || ends_with_any (b' ' ∷ b'.' ∷ []) name
        || any (λ c. is_control c || is_reserved_character c) name)
      name_unsafe
  fail_if (is_windows_reserved (to_ascii_uppercase (before_first b'.' name))) name_reserved

abbrev pub is_proposed : NamingStatus → Bool
is_proposed NamingStatus.proposed = true
is_proposed NamingStatus.naming_review = false

abbrev pub is_destination_proposed : ProposalStatus → Bool
is_destination_proposed destination_proposed = true
is_destination_proposed classification_review = false

-- `format!("Originals/{}/{}", digest, canonical_name)`.
abbrev pub destination_of : Text → Text → Text
destination_of digest canonical_name =
    codes "Originals" ++ (b'/' ∷ (digest ++ (b'/' ∷ canonical_name)))

abbrev pub is_fit : ClassificationBatch → ClassificationProposal → Bool
is_fit batch proposal =
    text_eq proposal.profile_id batch.profile_id
    && text_eq proposal.profile_version batch.profile_version
    && is_destination_proposed proposal.status
    && proposal.committable
    && is_some proposal.destination
    && not (is_empty proposal.evidence)
    && binding_valid proposal.rule_ids proposal.semantic_decision_id

abbrev pub naming_entries : NamingBatch → List (Text × NamingProposal)
naming_entries batch = map (λ (p : NamingProposal). (p.item_id, p)) batch.proposals

abbrev pub classification_entries : ClassificationBatch → List (Text × ClassificationProposal)
classification_entries batch =
    map (λ (i : ClassificationBatchItem). (i.item_id, i.proposal)) batch.items

-- The map of the classifications of a batch, checked against the selection.
unfoldable pub classifications_of :
    Text → ℕ → Option ClassificationBatch → Result PlanError (Option (Map ClassificationProposal))
classifications_of proposal_id count none = ok none
classifications_of proposal_id count (some batch) = do
  validate_plan_id batch.batch_id
  fail_if
      (not (text_eq batch.discovery_proposal_id proposal_id) || not (length batch.items == count))
      classification_other_proposal
  let proposals = from_list (classification_entries batch)
  fail_if (not (length proposals == count) || any (λ entry. not (is_fit batch entry.1)) proposals)
      classification_unfit
  ok (some proposals)

abbrev pub is_approved_for : NamingBatch → ReviewedSource → NamingProposal → Bool
is_approved_for batch source proposal =
    is_proposed proposal.status
    && not (is_some proposal.review_reason)
    && text_eq proposal.original_name source.name
    && identity_eq proposal.identity source.identity
    && text_eq proposal.policy_id batch.policy_id
    && text_eq proposal.policy_version batch.policy_version

-- The classification of a source, which the loop takes out of the map.
unfoldable pub take_classification :
    Option (Map ClassificationProposal)
    → ReviewedSource
    → Result PlanError (Option ClassificationProposal)
take_classification none source = ok none
take_classification (some proposals) source = do
  proposal ← ok_or (get source.item_id proposals) classification_missing
  fail_if (not (identity_eq proposal.source_identity source.identity)) classification_identity
  ok (some proposal)

abbrev pub without_classification :
    Text → Option (Map ClassificationProposal) → Option (Map ClassificationProposal)
without_classification item_id none = none
without_classification item_id (some proposals) = some (remove item_id proposals)

abbrev pub plan_item :
    ReviewedSource → NamingProposal → Text → Option ClassificationProposal → ArchivePlanItem
plan_item source proposal canonical_name classification = record {
  item_id = source.item_id;
  source_path = source.path;
  destination_path = destination_of source.identity.digest canonical_name;
  original_name = source.name;
  canonical_name = canonical_name;
  naming = record {
    naming_proposal_id = proposal.proposal_id;
    original_name = source.name;
    canonical_name = canonical_name;
    policy_id = proposal.policy_id;
    policy_version = proposal.policy_version;
    applied_rule = proposal.applied_rule;
    facts = proposal.facts;
  };
  classification = classification;
  byte_size = source.byte_size;
  identity = source.identity;
}

-- The loop over the sources: the ids and the destinations seen, and what is left of the two maps.
unfoldable pub plan_items :
    NamingBatch
    → List Text
    → List Text
    → Map NamingProposal
    → Option (Map ClassificationProposal)
    → List ReviewedSource
    → Result PlanError (List ArchivePlanItem)
plan_items batch seen_ids seen_destinations proposals classifications [] = ok []
plan_items batch seen_ids seen_destinations proposals classifications (source ∷ sources) = do
  validate_plan_id source.item_id
  fail_if (member source.item_id seen_ids) duplicate_plan_items
  map_err plan_identity (validate_identity source.identity)
  proposal ← ok_or (get source.item_id proposals) naming_missing
  fail_if (not (is_approved_for batch source proposal)) naming_unapproved
  canonical_name ← ok_or proposal.canonical_name naming_needs_review
  validate_plan_name canonical_name
  let destination = destination_of source.identity.digest canonical_name
  fail_if (member destination seen_destinations) duplicate_destinations
  classification ← take_classification classifications source
  rest ←
      plan_items batch (source.item_id ∷ seen_ids) (destination ∷ seen_destinations)
        (remove source.item_id proposals) (without_classification source.item_id classifications)
        sources
  ok (plan_item source proposal canonical_name classification ∷ rest)

abbrev pub plan_item_le : ArchivePlanItem → ArchivePlanItem → Bool
plan_item_le left right = text_le left.item_id right.item_id

-- `create_with_classification_at` up to the expiry.
unfoldable pub checked_items :
    PlanRegistryLimits
    → Text
    → List ReviewedSource
    → Option ClassificationBatch
    → NamingBatch
    → VaultSummary
    → Result PlanError (List ArchivePlanItem)
checked_items limits proposal_id sources classification_batch naming_batch vault = do
  validate_plan_id proposal_id
  validate_plan_id naming_batch.batch_id
  fail_if (not (text_eq naming_batch.discovery_proposal_id proposal_id)) naming_other_proposal
  fail_if
      (not (text_eq naming_batch.policy_id canonical_policy.policy_id)
        || not (text_eq naming_batch.policy_version canonical_policy.policy_version))
      naming_policy
  fail_if
      (is_empty sources
        || ltb limits.max_items (length sources)
        || not (length sources == length naming_batch.proposals))
      plan_selection
  validate_plan_id vault.authority_id
  let proposals = from_list (naming_entries naming_batch)
  fail_if (not (length proposals == length sources)) duplicate_naming_items
  classifications ← classifications_of proposal_id (length sources) classification_batch
  items ← plan_items naming_batch [] [] proposals classifications sources
  ok (sort_by plan_item_le items)
