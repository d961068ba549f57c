-- ===== src/Discovery/Proposals.antt =====
-- discovery/proposal.rs: the registry of reviewed sources. An `Instant` is a number of nanoseconds.
-- The lock is held for a whole call: a call is one step on the map.
pub mod Registry
pub mod Reviewing
pub mod RoundTrip
pub mod Acceptance
use aiknowledge_sort_mit.Prelude.{
  ℕ, ◌+◌, ◌*◌, ◌==◌, Bool, true, false, not, ◌||◌, Option, none, some, List, [], ◌∷◌, Text, ltb,
  leb, length, is_empty, byte_len, member, distinct, Result, ok, err, ◌>>=◌, ◌>>◌, fail_if, ok_or,
  map_err, if◌then◌else◌,
}
use aiknowledge_sort_mit.Prelude.Maps.{Map, get, insert, retain}
use aiknowledge_sort_mit.Identity.{ContentIdentity, IdentityError, validate_identity}
use aiknowledge_sort_mit.Discovery.Roots.{DiagnosticCategory}

pub record DiscoveredItem : Type 0 where
  pub item_id : Text
  pub path : Text
  pub name : Text
  pub byte_size : ℕ
  pub identity : ContentIdentity

pub record DiscoveryCounts : Type 0 where
  pub included : ℕ
  pub excluded : ℕ
  pub unreadable : ℕ
  pub symlink : ℕ
  pub out_of_scope : ℕ

pub record DiscoveryDiagnostic : Type 0 where
  pub category : DiagnosticCategory
  pub path : Text
  pub message : Text

pub record DiscoveryProposal : Type 0 where
  pub proposal_id : Text
  pub items : List DiscoveredItem
  pub counts : DiscoveryCounts
  pub diagnostics : List DiscoveryDiagnostic

abbrev pub max_proposal_id_bytes : ℕ
max_proposal_id_bytes = 128

abbrev pub max_item_id_bytes : ℕ
max_item_id_bytes = 128

pub record ProposalRegistryLimits : Type 0 where
  pub max_proposals : ℕ
  pub max_items : ℕ
  pub ttl : ℕ

-- `ProposalRegistryLimits::default`.
abbrev pub default_proposal_limits : ProposalRegistryLimits
default_proposal_limits = record {
  max_proposals = 32;
  max_items = 10_000;
  ttl = 15 * 60 * 1_000_000_000;
}

-- `PathBuf::from` keeps the text of the path.
pub record ReviewedSource : Type 0 where
  pub item_id : Text
  pub path : Text
  pub name : Text
  pub byte_size : ℕ
  pub identity : ContentIdentity

pub record ReviewedProposal : Type 0 where
  pub expires_at : ℕ
  pub items : Map ReviewedSource

pub data ProposalError : Type 0 where
  already_registered item_count_invalid item_id_invalid too_many_proposals : ProposalError
  proposal_id_invalid selection_size selection_duplicates unknown_proposal : ProposalError
  item_not_reviewed : ProposalError
  identity_invalid : IdentityError → ProposalError

abbrev pub reviewed_source : DiscoveredItem → ReviewedSource
reviewed_source item = record {
  item_id = item.item_id;
  path = item.path;
  name = item.name;
  byte_size = item.byte_size;
  identity = item.identity;
}

-- The loop over the items: `ids` is the set of the ids met, `reviewed` the map built so far.
unfoldable pub review_items :
    List Text → Map ReviewedSource → List DiscoveredItem → Result ProposalError (Map ReviewedSource)
review_items ids reviewed [] = ok reviewed
review_items ids reviewed (item ∷ items) = do
  fail_if
      (is_empty item.item_id
        || ltb max_item_id_bytes (byte_len item.item_id)
        || member item.item_id ids)
      item_id_invalid
  map_err identity_invalid (validate_identity item.identity)
  review_items (item.item_id ∷ ids) (insert item.item_id (reviewed_source item) reviewed) items

-- `register_at` up to the lock.
unfoldable pub review :
    ProposalRegistryLimits → DiscoveryProposal → Result ProposalError (Map ReviewedSource)
review limits proposal = do
  fail_if (not (is_empty proposal.proposal_id)) already_registered
  fail_if
      (ltb limits.max_items (length proposal.items)
        || not (proposal.counts.included == length proposal.items))
      item_count_invalid
  review_items [] [] proposal.items

-- `retain(|_, registered| registered.expires_at > now)`.
abbrev pub current_proposals : ℕ → Map ReviewedProposal → Map ReviewedProposal
current_proposals now = retain (λ registered. ltb now registered.expires_at)

-- `resolve_selection_at` up to the lock.
unfoldable pub check_selection :
    ProposalRegistryLimits → Text → List Text → Result ProposalError (Unit {0})
check_selection limits proposal_id item_ids = do
  fail_if (is_empty proposal_id || ltb max_proposal_id_bytes (byte_len proposal_id))
      proposal_id_invalid
  fail_if (is_empty item_ids || ltb limits.max_items (length item_ids)) selection_size
  fail_if (not (distinct item_ids)) selection_duplicates

-- The `collect` into a result: the first missing item is the error.
unfoldable pub select_items :
    Map ReviewedSource → List Text → Result ProposalError (List ReviewedSource)
select_items items [] = ok []
select_items items (item_id ∷ item_ids) = do
  source ← ok_or (get item_id items) item_not_reviewed
  sources ← select_items items item_ids
  ok (source ∷ sources)
