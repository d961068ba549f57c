-- ===== src/Discovery/Proposals/RoundTrip.antt =====
-- discovery/proposal.rs: `register_at` and `resolve_selection_at` together.
use aiknowledge_sort_mit.Prelude.{
  ℕ, ◌+◌, ◌≤◌, ◌<◌, ◌≡◌, false, some, List, [], Text, arith, inl, inr, Result-cases, ok,
  if◌then◌else◌, length, ltb, text_eq, text_eq_refl, text_eq→eq,
}
use aiknowledge_sort_mit.Prelude.Maps.{
  Map, get, get-insert, get-retain, length-insert, length-retain,
}
use aiknowledge_sort_mit.Prelude.Draws.{unique_id, DrawsDiffer}
use aiknowledge_sort_mit.Prelude.Draws.Fresh.{unique_id-new}
use aiknowledge_sort_mit.Prelude.Execs.{continue}
use aiknowledge_sort_mit.Discovery.Proposals.{
  DiscoveryProposal, ProposalRegistryLimits, ReviewedSource, ReviewedProposal, review, review_items,
  check_selection, current_proposals,
}
use aiknowledge_sort_mit.Discovery.Proposals.Registry.{register_at, resolve_selection_at}
use aiknowledge_sort_mit.Discovery.Proposals.Reviewing.{reviewed_items, select_items-reviewed_items}

review-items :
    (limits : ProposalRegistryLimits) (proposal : DiscoveryProposal) {items : Map ReviewedSource}
    → review limits proposal ≡ ok items
    → review_items [] [] proposal.items ≡ ok items
unfolding review
review-items limits proposal h = ground arith

pub record Registered (limits : ProposalRegistryLimits) (draws : ℕ → Text)
    (proposal : DiscoveryProposal) (now : ℕ) (before after : Map ReviewedProposal)
    (registered : DiscoveryProposal) : Type 0 where
  pub items : Map ReviewedSource
  pub reviewed : review limits proposal ≡ ok items
  pub room : length (current_proposals now before) < limits.max_proposals
  pub named : registered.proposal_id ≡ unique_id draws (current_proposals now before)
  pub stored :
      (j : Text)
      → get j after ≡ (
          if text_eq registered.proposal_id j
          then some (record { expires_at = now + limits.ttl; items = items })
          else get j (current_proposals now before))

pub register_at-Registered :
    (limits : ProposalRegistryLimits) (draws : ℕ → Text) (proposal : DiscoveryProposal) (now : ℕ)
    (m : Map ReviewedProposal) {registered : DiscoveryProposal}
    → (register_at limits draws proposal now m).0 ≡ ok registered
    → Registered limits draws proposal now m (register_at limits draws proposal now m).1 registered
unfolding register_at continue
register_at-Registered limits draws proposal now m h =
    elim (Result-cases (review limits proposal)) [
      | inr (e, failed) ↦ absurd (ground arith)
      | inl (items, reviewed) ↦ record {
        items = items;
        reviewed = reviewed;
        room = ground arith;
        named = ground arith;
        stored = λ j. ground (
          arith,
          get-insert (unique_id draws (current_proposals now m)) j
              (record { expires_at = now + limits.ttl; items = items }) (current_proposals now m),
        );
      }
    ]

-- A proposal that was registered resolves, until its time to live is over, each selection that
-- passes the checks to the sources of the proposal's items of these ids, in the selection's order,
-- and to an error when an id is no item's.
pub register_at-resolve_selection_at :
    (limits : ProposalRegistryLimits) (draws : ℕ → Text) (proposal : DiscoveryProposal)
    (now later : ℕ) (item_ids : List Text) (m : Map ReviewedProposal)
    {registered : DiscoveryProposal}
    → (register_at limits draws proposal now m).0 ≡ ok registered
    → check_selection limits registered.proposal_id item_ids ≡ ok tt
    → later < now + limits.ttl
    → (resolve_selection_at limits registered.proposal_id item_ids later
        (register_at limits draws proposal now m).1).0
      ≡ reviewed_items proposal.items item_ids
unfolding resolve_selection_at continue
register_at-resolve_selection_at limits draws proposal now later item_ids m {registered} h checked
      current =
    let after = (register_at limits draws proposal now m).1 in
    let r = register_at-Registered limits draws proposal now m h in
    ground (
      arith,
      get-retain (λ p. ltb later p.expires_at) registered.proposal_id after,
      r.stored registered.proposal_id,
      text_eq_refl registered.proposal_id,
      select_items-reviewed_items proposal.items item_ids (review-items limits proposal r.reviewed),
    )

-- When the UUIDs drawn differ, a registration replaces no proposal that has not expired: what was
-- stored under an id and is current stays stored, and the new id is another one.
pub register_at-keeps :
    (limits : ProposalRegistryLimits) (draws : ℕ → Text) (proposal : DiscoveryProposal) (now : ℕ)
    (m : Map ReviewedProposal) (j : Text) {registered : DiscoveryProposal} {kept : ReviewedProposal}
    → DrawsDiffer draws
    → (register_at limits draws proposal now m).0 ≡ ok registered
    → get j m ≡ some kept
    → now < kept.expires_at
    → (get j (register_at limits draws proposal now m).1 ≡ some kept)
      × (text_eq registered.proposal_id j ≡ false)
register_at-keeps limits draws proposal now m j {registered} {kept} differ h present current =
    let r = register_at-Registered limits draws proposal now m h in
    let new = unique_id-new draws differ (current_proposals now m) in
    ground (
      arith,
      r.stored j,
      r.named,
      new,
      get-retain (λ p. ltb now p.expires_at) j m,
      text_eq→eq registered.proposal_id j,
    )

-- The registry never holds more proposals than its limit: neither method takes it over the limit,
-- whether it succeeds or fails.
pub registry-bound :
    (limits : ProposalRegistryLimits) (draws : ℕ → Text) (proposal : DiscoveryProposal)
    (proposal_id : Text) (item_ids : List Text) (now : ℕ) (m : Map ReviewedProposal)
    → length m ≤ limits.max_proposals
    → (length (register_at limits draws proposal now m).1 ≤ limits.max_proposals)
      × (length (resolve_selection_at limits proposal_id item_ids now m).1 ≤ limits.max_proposals)
unfolding register_at resolve_selection_at continue
registry-bound limits draws proposal proposal_id item_ids now m le = (
  elim (Result-cases (review limits proposal)) [
    | inr (e, failed) ↦ ground arith
    | inl (items, reviewed) ↦ ground (
      arith,
      length-retain (λ p. ltb now p.expires_at) m,
      length-insert (unique_id draws (current_proposals now m))
          (record { expires_at = now + limits.ttl; items = items }) (current_proposals now m),
    )
  ],
  ground (arith, length-retain (λ p. ltb now p.expires_at) m),
)
