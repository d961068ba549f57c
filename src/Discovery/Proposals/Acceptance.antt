-- ===== src/Discovery/Proposals/Acceptance.antt =====
-- discovery/proposal.rs: the conditions of `register_at`.
use aiknowledge_sort_mit.Prelude.{
  ℕ, ◌==◌, ◌≡◌, refl, Bool, true, not, ◌&&◌, List, [], ◌∷◌, Text, arith, length, ltb, leb, is_ok,
  all, member, distinct, is_empty, byte_len, map, text_eq_sym,
}
use aiknowledge_sort_mit.Prelude.Maps.{Map, insert}
use aiknowledge_sort_mit.Prelude.Execs.{continue}
use aiknowledge_sort_mit.Identity.{validate_identity}
use aiknowledge_sort_mit.Discovery.Proposals.{
  DiscoveredItem, DiscoveryProposal, ProposalRegistryLimits, ReviewedSource, ReviewedProposal,
  review, review_items, current_proposals, max_item_id_bytes, reviewed_source,
}
use aiknowledge_sort_mit.Discovery.Proposals.Registry.{register_at}

abbrev pub item_ids : List DiscoveredItem → List Text
item_ids = map (λ item. item.item_id)

abbrev pub item_valid : DiscoveredItem → Bool
item_valid item =
    not (is_empty item.item_id)
    && leb (byte_len item.item_id) max_item_id_bytes
    && is_ok (validate_identity item.identity)

-- No id of `ts` is in `ids`.
unfoldable pub disjoint : List Text → List Text → Bool
disjoint ids ts = all (λ t. not (member t ids)) ts

disjoint-cons :
    (t : Text) (ids ts : List Text) → disjoint (t ∷ ids) ts ≡ disjoint ids ts && not (member t ts)
unfolding disjoint all member
disjoint-cons t ids [] = ground arith
disjoint-cons t ids (s ∷ ts) = ground (arith, disjoint-cons t ids ts, text_eq_sym s t)

review_items-is_ok :
    (ids : List Text) (reviewed : Map ReviewedSource) (items : List DiscoveredItem)
    → is_ok (review_items ids reviewed items)
      ≡ all item_valid items && distinct (item_ids items) && disjoint ids (item_ids items)
unfolding review_items all distinct member disjoint
review_items-is_ok ids reviewed [] = ground arith
review_items-is_ok ids reviewed (item ∷ items) = ground (
  arith,
  review_items-is_ok (item.item_id ∷ ids) (insert item.item_id (reviewed_source item) reviewed)
      items,
  disjoint-cons item.item_id ids (item_ids items),
)

disjoint-[] : (ts : List Text) → disjoint [] ts ≡ true
unfolding disjoint all member
disjoint-[] [] = refl
disjoint-[] (t ∷ ts) = disjoint-[] ts

-- What the registry asks of a proposal.
abbrev pub acceptable : ProposalRegistryLimits → DiscoveryProposal → Bool
acceptable limits proposal =
    is_empty proposal.proposal_id
    && leb (length proposal.items) limits.max_items
    && proposal.counts.included == length proposal.items
    && all item_valid proposal.items
    && distinct (item_ids proposal.items)

-- A registration succeeds exactly when the proposal has no id yet, the count of its items is right
-- and in the limit, every item has a valid id and identity, no two items have one id, and after
-- the expired proposals are dropped there is room for one more.
pub register_at_iff :
    (limits : ProposalRegistryLimits) (draws : ℕ → Text) (proposal : DiscoveryProposal) (now : ℕ)
    (m : Map ReviewedProposal)
    → is_ok (register_at limits draws proposal now m).0
      ≡ acceptable limits proposal && ltb (length (current_proposals now m)) limits.max_proposals
unfolding register_at review continue
register_at_iff limits draws proposal now m =
    ground (arith, review_items-is_ok [] [] proposal.items, disjoint-[] (item_ids proposal.items))
