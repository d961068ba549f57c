-- ===== src/Discovery/Proposals/Registry.antt =====
-- discovery/proposal.rs: `ReviewedSourceRegistry`, the two methods on the locked map.
use aiknowledge_sort_mit.Prelude.{ℕ, ◌+◌, List, Text, leb, length, fail_if, ok_or}
use aiknowledge_sort_mit.Prelude.Maps.{Map, get, insert}
use aiknowledge_sort_mit.Prelude.Draws.{unique_id}
use aiknowledge_sort_mit.Prelude.Execs.{Exec, pure, lift, gets, modify, ◌>>=◌, ◌>>◌}
use aiknowledge_sort_mit.Discovery.Proposals.{
  DiscoveryProposal, ProposalRegistryLimits, ReviewedSource, ReviewedProposal, ProposalError,
  too_many_proposals, unknown_proposal, review, current_proposals, check_selection, select_items,
}

-- `draws` are the UUIDs that the calls of `new_v4` give.
unfoldable pub register_at :
    ProposalRegistryLimits
    → (ℕ → Text)
    → DiscoveryProposal
    → ℕ
    → Exec (Map ReviewedProposal) ProposalError DiscoveryProposal
register_at limits draws proposal now = do
  items ← lift (review limits proposal)
  modify (current_proposals now)
  proposals ← gets (λ m. m)
  lift (fail_if (leb limits.max_proposals (length proposals)) too_many_proposals)
  modify
      (insert (unique_id draws proposals) (record { expires_at = now + limits.ttl; items = items }))
  pure (record proposal { proposal_id = unique_id draws proposals })

unfoldable pub resolve_selection_at :
    ProposalRegistryLimits
    → Text
    → List Text
    → ℕ
    → Exec (Map ReviewedProposal) ProposalError (List ReviewedSource)
resolve_selection_at limits proposal_id item_ids now = do
  lift (check_selection limits proposal_id item_ids)
  modify (current_proposals now)
  proposals ← gets (λ m. m)
  proposal ← lift (ok_or (get proposal_id proposals) unknown_proposal)
  lift (select_items proposal.items item_ids)
