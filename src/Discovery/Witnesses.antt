-- ===== src/Discovery/Witnesses.antt =====
-- discovery/proposal.rs: a proposal that is registered and selected from, with the theorems at this
-- input.
use aiknowledge_sort_mit.Prelude.{◌≡◌, refl, none, some, List, [], ◌∷◌, Text, codes, arith, ok}
use aiknowledge_sort_mit.Prelude.Draws.{unique_id}
use aiknowledge_sort_mit.Prelude.Draws.Fresh.{unique_id-new}
use aiknowledge_sort_mit.Prelude.Maps.{Map, get}
use aiknowledge_sort_mit.Discovery.Proposals.{
  DiscoveryProposal, ReviewedProposal, default_proposal_limits, check_selection, reviewed_source,
}
use aiknowledge_sort_mit.Discovery.Proposals.Registry.{register_at, resolve_selection_at}
use aiknowledge_sort_mit.Discovery.Proposals.Reviewing.{reviewed_items}
use aiknowledge_sort_mit.Discovery.Proposals.RoundTrip.{register_at-resolve_selection_at}
use aiknowledge_sort_mit.Discovery.Scenarios.{evaluates, item, proposal, draws, draws_differ}

abbrev first : DiscoveryProposal
first = record proposal { proposal_id = codes "x" }

first_passes : (register_at default_proposal_limits draws proposal 0 []).0 ≡ ok first
unfolding evaluates
first_passes = refl

abbrev after_first : Map ReviewedProposal
after_first = (register_at default_proposal_limits draws proposal 0 []).1

abbrev selection : List Text
selection = codes "item2" ∷ codes "item1" ∷ []

selection_passes : check_selection default_proposal_limits first.proposal_id selection ≡ ok tt
unfolding evaluates
selection_passes = refl

register_at-resolve_selection_at_example :
    (resolve_selection_at default_proposal_limits first.proposal_id selection 5 after_first).0
    ≡ reviewed_items proposal.items selection
register_at-resolve_selection_at_example =
    register_at-resolve_selection_at default_proposal_limits draws proposal 0 5 selection []
      {registered = first} first_passes selection_passes (omega arith)

abbrev second : DiscoveryProposal
second = record proposal { proposal_id = codes "xx" }

second_passes : (register_at default_proposal_limits draws proposal 1 after_first).0 ≡ ok second
unfolding evaluates
second_passes = refl

abbrev stored : ReviewedProposal
stored = record {
  expires_at = 900_000_000_000;
  items =
      (codes "item2", reviewed_source (item (codes "item2")))
      ∷ (codes "item1", reviewed_source (item (codes "item1")))
      ∷ [];
}

first_stored : get (codes "x") after_first ≡ some stored
unfolding evaluates
first_stored = refl

unique_id-new_example : get (unique_id draws after_first) after_first ≡ none
unique_id-new_example = unique_id-new draws draws_differ after_first
