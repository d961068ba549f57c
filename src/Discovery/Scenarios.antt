-- ===== src/Discovery/Scenarios.antt =====
-- discovery/: a proposal of two items, and the UUIDs of the runs.
use aiknowledge_sort_mit.Prelude.{
  ℕ, zero, suc, refl, ap, [], ◌∷◌, Text, codes, any, all, find, member, distinct, utf8, utf8_char,
  byte_len, text_eq, text_le, all_lower_hex, insert_by, sort_by,
}
use aiknowledge_sort_mit.Prelude.Draws.{draw_from, unique_id, DrawsDiffer}
use aiknowledge_sort_mit.Prelude.Execs.{continue}
use aiknowledge_sort_mit.Prelude.Maps.{get, insert, remove, retain}
use aiknowledge_sort_mit.Identity.{ContentIdentity, sha256_algorithm, validate_identity}
use aiknowledge_sort_mit.Discovery.Roots.{components_eq, components_le, dedup, dedup_after}
use aiknowledge_sort_mit.Discovery.Proposals.{
  DiscoveredItem, DiscoveryProposal, review, review_items, check_selection, select_items,
}
use aiknowledge_sort_mit.Discovery.Proposals.Registry.{register_at, resolve_selection_at}
use aiknowledge_sort_mit.Discovery.DropGrants.{validate_paths, check_paths, open_roots}
use aiknowledge_sort_mit.Discovery.DropGrants.Registry.{issue_with_deadline, consume_at}

-- All that the registries compute with.
unfoldable pub evaluates : Unit {0}
unfolding any all find member distinct utf8 utf8_char byte_len text_eq text_le all_lower_hex
    insert_by sort_by get insert remove retain continue draw_from unique_id components_eq
    components_le dedup dedup_after validate_identity review review_items check_selection
    select_items register_at resolve_selection_at validate_paths check_paths open_roots
    issue_with_deadline consume_at
evaluates = tt

abbrev pub identity : ContentIdentity
identity = record {
  algorithm = sha256_algorithm;
  digest = codes "0123456789abcdef0123456789abcdef0123456789abcdef0123456789abcdef";
}

abbrev pub item : Text → DiscoveredItem
item item_id = record {
  item_id = item_id;
  path = codes "/docs/a.pdf";
  name = codes "a.pdf";
  byte_size = 12;
  identity = identity;
}

abbrev pub proposal : DiscoveryProposal
proposal = record {
  proposal_id = [];
  items = item (codes "item1") ∷ item (codes "item2") ∷ [];
  counts = record { included = 2; excluded = 0; unreadable = 0; symlink = 0; out_of_scope = 0 };
  diagnostics = [];
}

-- UUIDs as texts of the length of their number.
abbrev pub draws : ℕ → Text
draws zero = b'x' ∷ []
draws (suc n) = b'x' ∷ draws n

pub draws_differ : DrawsDiffer draws
draws_differ zero zero e = refl
draws_differ zero (suc zero) e = cc
draws_differ zero (suc (suc j)) e = cc
draws_differ (suc zero) zero e = cc
draws_differ (suc (suc i)) zero e = cc
draws_differ (suc i) (suc j) e = ap suc (draws_differ i j cc)
