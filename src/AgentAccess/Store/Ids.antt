-- ===== src/AgentAccess/Store/Ids.antt =====
-- agent_access/store.rs: how often an id is among the persisted grants.
use aiknowledge_sort_mit.Prelude.{
  ◌≤◌, ◌≡◌, refl, Bool, true, false, List, [], ◌∷◌, Text, arith, All, count_if, text_eq, text_eq→eq,
  eq→text_eq, ok, Option,
}
use aiknowledge_sort_mit.AgentAccess.Schema.{Url}
use aiknowledge_sort_mit.AgentAccess.Store.{AgentGrantRecord, PersistedAgentAccess, validate_state}
use aiknowledge_sort_mit.AgentAccess.Store.Valid.{UniqueIds, validate_state-UniqueIds}

abbrev pub has_id : Text → AgentGrantRecord → Bool
has_id id grant = text_eq grant.grant_id id

-- Records whose ids differ from that of a record with the id `id` do not have `id`.
count_others :
    (id : Text) (grant : AgentGrantRecord) (grants : List AgentGrantRecord)
    → All (λ other. text_eq grant.grant_id other.grant_id ≡ false) grants
    → has_id id grant ≡ true
    → count_if (has_id id) grants ≡ 0
unfolding count_if
count_others id grant [] h e = refl
count_others id grant (other ∷ grants) h e = ground (
  arith,
  count_others id grant grants h.1 e,
  text_eq→eq grant.grant_id id,
  text_eq→eq other.grant_id id,
  eq→text_eq grant.grant_id other.grant_id,
)

UniqueIds-count :
    (id : Text) (grants : List AgentGrantRecord)
    → UniqueIds grants
    → count_if (has_id id) grants ≤ 1
unfolding count_if
UniqueIds-count id [] u = omega arith
UniqueIds-count id (grant ∷ grants) u =
    ground (arith, count_others id grant grants u.0, UniqueIds-count id grants u.1)

-- A valid state has an id once.
pub valid-count :
    (parse_url : Text → Option Url) (s : PersistedAgentAccess) (id : Text)
    → validate_state parse_url s ≡ ok tt
    → count_if (has_id id) s.grants ≤ 1
valid-count parse_url s id h = UniqueIds-count id s.grants (validate_state-UniqueIds parse_url s h)
