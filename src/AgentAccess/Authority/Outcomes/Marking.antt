-- ===== src/AgentAccess/Authority/Outcomes/Marking.antt =====
-- agent_access/authority.rs: which records the mark of a revocation changes.
use aiknowledge_sort_mit.Prelude.{
  ℕ, ◌≡◌, false, some, List, [], ◌∷◌, Text, arith, find, text_eq, text_eq→eq, eq→text_eq,
}
use aiknowledge_sort_mit.AgentAccess.Store.{AgentGrantRecord}
use aiknowledge_sort_mit.AgentAccess.Store.Ids.{has_id}
use aiknowledge_sort_mit.AgentAccess.Authority.Records.{mark_revoked}

pub find-mark_revoked :
    (g : Text) (now_ms : ℕ) (grants : List AgentGrantRecord) {grant : AgentGrantRecord}
    → find (has_id g) grants ≡ some grant
    → find (has_id g) (mark_revoked g now_ms grants)
      ≡ some (record grant { revoked_at_unix_ms = some now_ms })
unfolding find mark_revoked
find-mark_revoked g now_ms [] f = cc
find-mark_revoked g now_ms (x ∷ xs) {grant} f =
    ground (arith, find-mark_revoked g now_ms xs {grant = grant})

-- The record of another id stays.
pub find_other-mark_revoked :
    (g other : Text) (now_ms : ℕ) (grants : List AgentGrantRecord)
    → text_eq other g ≡ false
    → find (has_id other) (mark_revoked g now_ms grants) ≡ find (has_id other) grants
unfolding find mark_revoked
find_other-mark_revoked g other now_ms [] differs = ground arith
find_other-mark_revoked g other now_ms (x ∷ xs) differs = ground (
  arith,
  find_other-mark_revoked g other now_ms xs differs,
  text_eq→eq x.grant_id g,
  text_eq→eq x.grant_id other,
  eq→text_eq other g,
)
