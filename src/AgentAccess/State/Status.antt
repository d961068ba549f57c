-- ===== src/AgentAccess/State/Status.antt =====
-- The status that the desktop user sees, and the check that a request meets.
use aiknowledge_sort_mit.Prelude.{ℕ, ◌≡◌, Result, ok, err, arith}
use aiknowledge_sort_mit.Prelude.Maps.{contains_key}
use aiknowledge_sort_mit.AgentAccess.Errors.{grant_revoked, grant_expired, grant_inactive}
use aiknowledge_sort_mit.AgentAccess.Schema.{
  AgentGrantStatus, active, inactive, revoked, expired, Denial, revoked_grant, expired_grant,
  inactive_grant,
}
use aiknowledge_sort_mit.AgentAccess.Store.{AgentGrantRecord}
use aiknowledge_sort_mit.AgentAccess.State.{State, denial, ensure_grant_usable, summary}

-- What a status says of the use of a grant.
unfoldable pub use_of : AgentGrantStatus → Result Denial (Unit {0})
use_of active = ok tt
use_of revoked = err (denial revoked_grant grant_revoked)
use_of expired = err (denial expired_grant grant_expired)
use_of inactive = err (denial inactive_grant grant_inactive)

-- The check that every use of a grant meets says what the status says that the summary shows for
-- the grant at that time: it passes for an active grant, and otherwise denies with the code of the
-- status.
pub ensure_grant_usable-summary :
    (s : State) (grant : AgentGrantRecord) (now_ms : ℕ)
    → ensure_grant_usable s grant now_ms
      ≡ use_of (summary grant (contains_key grant.grant_id s.active_grants) now_ms).status
unfolding ensure_grant_usable summary use_of
ensure_grant_usable-summary s grant now_ms = ground arith
