-- ===== src/AgentAccess/Witnesses.antt =====
-- The theorems on the authority at the run of Scenarios.
use aiknowledge_sort_mit.Prelude.{◌↔◌}
use aiknowledge_sort_mit.AgentAccess.Schema.{IssuedSession, IssuedAgentGrant, AgentGrantSummary}
use aiknowledge_sort_mit.AgentAccess.State.{ActiveGrant, AgentSession, prune_sessions}
use aiknowledge_sort_mit.AgentAccess.Authority.Checks.{authorize_checks}
use aiknowledge_sort_mit.AgentAccess.Authority.Permits.{Permits, authorize_checks_iff}
use aiknowledge_sort_mit.AgentAccess.Authority.Requests.{open_session, verify_transport_credentials}
use aiknowledge_sort_mit.AgentAccess.Authority.Grants.{create_grant}
use aiknowledge_sort_mit.AgentAccess.Authority.Outcomes.Authorizing.{
  Authorized, authorize-Authorized,
}
use aiknowledge_sort_mit.AgentAccess.Authority.Outcomes.Opening.{Opened, open_session-Opened}
use aiknowledge_sort_mit.AgentAccess.Authority.Outcomes.Granting.{Created, create_grant-Created}
use aiknowledge_sort_mit.AgentAccess.Authority.Outcomes.Revoking.{Revoked, revoke-Revoked}
use aiknowledge_sort_mit.AgentAccess.Authority.Invariant.{Inv, initial, run-Inv, initial-Inv}
use aiknowledge_sort_mit.AgentAccess.Scenarios.{
  select_docs, session_io, session_request, grant_request, read_ok, token,
}
use aiknowledge_sort_mit.Prelude.{
  ◌≡◌, refl, true, false, none, List, [], ◌∷◌, codes, ok, is_ok, is_ok-eq,
}
use aiknowledge_sort_mit.AgentAccess.Authority.Authorize.{AuthorizedRequest, authorize_request}
use aiknowledge_sort_mit.AgentAccess.Authority.Grants.{revoke}
use aiknowledge_sort_mit.AgentAccess.Schema.{AgentAccessState}
use aiknowledge_sort_mit.AgentAccess.State.{World}
use aiknowledge_sort_mit.AgentAccess.Authority.Calls.{Call, revokes_grant, run}
use aiknowledge_sort_mit.AgentAccess.Authority.Safety.Replay.{no_replay}
use aiknowledge_sort_mit.AgentAccess.Authority.Safety.Revoked.{
  reached, revoked-AdmitsNobody, AdmitsNobody,
}
use aiknowledge_sort_mit.AgentAccess.Scenarios.{
  evaluates, platform, authorize_io, request, one_second, ready, request_passes_test, grant_io,
  root, empty_disk, prepared_calls,
}

-- What the request of the run is answered.
abbrev answer :
    (r : AuthorizedRequest) × ((authorize_request platform authorize_io request one_second ready).0
      ≡ ok r)
answer =
    is_ok-eq (authorize_request platform authorize_io request one_second ready).0
      request_passes_test

-- The same request again, with another tool and a new session, after the session was closed.
abbrev later_calls : List Call
later_calls = revokes_grant grant_io root (codes "grant1") one_second ∷ []

no_replay_example :
    is_ok
      (authorize_request platform authorize_io request one_second (
        run platform later_calls
          (authorize_request platform authorize_io request one_second ready).1)).0
    ≡ false
no_replay_example =
    no_replay platform authorize_io authorize_io request request one_second one_second ready
      later_calls answer.0 answer.1 refl refl

revocation_passes : is_ok (revoke platform grant_io root (codes "grant1") one_second ready).0 ≡ true
unfolding evaluates
revocation_passes = refl

abbrev revoked_answer :
    (r : AgentAccessState) × ((revoke platform grant_io root (codes "grant1") one_second ready).0
      ≡ ok r)
revoked_answer =
    is_ok-eq (revoke platform grant_io root (codes "grant1") one_second ready).0 revocation_passes

revoked-AdmitsNobody_example : AdmitsNobody platform (codes "grant1") (
    run platform prepared_calls (revoke platform grant_io root (codes "grant1") one_second ready).1)
revoked-AdmitsNobody_example =
    revoked-AdmitsNobody platform empty_disk prepared_calls grant_io root (codes "grant1")
      one_second revoked_answer.0 prepared_calls revoked_answer.1

-- Where the request is authorized: what it passed.
abbrev passed : Authorized platform authorize_io request one_second ready answer.0
passed = authorize-Authorized platform authorize_io request one_second ready answer.0 answer.1

authorize_checks_iff_example :
    (authorize_checks platform true request passed.now_ms (prune_sessions one_second ready.state)
      ≡ ok passed.approved)
    ↔ ((active : ActiveGrant) × (session : AgentSession) × Permits platform true request
          passed.now_ms
          (prune_sessions one_second ready.state)
          active
          session
          passed.approved)
authorize_checks_iff_example =
    authorize_checks_iff platform true request passed.now_ms (prune_sessions one_second ready.state)
      passed.approved

run-Inv_example : Inv platform ready.state
run-Inv_example =
    run-Inv platform prepared_calls (record { state = initial; disk = empty_disk })
      (initial-Inv platform)

session_passes :
    is_ok (open_session platform session_io root session_request one_second ready).0 ≡ true
unfolding evaluates
session_passes = refl

abbrev session_answer :
    (r : IssuedSession) × ((open_session platform session_io root session_request one_second
        ready).0
      ≡ ok r)
session_answer =
    is_ok-eq (open_session platform session_io root session_request one_second ready).0
      session_passes

open_session-Opened_example :
    Opened platform session_io root session_request one_second ready session_answer.0
open_session-Opened_example =
    open_session-Opened platform session_io root session_request one_second ready session_answer.0
      session_answer.1

-- Where a selection waits.
abbrev selected : World
selected = reached platform empty_disk (select_docs ∷ [])

creation_passes :
    is_ok (create_grant platform grant_io root grant_request one_second selected).0 ≡ true
unfolding evaluates
creation_passes = refl

abbrev grant_answer :
    (r : IssuedAgentGrant) × ((create_grant platform grant_io root grant_request one_second
        selected).0
      ≡ ok r)
grant_answer =
    is_ok-eq (create_grant platform grant_io root grant_request one_second selected).0
      creation_passes

create_grant-Created_example :
    Created platform grant_io root grant_request one_second selected grant_answer.0
create_grant-Created_example =
    create_grant-Created platform grant_io root grant_request one_second selected grant_answer.0
      grant_answer.1

verification_passes :
    is_ok
      (verify_transport_credentials platform read_ok root
        (codes "grant1")
        (codes "codex")
        token
        none
        one_second
        ready).0
    ≡ true
unfolding evaluates
verification_passes = refl

abbrev verified_answer :
    (r : AgentGrantSummary) × ((verify_transport_credentials platform read_ok root
        (codes "grant1")
        (codes "codex")
        token
        none
        one_second
        ready).0
      ≡ ok r)
verified_answer =
    is_ok-eq
      (verify_transport_credentials platform read_ok root (codes "grant1") (codes "codex") token
        none one_second ready).0
      verification_passes

revoke-Revoked_example : Revoked platform grant_io root (codes "grant1") one_second ready
revoke-Revoked_example =
    revoke-Revoked platform grant_io root (codes "grant1") one_second ready revoked_answer.0
      revoked_answer.1
