-- ===== src/AgentAccess/Refusals.antt =====
-- The theorems on refusals, tokens and the files of the authority at inputs of the run of Scenarios.
use aiknowledge_sort_mit.Prelude.{
  ◌≡◌, ◌↔◌, ◌⊎◌, refl, true, false, codes, ok, err, is_ok, is_ok-eq, is_ok-eq_err, take,
}
use aiknowledge_sort_mit.AgentAccess.Errors.{Message}
use aiknowledge_sort_mit.AgentAccess.Schema.{Denial, OpenSessionRequest}
use aiknowledge_sort_mit.AgentAccess.Token.{verify_token, token_digest}
use aiknowledge_sort_mit.AgentAccess.Token.Verify.{verify_token_iff}
use aiknowledge_sort_mit.AgentAccess.Store.{validate_state, read_state}
use aiknowledge_sort_mit.AgentAccess.Store.Valid.{UniqueIds, validate_state-UniqueIds}
use aiknowledge_sort_mit.AgentAccess.State.{World, prune_sessions, next_sequence}
use aiknowledge_sort_mit.AgentAccess.Authority.Calls.{creates_grant, authorizes, step}
use aiknowledge_sort_mit.AgentAccess.Authority.Authorize.{AuthorizedRequest, authorize_request}
use aiknowledge_sort_mit.AgentAccess.Authority.Records.{GrantIo}
use aiknowledge_sort_mit.AgentAccess.Authority.Requests.{open_session}
use aiknowledge_sort_mit.AgentAccess.Authority.Grants.{create_grant, revoke}
use aiknowledge_sort_mit.AgentAccess.Authority.Outcomes.Authorizing.{authorize_error}
use aiknowledge_sort_mit.AgentAccess.Authority.Outcomes.Restarting.{authorize_request-read_state}
use aiknowledge_sort_mit.AgentAccess.Scenarios.{
  evaluates, platform, authorize_io, request, one_second, ready, grant_io, root, select_docs,
  session_io, session_request, grant_request, read_ok, token,
}

-- Behind the request of the run.
abbrev used : World
used = step platform (authorizes authorize_io request one_second) ready

repetition_fails : is_ok (authorize_request platform authorize_io request one_second used).0 ≡ false
unfolding evaluates
repetition_fails = refl

abbrev refused :
    (d : Denial) × ((authorize_request platform authorize_io request one_second used).0 ≡ err d)
refused =
    is_ok-eq_err (authorize_request platform authorize_io request one_second used).0
      repetition_fails

authorize_error_example :
    ((authorize_request platform authorize_io request one_second used).1.state ≡ used.state)
    ⊎ ((authorize_request platform authorize_io request one_second used).1.state
        ≡ prune_sessions one_second used.state)
authorize_error_example =
    authorize_error platform authorize_io request one_second used refused.0 refused.1

abbrev wrong_session : OpenSessionRequest
wrong_session = record session_request { agent_id = codes "other" }

wrong_session_fails :
    is_ok (open_session platform session_io root wrong_session one_second ready).0 ≡ false
unfolding evaluates
wrong_session_fails = refl

abbrev session_refused :
    (d : Denial) × ((open_session platform session_io root wrong_session one_second ready).0
      ≡ err d)
session_refused =
    is_ok-eq_err (open_session platform session_io root wrong_session one_second ready).0
      wrong_session_fails

-- The selection was taken by the first grant.
second_grant_fails :
    is_ok (create_grant platform grant_io root grant_request one_second ready).0 ≡ false
unfolding evaluates
second_grant_fails = refl

abbrev grant_refused :
    (e : Message) × ((create_grant platform grant_io root grant_request one_second ready).0 ≡ err e)
grant_refused =
    is_ok-eq_err (create_grant platform grant_io root grant_request one_second ready).0
      second_grant_fails

unknown_revocation_fails :
    is_ok (revoke platform grant_io root (codes "grant2") one_second ready).0 ≡ false
unfolding evaluates
unknown_revocation_fails = refl

abbrev revocation_refused :
    (e : Message) × ((revoke platform grant_io root (codes "grant2") one_second ready).0 ≡ err e)
revocation_refused =
    is_ok-eq_err (revoke platform grant_io root (codes "grant2") one_second ready).0
      unknown_revocation_fails

-- A second grant is created, so that the file holds what the authority has in memory.
abbrev second_io : GrantIo
second_io = record grant_io { grant_id = codes "grant2" }

abbrev saved : World
saved =
    step platform (creates_grant second_io root grant_request one_second)
      (step platform select_docs ready)

saved_passes : is_ok (authorize_request platform authorize_io request one_second saved).0 ≡ true
unfolding evaluates
saved_passes = refl

saved_reads : read_state platform.parse_url read_ok saved.disk ≡ ok saved.state.persisted
unfolding evaluates
saved_reads = refl

abbrev saved_answer :
    (r : AuthorizedRequest) × ((authorize_request platform authorize_io request one_second saved).0
      ≡ ok r)
saved_answer =
    is_ok-eq (authorize_request platform authorize_io request one_second saved).0 saved_passes

authorize_request-read_state_example :
    (next_sequence saved.state
      ≡ ok
          (authorize_request platform authorize_io request one_second
            saved).1.state.persisted.next_audit_sequence)
    × (read_state platform.parse_url read_ok
          (authorize_request platform authorize_io request one_second saved).1.disk
        ≡ ok saved.state.persisted)
authorize_request-read_state_example =
    authorize_request-read_state platform authorize_io read_ok request one_second saved
      {r = saved_answer.0} saved_answer.1 saved_reads

verify_token_iff_example :
    (verify_token (take 32) token (codes "00ff") ≡ true)
    ↔ (token_digest (take 32) token ≡ codes "00ff")
unfolding evaluates
verify_token_iff_example = verify_token_iff (take 32) token (codes "00ff") refl

saved_valid : validate_state platform.parse_url saved.state.persisted ≡ ok tt
unfolding evaluates
saved_valid = refl

validate_state-UniqueIds_example : UniqueIds saved.state.persisted.grants
validate_state-UniqueIds_example =
    validate_state-UniqueIds platform.parse_url saved.state.persisted saved_valid
