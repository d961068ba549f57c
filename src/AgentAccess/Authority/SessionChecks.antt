-- ===== src/AgentAccess/Authority/SessionChecks.antt =====
-- agent_access/authority.rs: the checks of `open_session` between the pruning of the sessions and the
-- audit event, with the token, the expiry and the audit sequence of the new session.
use aiknowledge_sort_mit.Prelude.{
  ℕ, ◌+◌, ◌*◌, Bool, true, not, ◌&&◌, Option, none, some, List, Text, leb, member, text_eq, Result,
  ok, fail_if, ok_or, map_err, ◌>>=◌, ◌>>◌, if◌then◌else◌,
}
use aiknowledge_sort_mit.AgentAccess.Errors.{
  authentication_failed, no_such_grant, origin_not_granted,
}
use aiknowledge_sort_mit.AgentAccess.Schema.{
  OpenSessionRequest, Denial, unauthenticated, unknown_grant, origin_denied, authority_unavailable,
}
use aiknowledge_sort_mit.AgentAccess.Token.{issue_token, verify_token}
use aiknowledge_sort_mit.AgentAccess.Store.{AgentGrantRecord}
use aiknowledge_sort_mit.AgentAccess.State.{
  AgentSession, Platform, State, denial, find_grant, nanos_per_milli, session_ttl, unix_ms,
  ensure_grant_usable, next_audit_sequence,
}
use aiknowledge_sort_mit.AgentAccess.Authority.{normalize_origin}

abbrev pub contains_origin : Option Text → List Text → Bool
contains_origin none allowed = true
contains_origin (some origin) allowed = member origin allowed

abbrev pub authenticated : Platform → AgentGrantRecord → Text → Text → Bool
authenticated p grant caller token =
    text_eq grant.agent_id caller && verify_token p.sha256 token grant.grant_token_sha256

-- `std::cmp::min`
abbrev pub earlier : ℕ → ℕ → ℕ
earlier a b = if leb a b then a else b

-- What the checks settle for the new session.
pub record Agreed : Type 0 where
  pub grant : AgentGrantRecord
  pub transport_origin : Option Text
  pub token : Text
  pub token_sha256 : Text
  pub expires_at : ℕ
  pub expires_at_unix_ms : ℕ
  pub sequence : ℕ

unfoldable pub session_checks :
    Platform → Option (List ℕ) → OpenSessionRequest → ℕ → ℕ → State → Result Denial Agreed
session_checks p random request now now_ms s = do
  grant ← ok_or (find_grant request.grant_id s) (denial unknown_grant no_such_grant)
  ensure_grant_usable s grant now_ms
  fail_if (not (authenticated p grant request.agent_id request.grant_token))
      (denial unauthenticated authentication_failed)
  transport_origin ← map_err (denial origin_denied) (normalize_origin p request.transport_origin)
  fail_if (not (contains_origin transport_origin grant.allowed_http_origins))
      (denial origin_denied origin_not_granted)
  issued ← map_err (denial authority_unavailable) (issue_token p.sha256 random)
  let expires_at =
      earlier (p.unix_epoch + grant.expires_at_unix_ms * nanos_per_milli) (now + session_ttl)
  expires_at_unix_ms ← map_err (denial authority_unavailable) (unix_ms p expires_at)
  sequence ← next_audit_sequence s
  ok (record {
    grant = grant;
    transport_origin = transport_origin;
    token = issued.0;
    token_sha256 = issued.1;
    expires_at = expires_at;
    expires_at_unix_ms = expires_at_unix_ms;
    sequence = sequence;
  })

abbrev pub new_session : Agreed → AgentSession
new_session agreed = record {
  grant_id = agreed.grant.grant_id;
  agent_id = agreed.grant.agent_id;
  session_token_sha256 = agreed.token_sha256;
  expires_at = agreed.expires_at;
  request_count = 0;
  transport_origin = agreed.transport_origin;
}
