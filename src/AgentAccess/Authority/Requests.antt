-- ===== src/AgentAccess/Authority/Requests.antt =====
-- agent_access/authority.rs: `verify_transport_credentials`, `open_session` and `close_session`.
use aiknowledge_sort_mit.Prelude.{
  ℕ, true, not, Option, List, Text, codes, fail_if, ok_or, map_err, is_ok, if◌then◌else◌,
}
use aiknowledge_sort_mit.Prelude.Maps.{insert, remove}
use aiknowledge_sort_mit.Prelude.Execs.{Exec, pure, lift, ◌>>=◌, ◌>>◌}
use aiknowledge_sort_mit.AgentAccess.Errors.{
  agent_grant_id, agent_id, agent_session_id, authentication_failed, no_such_grant,
  origin_not_granted,
}
use aiknowledge_sort_mit.AgentAccess.Schema.{
  AgentGrantSummary, OpenSessionRequest, IssuedSession, Denial, unauthenticated, unknown_grant,
  origin_denied, authority_unavailable, validate_safe_id,
}
use aiknowledge_sort_mit.AgentAccess.Store.{ReadIo, WriteIo}
use aiknowledge_sort_mit.AgentAccess.Store.Write.{write_runtime_event}
use aiknowledge_sort_mit.AgentAccess.State.{
  Platform, State, World, denial, invalid, find_grant, unix_ms, prune_sessions, ensure_grant_usable,
  valid_bearer_shape, summary,
}
use aiknowledge_sort_mit.AgentAccess.Authority.SessionChecks.{
  authenticated, contains_origin, session_checks, new_session,
}
use aiknowledge_sort_mit.AgentAccess.Authority.{
  on_disk, get_state, modify_state, unavailable, ensure_loaded, normalize_origin,
}

unfoldable pub verify_transport_credentials :
    Platform
    → ReadIo
    → Text
    → Text
    → Text
    → Text
    → Option Text
    → ℕ
    → Exec World Denial AgentGrantSummary
verify_transport_credentials p io root grant_id caller token transport_origin now = do
  lift (invalid (validate_safe_id agent_grant_id grant_id))
  lift (invalid (validate_safe_id agent_id caller))
  lift (fail_if (not (valid_bearer_shape token)) (denial unauthenticated authentication_failed))
  normalized ← lift (map_err (denial origin_denied) (normalize_origin p transport_origin))
  now_ms ← lift (map_err (denial authority_unavailable) (unix_ms p now))
  unavailable (ensure_loaded p io root)
  s ← get_state
  grant ← lift (ok_or (find_grant grant_id s) (denial unknown_grant no_such_grant))
  lift (ensure_grant_usable s grant now_ms)
  lift (
      fail_if (not (authenticated p grant caller token))
        (denial unauthenticated authentication_failed))
  lift (
      fail_if (not (contains_origin normalized grant.allowed_http_origins))
        (denial origin_denied origin_not_granted))
  pure (summary grant true now_ms)

-- What the platform supplies while a session is opened.
pub record SessionIo : Type 0 where
  pub read : ReadIo
  pub write : WriteIo
  pub session_id : Text
  pub random : Option (List ℕ)

abbrev pub session_opened : Text
session_opened = codes "session.opened"

unfoldable pub open_session :
    Platform → SessionIo → Text → OpenSessionRequest → ℕ → Exec World Denial IssuedSession
open_session p io root request now = do
  lift (invalid (validate_safe_id agent_grant_id request.grant_id))
  lift (invalid (validate_safe_id agent_id request.agent_id))
  lift (
      fail_if (not (valid_bearer_shape request.grant_token))
        (denial unauthenticated authentication_failed))
  now_ms ← lift (map_err (denial authority_unavailable) (unix_ms p now))
  unavailable (ensure_loaded p io.read root)
  modify_state (prune_sessions now)
  s ← get_state
  agreed ← lift (session_checks p io.random request now now_ms s)
  unavailable (
      on_disk (
        write_runtime_event io.write agreed.sequence session_opened agreed.grant.grant_id
          io.session_id now_ms))
  modify_state (λ t. record t {
    persisted = record t.persisted { next_audit_sequence = agreed.sequence };
    sessions = insert io.session_id (new_session agreed) t.sessions;
  })
  pure (record {
    session_id = io.session_id;
    session_token = agreed.token;
    expires_at_unix_ms = agreed.expires_at_unix_ms;
  })

unfoldable pub close_session : Text → State → State
close_session session_id s =
    if is_ok (validate_safe_id agent_session_id session_id)
    then record s { sessions = remove session_id s.sessions }
    else s
