-- ===== src/AgentAccess/Authority/Outcomes/Issuing.antt =====
-- What the reply of `open_session` is good for.
use aiknowledge_sort_mit.Prelude.{◌≡◌, true, Text, ok}
use aiknowledge_sort_mit.AgentAccess.Schema.{OpenSessionRequest}
use aiknowledge_sort_mit.AgentAccess.Token.{verify_token}
use aiknowledge_sort_mit.AgentAccess.State.{AgentSession, Platform, State}
use aiknowledge_sort_mit.AgentAccess.Authority.{normalize_origin}

-- The session answers for the request that opened it.
pub record Answers (p : Platform) (request : OpenSessionRequest) (token : Text)
    (session : AgentSession) : Type 0 where
  pub of_grant : session.grant_id ≡ request.grant_id
  pub of_agent : session.agent_id ≡ request.agent_id
  pub unused : session.request_count ≡ 0
  pub verifies_token : verify_token p.sha256 token session.session_token_sha256 ≡ true
  pub bound : normalize_origin p request.transport_origin ≡ ok session.transport_origin
