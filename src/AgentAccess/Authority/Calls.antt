-- ===== src/AgentAccess/Authority/Calls.antt =====
-- agent_access/authority.rs: sequences of calls of the authority.
use aiknowledge_sort_mit.Prelude.{ℕ, Option, List, [], ◌∷◌, Text}
use aiknowledge_sort_mit.Discovery.Roots.{FilePath, CapabilityRoot}
use aiknowledge_sort_mit.AgentAccess.Schema.{
  CreateAgentGrantRequest, OpenSessionRequest, AuthorizeRequest,
}
use aiknowledge_sort_mit.AgentAccess.Store.{ReadIo}
use aiknowledge_sort_mit.AgentAccess.State.{Platform, World}
use aiknowledge_sort_mit.AgentAccess.Authority.Requests.{
  SessionIo, verify_transport_credentials, open_session, close_session,
}
use aiknowledge_sort_mit.AgentAccess.Authority.Authorize.{AuthorizeIo, authorize_request}
use aiknowledge_sort_mit.AgentAccess.Authority.Records.{GrantIo}
use aiknowledge_sort_mit.AgentAccess.Authority.Selections.{select_paths}
use aiknowledge_sort_mit.AgentAccess.Authority.Grants.{create_grant, inspect, revoke}

-- A call with its arguments and with what the platform supplies to it.
pub data Call : Type 0 where
  verifies : ReadIo → Text → Text → Text → Text → Option Text → ℕ → Call
  opens_session : SessionIo → Text → OpenSessionRequest → ℕ → Call
  authorizes : AuthorizeIo → AuthorizeRequest → ℕ → Call
  closes_session : Text → Call
  selects_paths : (FilePath → CapabilityRoot) → (ℕ → Text) → Text → List FilePath → ℕ → Call
  creates_grant : GrantIo → Text → CreateAgentGrantRequest → ℕ → Call
  inspects : ReadIo → Text → ℕ → Call
  revokes_grant : GrantIo → Text → Text → ℕ → Call

-- What a call leaves behind, whatever it returns.
unfoldable pub step : Platform → Call → World → World
step p (verifies io root grant caller token origin now) w =
    (verify_transport_credentials p io root grant caller token origin now w).1
step p (opens_session io root request now) w = (open_session p io root request now w).1
step p (authorizes io request now) w = (authorize_request p io request now w).1
step p (closes_session session_id) w = record w { state = close_session session_id w.state }
step p (selects_paths open_root fresh selection_id paths now) w =
    (select_paths open_root fresh selection_id paths now w).1
step p (creates_grant io root request now) w = (create_grant p io root request now w).1
step p (inspects io root now) w = (inspect p io root now w).1
step p (revokes_grant io root grant_id now) w = (revoke p io root grant_id now w).1

unfoldable pub run : Platform → List Call → World → World
run p [] w = w
run p (call ∷ calls) w = run p calls (step p call w)
