-- ===== src/AgentAccess/Authority/Authorize.antt =====
-- agent_access/authority.rs: `authorize_request`, the checks of an agent's request and its charge.
use aiknowledge_sort_mit.Prelude.{
  ℕ, ◌+◌, ◌-◌, ◌^◌, Bool, Option, ◌∷◌, Text, codes, leb, ok_or, map_err, if◌then◌else◌,
}
use aiknowledge_sort_mit.Prelude.Maps.{get, update}
use aiknowledge_sort_mit.Prelude.Execs.{Exec, pure, lift, ◌>>=◌, ◌>>◌}
use aiknowledge_sort_mit.AgentAccess.Errors.{no_such_session, grant_inactive}
use aiknowledge_sort_mit.AgentAccess.Schema.{
  AgentToolDescriptor, AuthorizeRequest, Denial, inactive_grant, unknown_session,
  authority_unavailable,
}
use aiknowledge_sort_mit.AgentAccess.Store.{WriteIo}
use aiknowledge_sort_mit.AgentAccess.Store.Write.{write_runtime_event}
use aiknowledge_sort_mit.AgentAccess.State.{
  Dir, ActiveGrant, AgentSession, Platform, World, denial, unix_ms, prune_sessions,
  validate_authorize_request,
}
use aiknowledge_sort_mit.AgentAccess.Authority.{on_disk, get_state, modify_state, unavailable}
use aiknowledge_sort_mit.AgentAccess.Authority.Checks.{Approved, authorize_checks}

pub record AuthorizedRequest : Type 0 where
  pub tool : AgentToolDescriptor
  pub directory : Option Dir
  pub response_budget_bytes : ℕ

-- `u32::saturating_add(1)`.
abbrev pub saturating_suc : ℕ → ℕ
saturating_suc n = if leb (2 ^ 32 - 1) n then 2 ^ 32 - 1 else n + 1

abbrev pub count_request : AgentSession → AgentSession
count_request session = record session { request_count = saturating_suc session.request_count }

abbrev pub use_request_id : Text → ActiveGrant → ActiveGrant
use_request_id request_id grant = record grant {
  used_request_ids = request_id ∷ grant.used_request_ids;
}

-- What the platform supplies while a request is authorized.
pub record AuthorizeIo : Type 0 where
  pub write : WriteIo
  pub can_clone : Bool

abbrev pub request_authorized : Text
request_authorized = codes "request.authorized"

-- The writes behind the audit event, with the two lookups that guard them.
unfoldable pub charge : AuthorizeRequest → Approved → Exec World Denial (Unit {0})
charge request approved = do
  s ← get_state
  session ←
      lift (ok_or (get request.session_id s.sessions) (denial unknown_session no_such_session))
  modify_state (λ t. record t { sessions = update request.session_id count_request t.sessions })
  active ←
      lift
        (ok_or (get approved.grant.grant_id s.active_grants) (denial inactive_grant grant_inactive))
  modify_state (λ t. record t {
    active_grants =
        update approved.grant.grant_id (use_request_id request.request_id) t.active_grants;
    persisted = record t.persisted { next_audit_sequence = approved.sequence };
  })

unfoldable pub authorize_request :
    Platform → AuthorizeIo → AuthorizeRequest → ℕ → Exec World Denial AuthorizedRequest
authorize_request p io request now = do
  lift (validate_authorize_request request)
  now_ms ← lift (map_err (denial authority_unavailable) (unix_ms p now))
  modify_state (prune_sessions now)
  s ← get_state
  approved ← lift (authorize_checks p io.can_clone request now_ms s)
  unavailable (
      on_disk (
        write_runtime_event io.write approved.sequence request_authorized approved.grant.grant_id
          request.request_id now_ms))
  charge request approved
  pure (record {
    tool = approved.tool;
    directory = approved.directory;
    response_budget_bytes = request.response_budget_bytes;
  })
