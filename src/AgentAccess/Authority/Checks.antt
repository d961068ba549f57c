-- ===== src/AgentAccess/Authority/Checks.antt =====
-- agent_access/authority.rs: the checks of `authorize_request`, between the pruning of the
-- sessions and the audit event. They change nothing.
use aiknowledge_sort_mit.Prelude.{
  ℕ, Bool, true, false, not, ◌||◌, Option, none, some, Text, ltb, leb, find, member, text_eq,
  Result, ok, err, fail_if, ok_or, map_err, ◌>>=◌, ◌>>◌, if◌then◌else◌,
}
use aiknowledge_sort_mit.Prelude.Maps.{get}
use aiknowledge_sort_mit.AgentAccess.Errors.{
  not_loaded, no_such_grant, no_such_session, session_mismatched, authentication_failed,
  origin_mismatched, request_id_used, session_limit_reached, tool_not_granted, request_too_long,
  response_too_long, grant_inactive, scope_not_granted, scope_not_cloned,
}
use aiknowledge_sort_mit.AgentAccess.Schema.{
  AgentToolDescriptor, AuthorizeRequest, Denial, unauthenticated, unknown_grant, inactive_grant,
  unknown_session, session_mismatch, origin_denied, replayed_request, tool_denied, scope_denied,
  request_limit_exceeded, request_too_large, response_budget_exceeded, authority_unavailable,
  tool_catalog,
}
use aiknowledge_sort_mit.AgentAccess.Token.{verify_token}
use aiknowledge_sort_mit.AgentAccess.Store.{AgentGrantRecord}
use aiknowledge_sort_mit.AgentAccess.State.{
  Dir, ActiveGrant, Platform, State, denial, find_grant, ensure_grant_usable, next_audit_sequence,
}
use aiknowledge_sort_mit.AgentAccess.Authority.{normalize_origin}

abbrev pub origin_eq : Option Text → Option Text → Bool
origin_eq none none = true
origin_eq (some a) (some b) = text_eq a b
origin_eq _ _ = false

abbrev pub has_used : Text → Option ActiveGrant → Bool
has_used request_id none = false
has_used request_id (some grant) = member request_id grant.used_request_ids

-- The tool of the catalog, if the grant names it.
unfoldable pub granted_tool : AgentGrantRecord → Text → Option AgentToolDescriptor
granted_tool grant tool_id = elim (find (λ tool. text_eq tool.tool_id tool_id) tool_catalog) [
  | none ↦ none
  | some tool ↦ if member tool.tool_id grant.tool_ids then some tool else none
]

-- `try_clone` of the directory of a granted scope, which may fail.
abbrev pub cloned_root : Bool → Option ActiveGrant → Text → Result Denial Dir
cloned_root can_clone none scope_id = err (denial inactive_grant grant_inactive)
cloned_root can_clone (some grant) scope_id = elim (get scope_id grant.roots) [
  | none ↦ err (denial scope_denied scope_not_granted)
  | some root ↦
      if can_clone then ok root.directory else err (denial authority_unavailable scope_not_cloned)
]

abbrev pub scope_directory : Bool → Option ActiveGrant → Option Text → Result Denial (Option Dir)
scope_directory can_clone grant none = ok none
scope_directory can_clone grant (some scope_id) = elim (cloned_root can_clone grant scope_id) [
  | ok directory ↦ ok (some directory)
  | err e ↦ err e
]

-- What the checks of a request find.
pub record Approved : Type 0 where
  pub grant : AgentGrantRecord
  pub tool : AgentToolDescriptor
  pub directory : Option Dir
  pub sequence : ℕ

unfoldable pub authorize_checks :
    Platform → Bool → AuthorizeRequest → ℕ → State → Result Denial Approved
authorize_checks p can_clone request now_ms s = do
  config_root ← ok_or s.config_root (denial authority_unavailable not_loaded)
  grant ← ok_or (find_grant request.grant_id s) (denial unknown_grant no_such_grant)
  ensure_grant_usable s grant now_ms
  session ← ok_or (get request.session_id s.sessions) (denial unknown_session no_such_session)
  fail_if
      (not (text_eq session.grant_id request.grant_id)
        || not (text_eq session.agent_id request.agent_id))
      (denial session_mismatch session_mismatched)
  fail_if (not (verify_token p.sha256 request.session_token session.session_token_sha256))
      (denial unauthenticated authentication_failed)
  request_origin ← map_err (denial origin_denied) (normalize_origin p request.transport_origin)
  fail_if (not (origin_eq session.transport_origin request_origin))
      (denial origin_denied origin_mismatched)
  fail_if (has_used request.request_id (get grant.grant_id s.active_grants))
      (denial replayed_request request_id_used)
  fail_if (leb grant.limits.max_requests_per_session session.request_count)
      (denial request_limit_exceeded session_limit_reached)
  tool ← ok_or (granted_tool grant request.tool_id) (denial tool_denied tool_not_granted)
  fail_if (ltb grant.limits.max_request_bytes request.request_bytes)
      (denial request_too_large request_too_long)
  fail_if (ltb grant.limits.max_response_bytes request.response_budget_bytes)
      (denial response_budget_exceeded response_too_long)
  directory ← scope_directory can_clone (get grant.grant_id s.active_grants) request.scope_id
  sequence ← next_audit_sequence s
  ok (record { grant = grant; tool = tool; directory = directory; sequence = sequence })
