-- ===== src/AgentAccess/Authority/Changes.antt =====
-- agent_access/authority.rs: the changes that the authority makes to its state, one constructor for
-- each.
use aiknowledge_sort_mit.Prelude.{
  ℕ, ◌<◌, ◌≡◌, Bool, true, Option, none, some, List, Text, is_some, length, ok,
}
use aiknowledge_sort_mit.Prelude.Maps.{insert, update}
use aiknowledge_sort_mit.AgentAccess.Schema.{
  AuthorizeRequest, OpenSessionRequest, CreateAgentGrantRequest,
}
use aiknowledge_sort_mit.AgentAccess.Store.{PersistedAgentAccess, validate_state}
use aiknowledge_sort_mit.AgentAccess.State.{
  PendingSelection, Platform, State, next_sequence, prune_pending, prune_sessions,
  max_pending_selections,
}
use aiknowledge_sort_mit.AgentAccess.Authority.Checks.{Approved, authorize_checks}
use aiknowledge_sort_mit.AgentAccess.Authority.SessionChecks.{Agreed, session_checks}
use aiknowledge_sort_mit.AgentAccess.Authority.Records.{
  GrantIo, Prepared, prepare_grant, with_revoked,
}
use aiknowledge_sort_mit.AgentAccess.Authority.Requests.{close_session}
use aiknowledge_sort_mit.AgentAccess.Authority.Authorize.{count_request, use_request_id}
use aiknowledge_sort_mit.AgentAccess.Authority.Outcomes.Opening.{opened}
use aiknowledge_sort_mit.AgentAccess.Authority.Outcomes.Granting.{taken, granted}
use aiknowledge_sort_mit.AgentAccess.Authority.Outcomes.Revoking.{revoked_state}

-- The charge of an approved request to its session and its grant.
abbrev pub charged_now : AuthorizeRequest → Approved → State → State
charged_now request a s = record s {
  sessions = update request.session_id count_request s.sessions;
  active_grants = update a.grant.grant_id (use_request_id request.request_id) s.active_grants;
  persisted = record s.persisted { next_audit_sequence = a.sequence };
}

abbrev pub with_selection : Text → PendingSelection → State → State
with_selection selection_id selection s = record s {
  pending_selections = insert selection_id selection s.pending_selections;
}

module _ (p : Platform) where
  pub data Change (s : State) : State → Type 0 where
    loads :
        (root : Text) (persisted : PersistedAgentAccess)
        → s.config_root ≡ none
        → validate_state p.parse_url persisted ≡ ok tt
        → Change s (record s { persisted = persisted; config_root = some root })
    prunes_sessions : (now : ℕ) → Change s (prune_sessions now s)
    prunes_selections : (now : ℕ) → Change s (prune_pending now s)
    opens :
        (session_id : Text) (random : Option (List ℕ)) (request : OpenSessionRequest)
        (now now_ms : ℕ) (agreed : Agreed)
        → is_some s.config_root ≡ true
        → session_checks p random request now now_ms s ≡ ok agreed
        → Change s (opened session_id agreed s)
    charges :
        (can_clone : Bool) (request : AuthorizeRequest) (now_ms : ℕ) (a : Approved)
        → authorize_checks p can_clone request now_ms s ≡ ok a
        → Change s (charged_now request a s)
    closes : (session_id : Text) → Change s (close_session session_id s)
    selects :
        (selection_id : Text) (selection : PendingSelection)
        → length s.pending_selections < max_pending_selections
        → Change s (with_selection selection_id selection s)
    takes : (selection_id : Text) → Change s (taken selection_id s)
    creates :
        (io : GrantIo) (request : CreateAgentGrantRequest) (now now_ms expires_at_unix_ms : ℕ)
        (selection : PendingSelection) (prepared : Prepared)
        → is_some s.config_root ≡ true
        → prepare_grant p io request now now_ms expires_at_unix_ms selection s ≡ ok prepared
        → validate_state p.parse_url prepared.next ≡ ok tt
        → Change s (granted io.grant_id selection prepared s)
    revokes :
        (grant_id : Text) (now_ms sequence : ℕ)
        → is_some s.config_root ≡ true
        → next_sequence s ≡ ok sequence
        → validate_state p.parse_url (with_revoked s.persisted sequence grant_id now_ms) ≡ ok tt
        → Change s (revoked_state grant_id now_ms sequence s)

  pub data Changes (s : State) : State → Type 0 where
    none_yet : Changes s s
    and_then : {t u : State} → Changes s t → Change t u → Changes s u
