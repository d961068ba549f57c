-- ===== src/AgentAccess/State.antt =====
-- agent_access/authority.rs: the state behind the lock, and the helpers that read and prune it.
-- A `SystemTime` is the number of nanoseconds from the earliest time that the platform has; the
-- Unix epoch is a parameter.
pub mod Status
use aiknowledge_sort_mit.Prelude.{
  ℕ, ◌+◌, ◌-◌, ◌*◌, ◌/◌, ◌^◌, ◌==◌, Bool, true, false, not, ◌&&◌, ◌||◌, Option, none, some, List,
  [], ◌∷◌, map, Text, codes, ltb, leb, in_range, length, is_empty, find, all, utf8, byte_len,
  text_eq, text_le, sort_by, is_ascii_digit, is_some, all_lower_hex, Result, ok, err, ◌>>=◌, ◌>>◌,
  fail_if, ok_or, map_err, if◌then◌else◌,
}
use aiknowledge_sort_mit.Prelude.Maps.{Map, get, retain, contains_key}
use aiknowledge_sort_mit.AgentAccess.Errors.{
  Message, agent_grant_id, agent_id, agent_session_id, agent_request_id, agent_scope_id,
  authentication_failed, budgets_not_positive, grant_revoked, grant_expired, grant_inactive,
  sequence_exhausted, config_root_changed, clock_before_epoch, clock_not_representable,
  no_such_grant,
}
use aiknowledge_sort_mit.AgentAccess.Schema.{
  AgentScopeSummary, AgentGrantStatus, active, inactive, revoked, expired, AgentGrantSummary,
  AgentAccessState, AuthorizeRequest, Denial, DenialCode, invalid_request, unauthenticated,
  unknown_grant, revoked_grant, expired_grant, inactive_grant, authority_unavailable, tool_catalog,
  tool_catalog_version, validate_safe_id, Url,
}
use aiknowledge_sort_mit.AgentAccess.Store.{
  AgentGrantRecord, PersistedAgentAccess, Disk, ReadIo, read_state,
}

-- A directory handle of the operating system.
abbrev pub Dir : Type 0
Dir = ℕ

pub record SelectedRoot : Type 0 where
  pub summary : AgentScopeSummary
  pub directory : Dir

pub record PendingSelection : Type 0 where
  pub expires_at : ℕ
  pub roots : List SelectedRoot

pub record ActiveGrant : Type 0 where
  pub roots : Map SelectedRoot
  pub used_request_ids : List Text

pub record AgentSession : Type 0 where
  pub grant_id : Text
  pub agent_id : Text
  pub session_token_sha256 : Text
  pub expires_at : ℕ
  pub request_count : ℕ
  pub transport_origin : Option Text

pub record State : Type 0 where
  pub config_root : Option Text
  pub persisted : PersistedAgentAccess
  pub pending_selections : Map PendingSelection
  pub active_grants : Map ActiveGrant
  pub sessions : Map AgentSession

-- The state behind the lock, and the configuration directory.
pub record World : Type 0 where
  pub state : State
  pub disk : Disk

-- What the authority takes from other crates and from the platform.
pub record Platform : Type 0 where
  pub unix_epoch : ℕ
  pub sha256 : List ℕ → List ℕ
  pub parse_url : Text → Option Url

abbrev pub nanos_per_second : ℕ
nanos_per_second = 1_000_000_000

abbrev pub nanos_per_milli : ℕ
nanos_per_milli = 1_000_000

abbrev pub max_pending_selections : ℕ
max_pending_selections = 16

abbrev pub selection_ttl : ℕ
selection_ttl = 5 * 60 * nanos_per_second

abbrev pub session_ttl : ℕ
session_ttl = 30 * 60 * nanos_per_second

abbrev pub denial : DenialCode → Message → Denial
denial code message = record { code = code; message = message }

-- `u64::checked_add` and `checked_mul`.
abbrev pub checked : ℕ → Option ℕ
checked n = if ltb n (2 ^ 64) then some n else none

unfoldable pub unix_ms : Platform → ℕ → Result Message ℕ
unix_ms p time = do
  fail_if (ltb time p.unix_epoch) clock_before_epoch
  ok_or (checked ((time - p.unix_epoch) / nanos_per_milli)) clock_not_representable

unfoldable pub prune_pending : ℕ → State → State
prune_pending now s = record s {
  pending_selections = retain (λ selection. ltb now selection.expires_at) s.pending_selections;
}

unfoldable pub prune_sessions : ℕ → State → State
prune_sessions now s = record s {
  sessions = retain (λ session. ltb now session.expires_at) s.sessions;
}

abbrev pub find_grant : Text → State → Option AgentGrantRecord
find_grant grant_id s = find (λ grant. text_eq grant.grant_id grant_id) s.persisted.grants

unfoldable pub ensure_grant_usable : State → AgentGrantRecord → ℕ → Result Denial (Unit {0})
ensure_grant_usable s grant now_ms = do
  fail_if (is_some grant.revoked_at_unix_ms) (denial revoked_grant grant_revoked)
  fail_if (leb grant.expires_at_unix_ms now_ms) (denial expired_grant grant_expired)
  fail_if (not (contains_key grant.grant_id s.active_grants)) (denial inactive_grant grant_inactive)

unfoldable pub valid_bearer_shape : Text → Bool
valid_bearer_shape token = byte_len token == 64 && all_lower_hex token

-- A `validate_safe_id` whose message becomes a denial.
abbrev pub invalid : {A : Type 0} → Result Message A → Result Denial A
invalid = map_err (denial invalid_request)

abbrev pub validate_scope_id : Option Text → Result Message (Unit {0})
validate_scope_id none = ok tt
validate_scope_id (some scope_id) = validate_safe_id agent_scope_id scope_id

unfoldable pub validate_authorize_request : AuthorizeRequest → Result Denial (Unit {0})
validate_authorize_request r = do
  invalid (validate_safe_id agent_grant_id r.grant_id)
  invalid (validate_safe_id agent_id r.agent_id)
  invalid (validate_safe_id agent_session_id r.session_id)
  invalid (validate_safe_id agent_request_id r.request_id)
  fail_if (not (valid_bearer_shape r.session_token)) (denial unauthenticated authentication_failed)
  invalid (validate_scope_id r.scope_id)
  fail_if (r.request_bytes == 0 || r.response_budget_bytes == 0)
      (denial invalid_request budgets_not_positive)

unfoldable pub next_sequence : State → Result Message ℕ
next_sequence s = ok_or (checked (s.persisted.next_audit_sequence + 1)) sequence_exhausted

-- `next_audit_sequence`.
abbrev pub next_audit_sequence : State → Result Denial ℕ
next_audit_sequence s = map_err (denial authority_unavailable) (next_sequence s)

unfoldable pub summary : AgentGrantRecord → Bool → ℕ → AgentGrantSummary
summary grant is_active now_ms = record {
  grant_id = grant.grant_id;
  agent_id = grant.agent_id;
  label = grant.label;
  tool_ids = grant.tool_ids;
  allowed_http_origins = grant.allowed_http_origins;
  scopes = grant.scopes;
  created_at_unix_ms = grant.created_at_unix_ms;
  expires_at_unix_ms = grant.expires_at_unix_ms;
  revoked_at_unix_ms = grant.revoked_at_unix_ms;
  status =
      if is_some grant.revoked_at_unix_ms
      then revoked
      else if leb grant.expires_at_unix_ms now_ms
      then expired
      else if is_active
      then active
      else inactive;
  limits = grant.limits;
}

abbrev pub summary_le : AgentGrantSummary → AgentGrantSummary → Bool
summary_le left right = text_le left.grant_id right.grant_id

unfoldable pub state_summary : State → ℕ → AgentAccessState
state_summary s now_ms = record {
  schema_version = s.persisted.schema_version;
  tool_catalog_version = tool_catalog_version;
  tools = tool_catalog;
  grants = sort_by summary_le (
      map (λ grant. summary grant (contains_key grant.grant_id s.active_grants) now_ms)
        s.persisted.grants);
}
