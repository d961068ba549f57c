-- ===== src/AgentAccess/Authority/Records.antt =====
-- agent_access/authority.rs: what `create_grant` and `revoke` make of the persisted state.
use aiknowledge_sort_mit.Prelude.{
  ℕ, ◌+◌, ◌*◌, ◌^◌, Bool, Option, none, some, List, [], ◌∷◌, ◌++◌, map, Text, codes, ltb, leb,
  length, text_eq, text_le, sort_by, Result, ok, fail_if, ◌>>=◌, ◌>>◌, if◌then◌else◌,
}
use aiknowledge_sort_mit.Prelude.Maps.{from_list}
use aiknowledge_sort_mit.AgentAccess.Errors.{Message, selection_expired, too_many_grants}
use aiknowledge_sort_mit.AgentAccess.Schema.{AgentScopeSummary, CreateAgentGrantRequest}
use aiknowledge_sort_mit.AgentAccess.Token.{issue_token}
use aiknowledge_sort_mit.AgentAccess.Store.{AgentGrantRecord, PersistedAgentAccess, ReadIo, WriteIo}
use aiknowledge_sort_mit.AgentAccess.State.{
  SelectedRoot, PendingSelection, ActiveGrant, Platform, State, checked, next_sequence,
}

abbrev pub root_summaries : List SelectedRoot → List AgentScopeSummary
root_summaries = map (λ root. root.summary)

-- What the platform supplies while a grant is created or revoked.
pub record GrantIo : Type 0 where
  pub read : ReadIo
  pub write : WriteIo
  pub grant_id : Text
  pub random : Option (List ℕ)

-- `now_ms.checked_add(expires_in_seconds.checked_mul(1000)?)?`
abbrev pub grant_expiry : ℕ → ℕ → Option ℕ
grant_expiry now_ms seconds =
    if ltb (seconds * 1000) (2 ^ 64) then checked (now_ms + seconds * 1000) else none

abbrev pub record_le : AgentGrantRecord → AgentGrantRecord → Bool
record_le left right = text_le left.grant_id right.grant_id

abbrev pub grant_created : Text
grant_created = codes "grant.created"

abbrev pub grant_revoked : Text
grant_revoked = codes "grant.revoked"

-- The record of a new grant.
unfoldable pub new_record :
    CreateAgentGrantRequest → Text → List SelectedRoot → ℕ → ℕ → Text → AgentGrantRecord
new_record request grant_id roots now_ms expires_at_unix_ms digest = record {
  grant_id = grant_id;
  agent_id = request.agent_id;
  label = request.label;
  tool_ids = request.tool_ids;
  allowed_http_origins = request.allowed_http_origins;
  scopes = root_summaries roots;
  created_at_unix_ms = now_ms;
  expires_at_unix_ms = expires_at_unix_ms;
  revoked_at_unix_ms = none;
  limits = request.limits;
  grant_token_sha256 = digest;
}

-- The next persisted state with a new record: pushed, then sorted by id.
abbrev pub with_grant : PersistedAgentAccess → ℕ → AgentGrantRecord → PersistedAgentAccess
with_grant persisted sequence grant = record persisted {
  next_audit_sequence = sequence;
  grants = sort_by record_le (persisted.grants ++ grant ∷ []);
}

-- What is settled of a new grant before it is written.
pub record Prepared : Type 0 where
  pub token : Text
  pub grant : AgentGrantRecord
  pub next : PersistedAgentAccess

-- The steps of `create_grant` between the removal of the selection and the write.
unfoldable pub prepare_grant :
    Platform
    → GrantIo
    → CreateAgentGrantRequest
    → ℕ
    → ℕ
    → ℕ
    → PendingSelection
    → State
    → Result Message Prepared
prepare_grant p io request now now_ms expires_at_unix_ms selection s = do
  fail_if (leb selection.expires_at now) selection_expired
  fail_if (leb 32 (length s.persisted.grants)) too_many_grants
  issued ← issue_token p.sha256 io.random
  let grant = new_record request io.grant_id selection.roots now_ms expires_at_unix_ms issued.1
  sequence ← next_sequence s
  ok (record { token = issued.0; grant = grant; next = with_grant s.persisted sequence grant })

-- The new grant has its scopes by id, and no request was made under it.
abbrev pub new_active : PendingSelection → ActiveGrant
new_active selection = record {
  roots = from_list (map (λ chosen. (chosen.summary.scope_id, chosen)) selection.roots);
  used_request_ids = [];
}

-- `grants[index].revoked_at_unix_ms = Some(now_ms)`, at the first record with the id.
unfoldable pub mark_revoked : Text → ℕ → List AgentGrantRecord → List AgentGrantRecord
mark_revoked grant_id now_ms [] = []
mark_revoked grant_id now_ms (grant ∷ grants) =
    if text_eq grant.grant_id grant_id
    then record grant { revoked_at_unix_ms = some now_ms } ∷ grants
    else grant ∷ mark_revoked grant_id now_ms grants

abbrev pub with_revoked : PersistedAgentAccess → ℕ → Text → ℕ → PersistedAgentAccess
with_revoked persisted sequence grant_id now_ms = record persisted {
  next_audit_sequence = sequence;
  grants = mark_revoked grant_id now_ms persisted.grants;
}
