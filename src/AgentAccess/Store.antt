-- ===== src/AgentAccess/Store.antt =====
-- agent_access/store.rs: the persisted grants and the audit trail. A `Disk` is what the
-- configuration directory holds. Operating-system calls and JSON belong to other crates: whether a
-- step of them fails is an argument, and a file's content is the value that was written.
pub mod Write
pub mod Valid
pub mod Ids
use aiknowledge_sort_mit.Prelude.{
  ℕ, ◌+◌, ◌-◌, ◌*◌, ◌==◌, Bool, true, false, not, ◌&&◌, ◌||◌, Option, none, some, List, [], ◌∷◌,
  ◌++◌, Text, codes, ltb, leb, in_range, length, is_empty, any, member, byte_len, is_control,
  all_lower_hex, Result, ok, err, ◌>>=◌, ◌>>◌, fail_if,
}
use aiknowledge_sort_mit.AgentAccess.Errors.{
  Message, agent_grant_id, agent_id, agent_scope_id, audit_event_type, audit_subject_id,
  schema_unsupported, too_many_grants, persisted_label, grant_ids_not_unique, persisted_tools,
  persisted_origins, persisted_scopes, persisted_scope, persisted_expiry, persisted_ttl,
  persisted_revocation, persisted_digest, io_failure,
}
use aiknowledge_sort_mit.AgentAccess.Schema.{
  Url, AgentResourceLimits, AgentScopeSummary, max_scopes, max_http_origins, min_grant_ttl_seconds,
  max_grant_ttl_seconds, catalog_ids, validate_http_origin, validate_limits, validate_safe_id,
}

abbrev pub agent_access_schema_version : ℕ
agent_access_schema_version = 1

abbrev pub max_grants : ℕ
max_grants = 32

pub record AgentGrantRecord : Type 0 where
  pub grant_id : Text
  pub agent_id : Text
  pub label : Text
  pub tool_ids : List Text
  pub allowed_http_origins : List Text
  pub scopes : List AgentScopeSummary
  pub created_at_unix_ms : ℕ
  pub expires_at_unix_ms : ℕ
  pub revoked_at_unix_ms : Option ℕ
  pub limits : AgentResourceLimits
  pub grant_token_sha256 : Text

pub record PersistedAgentAccess : Type 0 where
  pub schema_version : ℕ
  pub next_audit_sequence : ℕ
  pub grants : List AgentGrantRecord

abbrev pub default_persisted : PersistedAgentAccess
default_persisted = record {
  schema_version = agent_access_schema_version;
  next_audit_sequence = 0;
  grants = [];
}

pub record AgentAuditEvent : Type 0 where
  pub schema_version : ℕ
  pub sequence : ℕ
  pub event_id : Text
  pub event_type : Text
  pub grant_id : Text
  pub subject_id : Option Text
  pub at_unix_ms : ℕ
  pub actor : Text

-- The configuration file, if there is one, and the audit files, oldest first.
pub record Disk : Type 0 where
  pub config : Option PersistedAgentAccess
  pub audit : List AgentAuditEvent

-- The name of a new audit file, and for each group of system calls the error it ends with, if any.
pub record WriteIo : Type 0 where
  pub event_id : Text
  -- `ensure_directory`, twice
  pub directories : Option Text
  -- `write_new_json` before the file has its content, and the `sync_all` behind that
  pub audit_create : Option Text
  pub audit_sync : Option Text
  -- `write_state` up to the `rename`, and the `sync_directory` behind it
  pub config_replace : Option Text
  pub config_sync : Option Text

-- `read`: `ensure_directory`, and the checks and reads of a file that is there.
pub record ReadIo : Type 0 where
  pub directory : Option Text
  pub file : Option Text

abbrev pub io_step : Option Text → Result Message (Unit {0})
io_step none = ok tt
io_step (some error) = err (io_failure error)

-- The loop over `allowed_http_origins` of a record.
unfoldable pub check_persisted_origins :
    (Text → Option Url) → List Text → List Text → Result Message (Unit {0})
check_persisted_origins parse_url origins [] = ok tt
check_persisted_origins parse_url origins (origin ∷ rest) = do
  normalized ← validate_http_origin parse_url origin
  fail_if (member normalized origins) persisted_origins
  check_persisted_origins parse_url (normalized ∷ origins) rest

-- The closure under `any` over `tool_ids`: a tool is unknown or met before.
unfoldable pub bad_tools : List Text → List Text → Bool
bad_tools tools [] = false
bad_tools tools (tool ∷ rest) =
    not (member tool catalog_ids) || member tool tools || bad_tools (tool ∷ tools) rest

-- The loop over `scopes` of a record.
unfoldable pub check_persisted_scopes :
    List Text → List AgentScopeSummary → Result Message (Unit {0})
check_persisted_scopes scopes [] = ok tt
check_persisted_scopes scopes (scope ∷ rest) = do
  validate_safe_id agent_scope_id scope.scope_id
  fail_if
      (member scope.scope_id scopes
        || is_empty scope.display_path
        || any is_control scope.display_path)
      persisted_scope
  check_persisted_scopes (scope.scope_id ∷ scopes) rest

abbrev pub revoked_before : Option ℕ → ℕ → Bool
revoked_before none created = false
revoked_before (some revoked) created = ltb revoked created

-- The body of the loop of `validate_state`; `grant_ids` are those of the grants before.
unfoldable pub validate_record :
    (Text → Option Url) → List Text → AgentGrantRecord → Result Message (Unit {0})
validate_record parse_url grant_ids grant = do
  validate_safe_id agent_grant_id grant.grant_id
  validate_safe_id agent_id grant.agent_id
  fail_if (is_empty grant.label || ltb 256 (length grant.label) || any is_control grant.label)
      persisted_label
  fail_if (member grant.grant_id grant_ids) grant_ids_not_unique
  fail_if (is_empty grant.tool_ids || ltb (length catalog_ids) (length grant.tool_ids))
      persisted_tools
  fail_if (ltb max_http_origins (length grant.allowed_http_origins)) persisted_origins
  check_persisted_origins parse_url [] grant.allowed_http_origins
  fail_if (bad_tools [] grant.tool_ids) persisted_tools
  fail_if (is_empty grant.scopes || ltb max_scopes (length grant.scopes)) persisted_scopes
  check_persisted_scopes [] grant.scopes
  fail_if (leb grant.expires_at_unix_ms grant.created_at_unix_ms) persisted_expiry
  fail_if
      (not (
        in_range (min_grant_ttl_seconds * 1000) (max_grant_ttl_seconds * 1000)
          (grant.expires_at_unix_ms - grant.created_at_unix_ms)))
      persisted_ttl
  fail_if (revoked_before grant.revoked_at_unix_ms grant.created_at_unix_ms) persisted_revocation
  validate_limits grant.limits
  fail_if
      (not (byte_len grant.grant_token_sha256 == 64)
        || not (all_lower_hex grant.grant_token_sha256))
      persisted_digest

unfoldable pub validate_records :
    (Text → Option Url) → List Text → List AgentGrantRecord → Result Message (Unit {0})
validate_records parse_url grant_ids [] = ok tt
validate_records parse_url grant_ids (grant ∷ rest) = do
  validate_record parse_url grant_ids grant
  validate_records parse_url (grant.grant_id ∷ grant_ids) rest

unfoldable pub validate_state :
    (Text → Option Url) → PersistedAgentAccess → Result Message (Unit {0})
validate_state parse_url state = do
  fail_if (not (state.schema_version == agent_access_schema_version)) schema_unsupported
  fail_if (ltb max_grants (length state.grants)) too_many_grants
  validate_records parse_url [] state.grants

-- What a file that is there parses to is valid, or the read fails.
abbrev parsed :
    (Text → Option Url)
    → Option PersistedAgentAccess
    → Option Text
    → Result Message PersistedAgentAccess
parsed parse_url none file = ok default_persisted
parsed parse_url (some state) file = do io_step file; validate_state parse_url state; ok state

unfoldable pub read_state :
    (Text → Option Url) → ReadIo → Disk → Result Message PersistedAgentAccess
read_state parse_url io disk = do io_step io.directory; parsed parse_url disk.config io.file
