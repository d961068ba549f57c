-- ===== src/AgentAccess/Schema.antt =====
-- agent_access/schema.rs: the bounds, the tool catalog, and the validation of what a caller sends.
use aiknowledge_sort_mit.Prelude.{
  ℕ, ◌*◌, ◌==◌, Bool, true, false, not, ◌&&◌, ◌||◌, Option, none, some, List, [], ◌∷◌, map, Text,
  codes, ltb, in_range, length, is_empty, all, any, member, utf8, byte_len, text_eq,
  is_ascii_alphanumeric, is_control, is_whitespace, is_some, Result, ok, ◌>>=◌, ◌>>◌, fail_if,
  ok_or,
}
use aiknowledge_sort_mit.AgentAccess.Errors.{
  Field, Message, selection_id, agent_id, id_length, id_required, id_unsafe, label_invalid,
  tool_count, origin_count, expiry_range, unsupported_tool, duplicate_tool, duplicate_origin,
  origin_unsafe, origin_invalid, origin_not_literal, origin_not_canonical, request_limit,
  request_byte_limit, response_byte_limit,
}

abbrev pub max_id_bytes : ℕ
max_id_bytes = 128

abbrev pub max_label_chars : ℕ
max_label_chars = 256

abbrev pub max_scopes : ℕ
max_scopes = 16

abbrev pub max_tools : ℕ
max_tools = 16

abbrev pub max_http_origins : ℕ
max_http_origins = 8

abbrev pub min_grant_ttl_seconds : ℕ
min_grant_ttl_seconds = 60

abbrev pub max_grant_ttl_seconds : ℕ
max_grant_ttl_seconds = 30 * 24 * 60 * 60

abbrev pub min_request_bytes : ℕ
min_request_bytes = 1024

abbrev pub max_request_bytes : ℕ
max_request_bytes = 1024 * 1024

abbrev pub min_response_bytes : ℕ
min_response_bytes = 1024

abbrev pub max_response_bytes : ℕ
max_response_bytes = 4 * 1024 * 1024

abbrev pub max_requests_per_session : ℕ
max_requests_per_session = 100_000

pub data AgentToolEffect : Type 0 where
  read semantic_advice : AgentToolEffect

pub record AgentToolDescriptor : Type 0 where
  pub tool_id : Text
  pub title : Text
  pub effect : AgentToolEffect

-- A descriptor from its literals.
abbrev pub descriptor : Text → Text → AgentToolEffect → AgentToolDescriptor
descriptor tool_id title effect = record { tool_id = tool_id; title = title; effect = effect }

unfoldable pub tool_catalog : List AgentToolDescriptor
tool_catalog =
    descriptor (codes "capabilities.read") (codes "Read capability catalog") read
    ∷ descriptor (codes "knowledge.read") (codes "Read authoritative knowledge") read
    ∷ descriptor (codes "graph.read") (codes "Read evidence graph") read
    ∷ descriptor (codes "comparison.run") (codes "Run semantic comparison") semantic_advice
    ∷ descriptor (codes "classification.propose") (codes "Propose classification") semantic_advice
    ∷ descriptor (codes "cleanup.suggest") (codes "Suggest duplicate cleanup") semantic_advice
    ∷ []

unfoldable pub catalog_ids : List Text
catalog_ids = map (λ tool. tool.tool_id) tool_catalog

pub record AgentResourceLimits : Type 0 where
  pub max_requests_per_session : ℕ
  pub max_request_bytes : ℕ
  pub max_response_bytes : ℕ

pub record CreateAgentGrantRequest : Type 0 where
  pub selection_id : Text
  pub agent_id : Text
  pub label : Text
  pub tool_ids : List Text
  pub allowed_http_origins : List Text
  pub expires_in_seconds : ℕ
  pub limits : AgentResourceLimits

pub record AgentScopeSummary : Type 0 where
  pub scope_id : Text
  pub display_path : Text

pub data AgentGrantStatus : Type 0 where
  active inactive revoked expired : AgentGrantStatus

pub record AgentGrantSummary : Type 0 where
  pub grant_id : Text
  pub agent_id : Text
  pub label : Text
  pub tool_ids : List Text
  pub allowed_http_origins : List Text
  pub scopes : List AgentScopeSummary
  pub created_at_unix_ms : ℕ
  pub expires_at_unix_ms : ℕ
  pub revoked_at_unix_ms : Option ℕ
  pub status : AgentGrantStatus
  pub limits : AgentResourceLimits

pub record NativeScopeSelection : Type 0 where
  pub selection_id : Text
  pub scopes : List AgentScopeSummary

pub record IssuedAgentGrant : Type 0 where
  pub grant : AgentGrantSummary
  pub grant_token : Text

pub record AgentAccessState : Type 0 where
  pub schema_version : ℕ
  pub tool_catalog_version : Text
  pub tools : List AgentToolDescriptor
  pub grants : List AgentGrantSummary

abbrev pub tool_catalog_version : Text
tool_catalog_version = codes "agent-tools-v1"

pub record OpenSessionRequest : Type 0 where
  pub grant_id : Text
  pub agent_id : Text
  pub grant_token : Text
  pub transport_origin : Option Text

pub record IssuedSession : Type 0 where
  pub session_id : Text
  pub session_token : Text
  pub expires_at_unix_ms : ℕ

pub record AuthorizeRequest : Type 0 where
  pub grant_id : Text
  pub agent_id : Text
  pub session_id : Text
  pub session_token : Text
  pub request_id : Text
  pub tool_id : Text
  pub scope_id : Option Text
  pub request_bytes : ℕ
  pub response_budget_bytes : ℕ
  pub transport_origin : Option Text

pub data DenialCode : Type 0 where
  invalid_request unauthenticated unknown_grant inactive_grant revoked_grant : DenialCode
  expired_grant unknown_session session_mismatch origin_denied replayed_request : DenialCode
  tool_denied scope_denied request_limit_exceeded request_too_large : DenialCode
  response_budget_exceeded authority_unavailable : DenialCode

pub record Denial : Type 0 where
  pub code : DenialCode
  pub message : Message

-- What `url::Url::parse` reports of a text; the crate `url` is a parameter.
pub data UrlHost : Type 0 where
  ipv4 : ℕ → ℕ → ℕ → ℕ → UrlHost
  ipv6 : List ℕ → UrlHost
  domain : Text → UrlHost

pub record Url : Type 0 where
  pub scheme : Text
  pub username : Text
  pub password : Option Text
  pub port : Option ℕ
  pub path : Text
  pub query : Option Text
  pub fragment : Option Text
  pub host : Option UrlHost
  pub ascii_origin : Text

unfoldable pub segments_eq : List ℕ → List ℕ → Bool
segments_eq [] [] = true
segments_eq (a ∷ as') (b ∷ bs) = (a == b) && segments_eq as' bs
segments_eq _ _ = false

-- `Ipv4Addr::is_loopback` is 127.0.0.0/8, and `Ipv6Addr::is_loopback` is ::1.
unfoldable pub is_loopback : Option UrlHost → Bool
is_loopback (some (ipv4 a b c d)) = a == 127
is_loopback (some (ipv6 segments)) = segments_eq segments (0 ∷ 0 ∷ 0 ∷ 0 ∷ 0 ∷ 0 ∷ 0 ∷ 1 ∷ [])
is_loopback (some (domain name)) = false
is_loopback none = false

abbrev not_literal : Url → Bool
not_literal url =
    not (text_eq url.scheme (codes "http"))
    || not (is_empty url.username)
    || is_some url.password
    || not (is_some url.port)
    || not (text_eq url.path (codes "/"))
    || is_some url.query
    || is_some url.fragment

unfoldable pub validate_http_origin : (Text → Option Url) → Text → Result Message Text
validate_http_origin parse_url value = do
  fail_if (is_empty value || any (λ c. is_whitespace c || is_control c) value) origin_unsafe
  url ← ok_or (parse_url value) origin_invalid
  fail_if (not_literal url) origin_not_literal
  fail_if (not (is_loopback url.host) || not (text_eq url.ascii_origin value)) origin_not_canonical
  ok url.ascii_origin

unfoldable pub validate_limits : AgentResourceLimits → Result Message (Unit {0})
validate_limits l = do
  fail_if (not (in_range 1 max_requests_per_session l.max_requests_per_session)) request_limit
  fail_if (not (in_range min_request_bytes max_request_bytes l.max_request_bytes))
      request_byte_limit
  fail_if (not (in_range min_response_bytes max_response_bytes l.max_response_bytes))
      response_byte_limit

-- The first byte, and the bytes behind it.
abbrev pub safe_bytes : List ℕ → Option Bool
safe_bytes [] = none
safe_bytes (first ∷ bytes) = some (
    is_ascii_alphanumeric first
    && all (λ b. is_ascii_alphanumeric b || b == b'-' || b == b'_' || b == b'.') bytes)

unfoldable pub validate_safe_id : Field → Text → Result Message (Unit {0})
validate_safe_id field value = do
  fail_if (is_empty value || ltb max_id_bytes (byte_len value)) (id_length field)
  safe ← ok_or (safe_bytes (utf8 value)) (id_required field)
  fail_if (not safe) (id_unsafe field)

unfoldable pub validate_visible_label : Text → Result Message (Unit {0})
validate_visible_label value =
    fail_if (is_empty value || ltb max_label_chars (length value) || any is_control value)
      label_invalid

-- The loop over `tool_ids`; `unique` holds the ids met so far.
unfoldable pub check_tools : List Text → List Text → Result Message (Unit {0})
check_tools unique [] = ok tt
check_tools unique (tool_id ∷ rest) = do
  fail_if (not (member tool_id catalog_ids)) (unsupported_tool tool_id)
  fail_if (member tool_id unique) (duplicate_tool tool_id)
  check_tools (tool_id ∷ unique) rest

-- The loop over `allowed_http_origins`.
unfoldable pub check_origins :
    (Text → Option Url) → List Text → List Text → Result Message (Unit {0})
check_origins parse_url origins [] = ok tt
check_origins parse_url origins (origin ∷ rest) = do
  normalized ← validate_http_origin parse_url origin
  fail_if (member normalized origins) (duplicate_origin origin)
  check_origins parse_url (normalized ∷ origins) rest

-- `CreateAgentGrantRequest::validate`.
unfoldable pub validate_create_request :
    (Text → Option Url) → CreateAgentGrantRequest → Result Message (Unit {0})
validate_create_request parse_url r = do
  validate_safe_id selection_id r.selection_id
  validate_safe_id agent_id r.agent_id
  validate_visible_label r.label
  fail_if (is_empty r.tool_ids || ltb max_tools (length r.tool_ids)) tool_count
  check_tools [] r.tool_ids
  fail_if (ltb max_http_origins (length r.allowed_http_origins)) origin_count
  check_origins parse_url [] r.allowed_http_origins
  fail_if (not (in_range min_grant_ttl_seconds max_grant_ttl_seconds r.expires_in_seconds))
      expiry_range
  validate_limits r.limits
