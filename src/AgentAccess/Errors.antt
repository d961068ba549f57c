-- ===== src/AgentAccess/Errors.antt =====
-- The messages of agent_access/{schema,store,authority}.rs, one constructor for each text. A
-- constructor carries what the source's `format!` puts into the text.
use aiknowledge_sort_mit.Prelude.{Text}

-- The `field` argument of `validate_safe_id`.
pub data Field : Type 0 where
  selection_id agent_id agent_grant_id agent_session_id agent_request_id agent_scope_id : Field
  audit_event_type audit_subject_id : Field

pub data Message : Type 0 where
  -- schema.rs
  id_length id_required id_unsafe : Field → Message
  label_invalid tool_count origin_count expiry_range : Message
  unsupported_tool duplicate_tool duplicate_origin : Text → Message
  origin_unsafe origin_invalid origin_not_literal origin_not_canonical : Message
  request_limit request_byte_limit response_byte_limit token_unavailable : Message
  -- store.rs
  schema_unsupported too_many_grants persisted_label grant_ids_not_unique persisted_tools : Message
  persisted_origins persisted_scopes persisted_scope persisted_expiry persisted_ttl : Message
  persisted_revocation persisted_digest : Message
  io_failure : Text → Message
  -- authority.rs
  authentication_failed no_such_grant origin_not_granted not_loaded no_such_session : Message
  session_mismatched origin_mismatched request_id_used session_limit_reached : Message
  tool_not_granted request_too_long response_too_long grant_inactive scope_not_granted : Message
  scope_not_cloned budgets_not_positive grant_revoked grant_expired sequence_exhausted : Message
  select_count scope_not_directory no_scopes too_many_selections expiry_overflows : Message
  unknown_selection selection_expired config_root_changed clock_before_epoch : Message
  clock_not_representable : Message
  root_rejected : Text → Message
