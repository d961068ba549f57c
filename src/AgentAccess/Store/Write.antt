-- ===== src/AgentAccess/Store/Write.antt =====
-- agent_access/store.rs: the writes, as actions on the `Disk`.
use aiknowledge_sort_mit.Prelude.{ℕ, Option, none, some, [], ◌∷◌, ◌++◌, Text, codes}
use aiknowledge_sort_mit.Prelude.Execs.{Exec, lift, modify, ◌>>◌}
use aiknowledge_sort_mit.AgentAccess.Errors.{
  Message, agent_grant_id, audit_event_type, audit_subject_id,
}
use aiknowledge_sort_mit.AgentAccess.Schema.{Url, validate_safe_id}
use aiknowledge_sort_mit.AgentAccess.Store.{
  PersistedAgentAccess, AgentAuditEvent, Disk, WriteIo, io_step, validate_state,
  agent_access_schema_version,
}

-- `write_new_json`. The file has its content before the `sync_all` that may still fail.
unfoldable pub write_new_json : WriteIo → AgentAuditEvent → Exec Disk Message (Unit {0})
write_new_json io event = do
  lift (io_step io.audit_create)
  modify (λ d. record d { audit = d.audit ++ event ∷ [] })
  lift (io_step io.audit_sync)

-- `write_state`. The new content is in place once the temporary file has been renamed.
unfoldable pub write_state : WriteIo → PersistedAgentAccess → Exec Disk Message (Unit {0})
write_state io state = do
  lift (io_step io.config_replace)
  modify (λ d. record d { config = some state })
  lift (io_step io.config_sync)

unfoldable pub write_change :
    (Text → Option Url)
    → WriteIo
    → PersistedAgentAccess
    → Text
    → Text
    → ℕ
    → Exec Disk Message (Unit {0})
write_change parse_url io state event_type grant_id at_unix_ms = do
  lift (validate_state parse_url state)
  lift (validate_safe_id audit_event_type event_type)
  lift (validate_safe_id agent_grant_id grant_id)
  lift (io_step io.directories)
  write_new_json io (record {
    schema_version = agent_access_schema_version;
    sequence = state.next_audit_sequence;
    event_id = io.event_id;
    event_type = event_type;
    grant_id = grant_id;
    subject_id = none;
    at_unix_ms = at_unix_ms;
    actor = codes "desktop-user";
  })
  write_state io state

unfoldable pub write_runtime_event :
    WriteIo → ℕ → Text → Text → Text → ℕ → Exec Disk Message (Unit {0})
write_runtime_event io sequence event_type grant_id subject_id at_unix_ms = do
  lift (validate_safe_id audit_event_type event_type)
  lift (validate_safe_id agent_grant_id grant_id)
  lift (validate_safe_id audit_subject_id subject_id)
  lift (io_step io.directories)
  write_new_json io (record {
    schema_version = agent_access_schema_version;
    sequence = sequence;
    event_id = io.event_id;
    event_type = event_type;
    grant_id = grant_id;
    subject_id = some subject_id;
    at_unix_ms = at_unix_ms;
    actor = codes "agent-access-kernel";
  })
