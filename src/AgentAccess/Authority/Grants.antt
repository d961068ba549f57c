-- ===== src/AgentAccess/Authority/Grants.antt =====
-- agent_access/authority.rs: `create_grant`, `inspect` and `revoke`, which the desktop user reaches.
use aiknowledge_sort_mit.Prelude.{ℕ, true, not, Text, is_some, text_eq, ok, ok_or, if◌then◌else◌}
use aiknowledge_sort_mit.Prelude.Maps.{get, insert, remove, retain}
use aiknowledge_sort_mit.Prelude.Execs.{Exec, pure, lift, ◌>>=◌, ◌>>◌}
use aiknowledge_sort_mit.AgentAccess.Errors.{
  Message, agent_grant_id, expiry_overflows, unknown_selection, no_such_grant,
}
use aiknowledge_sort_mit.AgentAccess.Schema.{
  CreateAgentGrantRequest, IssuedAgentGrant, AgentAccessState, validate_create_request,
  validate_safe_id,
}
use aiknowledge_sort_mit.AgentAccess.Store.{ReadIo, WriteIo}
use aiknowledge_sort_mit.AgentAccess.Store.Write.{write_change}
use aiknowledge_sort_mit.AgentAccess.State.{
  Platform, State, World, unix_ms, prune_pending, find_grant, next_sequence, summary, state_summary,
}
use aiknowledge_sort_mit.AgentAccess.Authority.Records.{
  GrantIo, grant_expiry, grant_created, grant_revoked, prepare_grant, new_active, with_revoked,
}
use aiknowledge_sort_mit.AgentAccess.Authority.{on_disk, get_state, modify_state, ensure_loaded}

unfoldable pub create_grant :
    Platform → GrantIo → Text → CreateAgentGrantRequest → ℕ → Exec World Message IssuedAgentGrant
create_grant p io root request now = do
  lift (validate_create_request p.parse_url request)
  now_ms ← lift (unix_ms p now)
  expires_at_unix_ms ←
      lift (ok_or (grant_expiry now_ms request.expires_in_seconds) expiry_overflows)
  ensure_loaded p io.read root
  modify_state (prune_pending now)
  s ← get_state
  selection ← lift (ok_or (get request.selection_id s.pending_selections) unknown_selection)
  modify_state
      (λ t. record t { pending_selections = remove request.selection_id t.pending_selections })
  prepared ← lift (prepare_grant p io request now now_ms expires_at_unix_ms selection s)
  on_disk (write_change p.parse_url io.write prepared.next grant_created io.grant_id now_ms)
  modify_state (λ t. record t {
    persisted = prepared.next;
    active_grants = insert io.grant_id (new_active selection) t.active_grants;
  })
  pure (record { grant = summary prepared.grant true now_ms; grant_token = prepared.token })

unfoldable pub inspect : Platform → ReadIo → Text → ℕ → Exec World Message AgentAccessState
inspect p io root now = do
  now_ms ← lift (unix_ms p now)
  ensure_loaded p io root
  s ← get_state
  pure (state_summary s now_ms)

-- The branch of `revoke` for a grant that is not revoked yet.
unfoldable pub revoke_now : Platform → WriteIo → Text → ℕ → State → Exec World Message (Unit {0})
revoke_now p io grant_id now_ms s = do
  sequence ← lift (next_sequence s)
  let next = with_revoked s.persisted sequence grant_id now_ms
  on_disk (write_change p.parse_url io next grant_revoked grant_id now_ms)
  modify_state (λ t. record t {
    persisted = next;
    active_grants = remove grant_id t.active_grants;
    sessions = retain (λ session. not (text_eq session.grant_id grant_id)) t.sessions;
  })

unfoldable pub revoke : Platform → GrantIo → Text → Text → ℕ → Exec World Message AgentAccessState
revoke p io root grant_id now = do
  lift (validate_safe_id agent_grant_id grant_id)
  now_ms ← lift (unix_ms p now)
  ensure_loaded p io.read root
  s ← get_state
  grant ← lift (ok_or (find_grant grant_id s) no_such_grant)
  if is_some grant.revoked_at_unix_ms then lift (ok tt) else revoke_now p io.write grant_id now_ms s
  t ← get_state
  pure (state_summary t now_ms)
