-- ===== src/AgentAccess/Scenarios.antt =====
-- A run of the authority: a grant is selected, created and used.
use aiknowledge_sort_mit.Prelude.{
  ℕ, zero, suc, ◌≡◌, refl, true, none, some, List, [], ◌∷◌, Text, codes, take, any, all, find,
  member, utf8, utf8_char, byte_len, text_eq, text_le, all_lower_hex, insert_by, sort_by, is_ok,
}
use aiknowledge_sort_mit.Prelude.Maps.{get, insert, remove, retain, update, from_list}
use aiknowledge_sort_mit.Prelude.Execs.{continue}
use aiknowledge_sort_mit.Discovery.Roots.{
  FilePath, directory_root, components_eq, components_le, dedup, dedup_after,
}
use aiknowledge_sort_mit.AgentAccess.Schema.{
  AgentResourceLimits, CreateAgentGrantRequest, OpenSessionRequest, AuthorizeRequest, tool_catalog,
  catalog_ids, validate_http_origin, validate_limits, validate_safe_id, validate_visible_label,
  check_tools, check_origins, validate_create_request,
}
use aiknowledge_sort_mit.AgentAccess.Token.{
  encode_hex, token_digest, issue_token, difference, verify_token,
}
use aiknowledge_sort_mit.AgentAccess.Store.{
  Disk, WriteIo, ReadIo, check_persisted_origins, bad_tools, check_persisted_scopes,
  validate_record, validate_records, validate_state, read_state,
}
use aiknowledge_sort_mit.AgentAccess.Store.Write.{
  write_new_json, write_state, write_change, write_runtime_event,
}
use aiknowledge_sort_mit.AgentAccess.State.{
  Platform, World, unix_ms, prune_pending, prune_sessions, ensure_grant_usable, valid_bearer_shape,
  validate_authorize_request, next_sequence, summary, state_summary,
}
use aiknowledge_sort_mit.AgentAccess.Authority.{
  on_disk, modify_state, ensure_loaded, normalize_origin,
}
use aiknowledge_sort_mit.AgentAccess.Authority.Checks.{authorize_checks, granted_tool}
use aiknowledge_sort_mit.AgentAccess.Authority.SessionChecks.{session_checks}
use aiknowledge_sort_mit.AgentAccess.Authority.Requests.{
  SessionIo, open_session, close_session, verify_transport_credentials,
}
use aiknowledge_sort_mit.AgentAccess.Authority.Authorize.{AuthorizeIo, authorize_request, charge}
use aiknowledge_sort_mit.AgentAccess.Authority.Records.{
  GrantIo, prepare_grant, new_record, mark_revoked,
}
use aiknowledge_sort_mit.AgentAccess.Authority.Selections.{select_roots, select_paths}
use aiknowledge_sort_mit.AgentAccess.Authority.Grants.{create_grant, inspect, revoke, revoke_now}
use aiknowledge_sort_mit.AgentAccess.Authority.Calls.{
  Call, opens_session, selects_paths, creates_grant, step, run,
}
use aiknowledge_sort_mit.AgentAccess.Authority.Safety.Revoked.{reached}

-- All that a run of the authority computes with.
unfoldable pub evaluates : Unit {0}
unfolding any all find member utf8 utf8_char byte_len text_eq text_le all_lower_hex insert_by
    sort_by get insert remove retain update from_list continue components_eq components_le dedup
    dedup_after tool_catalog catalog_ids validate_http_origin validate_limits validate_safe_id
    validate_visible_label check_tools check_origins validate_create_request encode_hex token_digest
    issue_token difference verify_token check_persisted_origins bad_tools check_persisted_scopes
    validate_record validate_records validate_state read_state write_new_json write_state
    write_change write_runtime_event unix_ms prune_pending prune_sessions ensure_grant_usable
    valid_bearer_shape validate_authorize_request next_sequence summary state_summary on_disk
    modify_state ensure_loaded normalize_origin authorize_checks granted_tool session_checks
    open_session close_session verify_transport_credentials authorize_request charge prepare_grant
    new_record mark_revoked select_roots select_paths create_grant inspect revoke revoke_now step
    run
evaluates = tt

abbrev pub platform : Platform
platform = record { unix_epoch = 0; sha256 = take 32; parse_url = λ value. none }

abbrev pub one_second : ℕ
one_second = 1_000_000_000

abbrev pub write_ok : WriteIo
write_ok = record {
  event_id = codes "e1";
  directories = none;
  audit_create = none;
  audit_sync = none;
  config_replace = none;
  config_sync = none;
}

abbrev pub read_ok : ReadIo
read_ok = record { directory = none; file = none }

abbrev pub repeated : ℕ → List ℕ
repeated zero = []
repeated (suc n) = 0xab ∷ repeated n

-- What 32 bytes 0xab are in hexadecimal digits.
abbrev pub token : Text
token = codes "abababababababababababababababababababababababababababababababab"

abbrev pub grant_io : GrantIo
grant_io = record {
  read = read_ok;
  write = write_ok;
  grant_id = codes "grant1";
  random = some (repeated 32);
}

abbrev pub limits : AgentResourceLimits
limits = record {
  max_requests_per_session = 2;
  max_request_bytes = 4096;
  max_response_bytes = 4096;
}

abbrev pub grant_request : CreateAgentGrantRequest
grant_request = record {
  selection_id = codes "selection1";
  agent_id = codes "codex";
  label = codes "Codex";
  tool_ids = codes "graph.read" ∷ [];
  allowed_http_origins = [];
  expires_in_seconds = 3600;
  limits = limits;
}

abbrev pub docs_path : FilePath
docs_path = record { display = codes "/docs"; components = codes "docs" ∷ [] }

abbrev pub root : Text
root = codes "/config"

abbrev pub select_docs : Call
select_docs =
    selects_paths (λ path. directory_root path 7) (λ n. codes "scope1") (codes "selection1")
      (docs_path ∷ []) one_second

abbrev pub create_one : Call
create_one = creates_grant grant_io root grant_request one_second

abbrev pub session_io : SessionIo
session_io = record {
  read = read_ok;
  write = write_ok;
  session_id = codes "session1";
  random = some (repeated 32);
}

abbrev pub session_request : OpenSessionRequest
session_request = record {
  grant_id = codes "grant1";
  agent_id = codes "codex";
  grant_token = token;
  transport_origin = none;
}

abbrev pub open_one : Call
open_one = opens_session session_io root session_request one_second

abbrev pub prepared_calls : List Call
prepared_calls = select_docs ∷ create_one ∷ open_one ∷ []

abbrev pub empty_disk : Disk
empty_disk = record { config = none; audit = [] }

abbrev pub ready : World
ready = reached platform empty_disk prepared_calls

abbrev pub request : AuthorizeRequest
request = record {
  grant_id = codes "grant1";
  agent_id = codes "codex";
  session_id = codes "session1";
  session_token = token;
  request_id = codes "request1";
  tool_id = codes "graph.read";
  scope_id = some (codes "scope1");
  request_bytes = 100;
  response_budget_bytes = 200;
  transport_origin = none;
}

abbrev pub authorize_io : AuthorizeIo
authorize_io = record { write = write_ok; can_clone = true }

pub request_passes_test :
    is_ok (authorize_request platform authorize_io request one_second ready).0 ≡ true
unfolding evaluates
request_passes_test = refl
