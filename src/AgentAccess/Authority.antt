-- ===== src/AgentAccess/Authority.antt =====
-- agent_access/authority.rs: the operations of the authority, as actions on a `World`. An operation
-- runs under the lock from its first use of the state, so operations follow one another. A poisoned
-- lock is not modelled.
pub mod SessionChecks
pub mod Requests
pub mod Checks
pub mod Authorize
pub mod Records
pub mod Selections
pub mod Grants
pub mod Permits
pub mod Outcomes
pub mod Changes
pub mod Calls
pub mod Steps
pub mod Invariant
pub mod Safety
use aiknowledge_sort_mit.Prelude.{
  Bool, true, not, Option, none, some, Text, text_eq, Result, ok, err, fail_if, map_err,
}
use aiknowledge_sort_mit.Prelude.Execs.{Exec, lift, gets, modify, catch, ◌>>=◌, ◌>>◌}
use aiknowledge_sort_mit.AgentAccess.Errors.{Message, config_root_changed}
use aiknowledge_sort_mit.AgentAccess.Schema.{
  Denial, DenialCode, authority_unavailable, validate_http_origin,
}
use aiknowledge_sort_mit.AgentAccess.Store.{Disk, ReadIo, read_state, PersistedAgentAccess}
use aiknowledge_sort_mit.AgentAccess.State.{Platform, State, World, denial}

-- An action on the disk alone.
unfoldable pub on_disk : {E A : Type 0} → Exec Disk E A → Exec World E A
on_disk m w = let (r, d) = m w.disk in (r, record w { disk = d })

abbrev pub get_state : {E : Type 0} → Exec World E State
get_state = gets (λ w. w.state)

unfoldable pub modify_state : {E : Type 0} → (State → State) → Exec World E (Unit {0})
modify_state f w = (ok tt, record w { state = f w.state })

-- `.map_err(|message| denial(AuthorityUnavailable, message))?`
abbrev pub unavailable : {A : Type 0} → Exec World Message A → Exec World Denial A
unavailable = catch (denial authority_unavailable)

-- The first load of the configuration; a later call must name the same directory.
abbrev load_once : Platform → ReadIo → Text → Option Text → Exec World Message (Unit {0})
load_once p io root (some current) = lift (fail_if (not (text_eq current root)) config_root_changed)
load_once p io root none = do
  disk ← gets (λ w. w.disk)
  persisted ← lift (read_state p.parse_url io disk)
  modify_state (λ s. record s { persisted = persisted; config_root = some root })

unfoldable pub ensure_loaded : Platform → ReadIo → Text → Exec World Message (Unit {0})
ensure_loaded p io root = do s ← get_state; load_once p io root s.config_root

-- `transport_origin.map(validate_http_origin).transpose()`
unfoldable pub normalize_origin : Platform → Option Text → Result Message (Option Text)
normalize_origin p none = ok none
normalize_origin p (some origin) = elim (validate_http_origin p.parse_url origin) [
  | ok normalized ↦ ok (some normalized)
  | err message ↦ err message
]
