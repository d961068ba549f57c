-- ===== src/AgentAccess/Authority/Outcomes/Restarting.antt =====
-- What a new authority finds after the runtime events of an old one.
use aiknowledge_sort_mit.Prelude.{ℕ, ◌≡◌, arith, ok, Result-cases, inl, inr}
use aiknowledge_sort_mit.Prelude.Execs.{continue}
use aiknowledge_sort_mit.AgentAccess.Schema.{AuthorizeRequest}
use aiknowledge_sort_mit.AgentAccess.Store.{ReadIo, read_state}
use aiknowledge_sort_mit.AgentAccess.Store.Write.{write_runtime_event, write_new_json}
use aiknowledge_sort_mit.AgentAccess.State.{Platform, World, unix_ms, prune_sessions, next_sequence}
use aiknowledge_sort_mit.AgentAccess.Authority.{on_disk, modify_state}
use aiknowledge_sort_mit.AgentAccess.Authority.Checks.{authorize_checks}
use aiknowledge_sort_mit.AgentAccess.Authority.Authorize.{
  AuthorizeIo, AuthorizedRequest, authorize_request, charge,
}
use aiknowledge_sort_mit.AgentAccess.Authority.Permits.{authorize_checks_iff}

-- An authorized request takes the next audit sequence in memory, and leaves the configuration file
-- as it was: an authority that starts anew from the file, when the file held the state before the
-- request, reads that state again, whose next audit sequence is the one that was taken.
pub authorize_request-read_state :
    (p : Platform) (io : AuthorizeIo) (read : ReadIo) (request : AuthorizeRequest) (now : ℕ)
    (w : World) {r : AuthorizedRequest}
    → (authorize_request p io request now w).0 ≡ ok r
    → read_state p.parse_url read w.disk ≡ ok w.state.persisted
    → (next_sequence w.state
        ≡ ok (authorize_request p io request now w).1.state.persisted.next_audit_sequence)
      × (read_state p.parse_url read (authorize_request p io request now w).1.disk
          ≡ ok w.state.persisted)
unfolding authorize_request charge on_disk write_runtime_event write_new_json modify_state continue
    prune_sessions read_state next_sequence
authorize_request-read_state p io read request now w h stored =
    elim (Result-cases (unix_ms p now)) [
      | inr (e, clock) ↦ absurd (ground arith)
      | inl (now_ms, clock) ↦
          elim (Result-cases
            (authorize_checks p io.can_clone request now_ms (prune_sessions now w.state))) [
              | inr (e, passed) ↦ absurd (ground arith)
              | inl (a, passed) ↦
                  let (active, session, v) =
                    (authorize_checks_iff p io.can_clone request now_ms (prune_sessions now w.state)
                        a).0
                      passed in
                  (ground (arith, v.sequence_next), ground arith)
            ]
    ]
