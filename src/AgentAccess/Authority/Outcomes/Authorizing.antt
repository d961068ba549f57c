-- ===== src/AgentAccess/Authority/Outcomes/Authorizing.antt =====
-- What `authorize_request` leaves behind, when it succeeds and when it fails.
use aiknowledge_sort_mit.Prelude.{ℕ, ◌≡◌, ◌⊎◌, inl, inr, arith, ltb, ok, err, Result-cases}
use aiknowledge_sort_mit.Prelude.Maps.{retain, update}
use aiknowledge_sort_mit.Prelude.Execs.{continue}
use aiknowledge_sort_mit.AgentAccess.Schema.{AuthorizeRequest, Denial}
use aiknowledge_sort_mit.AgentAccess.Store.Write.{write_runtime_event, write_new_json}
use aiknowledge_sort_mit.AgentAccess.State.{Platform, State, World, unix_ms, prune_sessions}
use aiknowledge_sort_mit.AgentAccess.Authority.{on_disk, modify_state}
use aiknowledge_sort_mit.AgentAccess.Authority.Checks.{Approved, authorize_checks}
use aiknowledge_sort_mit.AgentAccess.Authority.Permits.{authorize_checks_iff}
use aiknowledge_sort_mit.AgentAccess.Authority.Authorize.{
  AuthorizeIo, AuthorizedRequest, authorize_request, charge, count_request, use_request_id,
}

-- The state after a request that was authorized.
abbrev pub charged : AuthorizeRequest → ℕ → Approved → State → State
charged request now a s = record s {
  sessions =
      update request.session_id count_request
        (retain (λ session. ltb now session.expires_at) s.sessions);
  active_grants = update a.grant.grant_id (use_request_id request.request_id) s.active_grants;
  persisted = record s.persisted { next_audit_sequence = a.sequence };
}

module _ (p : Platform) (io : AuthorizeIo) (request : AuthorizeRequest) (now : ℕ) (w : World) where
  -- What a request that was authorized passed, returned and left behind.
  pub record Authorized (r : AuthorizedRequest) : Type 0 where
    pub now_ms : ℕ
    pub approved : Approved
    pub clock : unix_ms p now ≡ ok now_ms
    pub passed :
        authorize_checks p io.can_clone request now_ms (prune_sessions now w.state) ≡ ok approved
    pub tool : r.tool ≡ approved.tool
    pub directory : r.directory ≡ approved.directory
    pub budget : r.response_budget_bytes ≡ request.response_budget_bytes
    pub left : (authorize_request p io request now w).1.state ≡ charged request now approved w.state

  pub authorize-Authorized :
      (r : AuthorizedRequest) → (authorize_request p io request now w).0 ≡ ok r → Authorized r
  unfolding authorize_request charge on_disk write_runtime_event write_new_json modify_state
      continue prune_sessions
  authorize-Authorized r h = elim (Result-cases (unix_ms p now)) [
    | inr (e, clock) ↦ ground arith
    | inl (now_ms, clock) ↦
        elim (Result-cases
          (authorize_checks p io.can_clone request now_ms (prune_sessions now w.state))) [
            | inr (e, passed) ↦ ground arith
            | inl (a, passed) ↦ record {
              now_ms = now_ms;
              approved = a;
              clock = clock;
              passed = passed;
              tool = ground arith;
              directory = ground arith;
              budget = ground arith;
              left = ground arith;
            }
          ]
  ]

  -- A request that is denied changes no grant, no persisted state, no selection and no session but
  -- the expired ones, which it may drop.
  pub authorize_error :
      (d : Denial)
      → (authorize_request p io request now w).0 ≡ err d
      → ((authorize_request p io request now w).1.state ≡ w.state)
        ⊎ ((authorize_request p io request now w).1.state ≡ prune_sessions now w.state)
  unfolding authorize_request charge on_disk write_runtime_event write_new_json modify_state
      continue prune_sessions
  authorize_error d h = elim (Result-cases (unix_ms p now)) [
    | inr (e, clock) ↦ ground arith
    | inl (now_ms, clock) ↦
        elim (Result-cases
          (authorize_checks p io.can_clone request now_ms (prune_sessions now w.state))) [
            | inr (e, passed) ↦ ground arith
            | inl (a, passed) ↦
                let (active, session, v) =
                  (authorize_checks_iff p io.can_clone request now_ms (prune_sessions now w.state)
                      a).0
                    passed in
                ground (arith, v.session_open, v.grant_active)
          ]
  ]
