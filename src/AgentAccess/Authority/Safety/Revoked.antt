-- ===== src/AgentAccess/Authority/Safety/Revoked.antt =====
-- agent_access/authority.rs: calls under a grant behind its revocation.
use aiknowledge_sort_mit.Prelude.{
  ℕ, ◌≡◌, refl, ap, sym, subst, ◌∙◌, Bool, true, false, Option, some, List, [], ◌∷◌, Text, arith,
  is_some, find, find-count_if, inl, inr, ok, is_ok, Result-cases,
}
use aiknowledge_sort_mit.AgentAccess.Schema.{AuthorizeRequest, OpenSessionRequest, AgentAccessState}
use aiknowledge_sort_mit.AgentAccess.Store.{AgentGrantRecord, Disk, ReadIo}
use aiknowledge_sort_mit.AgentAccess.Store.Ids.{has_id}
use aiknowledge_sort_mit.AgentAccess.Store.Valid.{validate_state-UniqueIds}
use aiknowledge_sort_mit.AgentAccess.State.{
  Platform, State, World, find_grant, prune_sessions, ensure_grant_usable,
}
use aiknowledge_sort_mit.AgentAccess.Authority.{ensure_loaded}
use aiknowledge_sort_mit.AgentAccess.Authority.Requests.{
  SessionIo, open_session, verify_transport_credentials,
}
use aiknowledge_sort_mit.AgentAccess.Authority.SessionChecks.{Agreed, session_checks}
use aiknowledge_sort_mit.AgentAccess.Authority.Records.{GrantIo}
use aiknowledge_sort_mit.AgentAccess.Authority.Authorize.{AuthorizeIo, authorize_request}
use aiknowledge_sort_mit.AgentAccess.Authority.Checks.{Approved, authorize_checks}
use aiknowledge_sort_mit.AgentAccess.Authority.Grants.{revoke}
use aiknowledge_sort_mit.AgentAccess.Authority.Outcomes.Authorizing.{authorize-Authorized}
use aiknowledge_sort_mit.AgentAccess.Authority.Outcomes.Opening.{open_session-Opened}
use aiknowledge_sort_mit.AgentAccess.Authority.Outcomes.Revoking.{revoke-Revoked}
use aiknowledge_sort_mit.AgentAccess.Authority.Outcomes.Verifying.{verify-Verified}
use aiknowledge_sort_mit.AgentAccess.Authority.Calls.{Call, revokes_grant, step, run}
use aiknowledge_sort_mit.AgentAccess.Authority.Steps.{run_keep}
use aiknowledge_sort_mit.AgentAccess.Authority.Invariant.{Inv, initial, initial-Inv, run-Inv}
use aiknowledge_sort_mit.AgentAccess.Authority.Outcomes.Marking.{find-mark_revoked}
use aiknowledge_sort_mit.AgentAccess.Authority.Safety.Revocation.{
  Dead, Change-Dead, RevokedIf-found, Dead-not_usable, loaded_stays,
}

module _ (p : Platform) where
  approved_usable :
      (can_clone : Bool) (request : AuthorizeRequest) (now_ms : ℕ) (s : State) (a : Approved)
      → authorize_checks p can_clone request now_ms s ≡ ok a
      → (find_grant request.grant_id s ≡ some a.grant)
        × (ensure_grant_usable s a.grant now_ms ≡ ok tt)
  unfolding authorize_checks
  approved_usable can_clone request now_ms s a passed = ground arith

  agreed_usable :
      (random : Option (List ℕ)) (request : OpenSessionRequest) (now now_ms : ℕ) (s : State)
      (agreed : Agreed)
      → session_checks p random request now now_ms s ≡ ok agreed
      → (find_grant request.grant_id s ≡ some agreed.grant)
        × (ensure_grant_usable s agreed.grant now_ms ≡ ok tt)
  unfolding session_checks
  agreed_usable random request now now_ms s agreed passed = ground arith

  found-Dead :
      (g : Text) (s : State) (grant : AgentGrantRecord)
      → Inv p s
      → is_some s.config_root ≡ true
      → find_grant g s ≡ some grant
      → is_some grant.revoked_at_unix_ms ≡ true
      → Dead g s
  found-Dead g s grant inv loaded found revoked = record {
    registered = record {
      loaded = loaded;
      known = find-count_if (has_id g) s.persisted.grants (ground arith);
    };
    revoked =
        RevokedIf-found g s.persisted.grants {grant = grant}
          (validate_state-UniqueIds p.parse_url s.persisted inv.persisted_valid) found revoked;
  }

  -- In a state that satisfies the invariant a revocation leaves its grant dead.
  revoke-Dead :
      (io : GrantIo) (root grant_id : Text) (now : ℕ) (w : World) (r : AgentAccessState)
      → Inv p w.state
      → (revoke p io root grant_id now w).0 ≡ ok r
      → Dead grant_id (revoke p io root grant_id now w).1.state
  unfolding run step
  revoke-Dead io root grant_id now w r inv done =
      let v = revoke-Revoked p io root grant_id now w r done in
      let final = (revoke p io root grant_id now w).1.state in
      let valid = run-Inv p (revokes_grant io root grant_id now ∷ []) w inv in
      elim v.left [
        | inl (before, same) ↦
            found-Dead grant_id final v.grant valid
              (ap (λ (s : State). is_some s.config_root) same ∙ v.loaded)
              (ap (λ (s : State). find (has_id grant_id) s.persisted.grants) same ∙ v.grant_known)
              before
        | inr (sequence, first, next, valid_next, same, marks) ↦
            found-Dead grant_id final (record v.grant { revoked_at_unix_ms = some v.now_ms }) valid
              (ap (λ (s : State). is_some s.config_root) same ∙ v.loaded)
              (ap (λ (s : State). find (has_id grant_id) s.persisted.grants) same
                ∙ find-mark_revoked grant_id v.now_ms _ v.grant_known)
              refl
      ]

  Dead-authorize :
      (io : AuthorizeIo) (request : AuthorizeRequest) (now : ℕ) (w : World)
      → Dead request.grant_id w.state
      → is_ok (authorize_request p io request now w).0 ≡ false
  unfolding prune_sessions
  Dead-authorize io request now w h = elim (Result-cases (authorize_request p io request now w).0) [
    | inr (d, failed) ↦ rw failed
    | inl (r, done) ↦
        let v = authorize-Authorized p io request now w r done in
        let usable =
          approved_usable io.can_clone request v.now_ms (prune_sessions now w.state) v.approved
            v.passed in
        absurd (
          Dead-not_usable request.grant_id (prune_sessions now w.state) v.approved.grant v.now_ms
            (record {
              registered = record { loaded = h.registered.loaded; known = h.registered.known };
              revoked = h.revoked;
            })
            usable.0 usable.1)
  ]

  Dead-open :
      (io : SessionIo) (root : Text) (request : OpenSessionRequest) (now : ℕ) (w : World)
      → Dead request.grant_id w.state
      → is_ok (open_session p io root request now w).0 ≡ false
  unfolding prune_sessions
  Dead-open io root request now w h = elim (Result-cases (open_session p io root request now w).0) [
    | inr (d, failed) ↦ rw failed
    | inl (r, done) ↦
        let v = open_session-Opened p io root request now w r done in
        let same = loaded_stays p io.read root w h.registered.loaded in
        let usable =
          agreed_usable io.random request now v.now_ms
            (prune_sessions now (ensure_loaded p io.read root w).1.state) v.agreed v.passed in
        let dead = subst (Dead request.grant_id) (sym same) h in
        absurd (
          Dead-not_usable request.grant_id
            (prune_sessions now (ensure_loaded p io.read root w).1.state) v.agreed.grant v.now_ms
            (record {
              registered = record {
                loaded = dead.registered.loaded;
                known = dead.registered.known;
              };
              revoked = dead.revoked;
            })
            usable.0 usable.1)
  ]

  Dead-verify :
      (io : ReadIo) (root grant_id caller token : Text) (origin : Option Text) (now : ℕ) (w : World)
      → Dead grant_id w.state
      → is_ok (verify_transport_credentials p io root grant_id caller token origin now w).0 ≡ false
  Dead-verify io root grant_id caller token origin now w h =
      elim (Result-cases
        (verify_transport_credentials p io root grant_id caller token origin now w).0) [
          | inr (d, failed) ↦ rw failed
          | inl (r, done) ↦
              let v = verify-Verified p io root grant_id caller token origin now w r done in
              let same = loaded_stays p io root w h.registered.loaded in
              absurd (
                Dead-not_usable grant_id (ensure_loaded p io root w).1.state v.grant v.now_ms
                  (subst (Dead grant_id) (sym same) h) v.grant_known v.grant_usable)
        ]

-- Nobody gets in under a grant: no request is authorized, no session opened, no transport
-- credentials verified, whatever the rest of the call.
pub record AdmitsNobody (p : Platform) (g : Text) (w : World) : Type 0 where
  pub no_request :
      (io : AuthorizeIo) (request : AuthorizeRequest) (now : ℕ)
      → request.grant_id ≡ g
      → is_ok (authorize_request p io request now w).0 ≡ false
  pub no_session :
      (io : SessionIo) (root : Text) (request : OpenSessionRequest) (now : ℕ)
      → request.grant_id ≡ g
      → is_ok (open_session p io root request now w).0 ≡ false
  pub no_transport :
      (io : ReadIo) (root caller token : Text) (origin : Option Text) (now : ℕ)
      → is_ok (verify_transport_credentials p io root g caller token origin now w).0 ≡ false

-- The authority behind calls that began with a new one.
abbrev pub reached : Platform → Disk → List Call → World
reached p disk calls = run p calls (record { state = initial; disk = disk })

-- Once a revocation of a grant has returned, the grant admits nobody, after any further calls: no
-- request under it is authorized, no session is opened, and no transport credentials are verified.
pub revoked-AdmitsNobody :
    (p : Platform) (disk : Disk) (before : List Call) (io : GrantIo) (root grant_id : Text)
    (now : ℕ) (r : AgentAccessState) (after : List Call)
    → (revoke p io root grant_id now (reached p disk before)).0 ≡ ok r
    → AdmitsNobody p grant_id
        (run p after (revoke p io root grant_id now (reached p disk before)).1)
revoked-AdmitsNobody p disk before io root grant_id now r after done =
    let inv = run-Inv p before (record { state = initial; disk = disk }) (initial-Inv p) in
    let dead =
      run_keep p (Dead grant_id) (Change-Dead p grant_id) after _
        (revoke-Dead p io root grant_id now (reached p disk before) r inv done) in
    record {
      no_request = λ io' request at e. Dead-authorize p io' request at _ (rw e dead);
      no_session = λ io' root' request at e. Dead-open p io' root' request at _ (rw e dead);
      no_transport = λ io' root' caller token origin at.
          Dead-verify p io' root' grant_id caller token origin at _ dead;
    }
