-- ===== src/AgentAccess/Authority/Steps.antt =====
-- agent_access/authority.rs: the calls as sequences of changes.
use aiknowledge_sort_mit.Prelude.{
  ℕ, ◌≡◌, ◌⊎◌, sym, inl, inr, Option, List, [], ◌∷◌, Text, Result-cases, arith, ap, subst,
}
use aiknowledge_sort_mit.Discovery.Roots.{FilePath, CapabilityRoot}
use aiknowledge_sort_mit.AgentAccess.Schema.{
  AuthorizeRequest, OpenSessionRequest, CreateAgentGrantRequest,
}
use aiknowledge_sort_mit.AgentAccess.Store.{ReadIo}
use aiknowledge_sort_mit.AgentAccess.State.{Platform, State, World, prune_sessions, next_sequence}
use aiknowledge_sort_mit.AgentAccess.Authority.{ensure_loaded}
use aiknowledge_sort_mit.Prelude.Execs.{continue}
use aiknowledge_sort_mit.AgentAccess.Authority.Records.{GrantIo, prepare_grant}
use aiknowledge_sort_mit.AgentAccess.Authority.Requests.{
  SessionIo, verify_transport_credentials, open_session,
}
use aiknowledge_sort_mit.AgentAccess.Authority.Authorize.{AuthorizeIo, authorize_request}
use aiknowledge_sort_mit.AgentAccess.Authority.Selections.{select_paths}
use aiknowledge_sort_mit.AgentAccess.Authority.Grants.{create_grant, inspect, revoke}
use aiknowledge_sort_mit.AgentAccess.Authority.Outcomes.Authorizing.{
  authorize-Authorized, authorize_error,
}
use aiknowledge_sort_mit.AgentAccess.Authority.Outcomes.Loading.{
  ensure_loaded-cases, read_state-valid,
}
use aiknowledge_sort_mit.AgentAccess.Authority.Outcomes.Opening.{
  open_session-Opened, open_session_error,
}
use aiknowledge_sort_mit.AgentAccess.Authority.Outcomes.Granting.{
  create_grant-Created, create_grant_error,
}
use aiknowledge_sort_mit.AgentAccess.Authority.Outcomes.Revoking.{
  revoke-Revoked, revoke_error, select_paths-cases,
}
use aiknowledge_sort_mit.AgentAccess.Authority.Changes.{
  Change, loads, prunes_sessions, prunes_selections, opens, charges, closes, selects, takes,
  creates, revokes, Changes, none_yet, and_then,
}
use aiknowledge_sort_mit.AgentAccess.Authority.Calls.{
  Call, verifies, opens_session, authorizes, closes_session, selects_paths, creates_grant, inspects,
  revokes_grant, step, run,
}

module _ (p : Platform) where
  arrive : {s t u : State} → u ≡ t → Changes p s t → Changes p s u
  arrive {s} e c = subst (Changes p s) (sym e) c

  load-Changes :
      (io : ReadIo) (root : Text) (w : World)
      → Changes p w.state (ensure_loaded p io root w).1.state
  load-Changes io root w = elim (ensure_loaded-cases p io root w) [
    | inl e ↦ arrive (ap (λ (v : World). v.state) e) none_yet
    | inr (persisted, unloaded, read, e) ↦
        arrive e (and_then none_yet (loads root persisted unloaded (read_state-valid p io w read)))
  ]

  authorize-Changes :
      (io : AuthorizeIo) (request : AuthorizeRequest) (now : ℕ) (w : World)
      → Changes p w.state (authorize_request p io request now w).1.state
  unfolding prune_sessions
  authorize-Changes io request now w =
      elim (Result-cases (authorize_request p io request now w).0) [
        | inl (r, done) ↦
            let v = authorize-Authorized p io request now w r done in
            arrive v.left (
              and_then (and_then none_yet (prunes_sessions now))
                (charges io.can_clone request v.now_ms v.approved v.passed))
        | inr (d, failed) ↦ elim (authorize_error p io request now w d failed) [
          | inl e ↦ arrive e none_yet
          | inr e ↦ arrive e (and_then none_yet (prunes_sessions now))
        ]
      ]

  open-Changes :
      (io : SessionIo) (root : Text) (request : OpenSessionRequest) (now : ℕ) (w : World)
      → Changes p w.state (open_session p io root request now w).1.state
  open-Changes io root request now w =
      let loaded = load-Changes io.read root w in
      elim (Result-cases (open_session p io root request now w).0) [
        | inl (r, done) ↦
            let v = open_session-Opened p io root request now w r done in
            arrive v.left (
              and_then (and_then loaded (prunes_sessions now))
                (opens io.session_id io.random request now v.now_ms v.agreed v.loaded v.passed))
        | inr (d, failed) ↦ elim (open_session_error p io root request now w d failed) [
          | inl e ↦ arrive e none_yet
          | inr (inl e) ↦ arrive e loaded
          | inr (inr e) ↦ arrive e (and_then loaded (prunes_sessions now))
        ]
      ]

  create-Changes :
      (io : GrantIo) (root : Text) (request : CreateAgentGrantRequest) (now : ℕ) (w : World)
      → Changes p w.state (create_grant p io root request now w).1.state
  unfolding prepare_grant next_sequence
  create-Changes io root request now w =
      let pruned = and_then (load-Changes io.read root w) (prunes_selections now) in
      let taken = and_then pruned (takes request.selection_id) in
      elim (Result-cases (create_grant p io root request now w).0) [
        | inl (r, done) ↦
            let v = create_grant-Created p io root request now w r done in
            arrive v.left (
              and_then taken (
                creates io request now v.now_ms v.expires_at_unix_ms v.selection v.prepared v.loaded
                  v.passed v.valid_next))
        | inr (m, failed) ↦ elim (create_grant_error p io root request now w m failed) [
          | inl e ↦ arrive e none_yet
          | inr (inl e) ↦ arrive e (load-Changes io.read root w)
          | inr (inr (inl e)) ↦ arrive e pruned
          | inr (inr (inr e)) ↦ arrive e taken
        ]
      ]

  revoke-Changes :
      (io : GrantIo) (root : Text) (grant_id : Text) (now : ℕ) (w : World)
      → Changes p w.state (revoke p io root grant_id now w).1.state
  revoke-Changes io root grant_id now w =
      let loaded = load-Changes io.read root w in
      elim (Result-cases (revoke p io root grant_id now w).0) [
        | inl (r, done) ↦
            let v = revoke-Revoked p io root grant_id now w r done in
            elim v.left [
              | inl (before, e) ↦ arrive e loaded
              | inr (sequence, first, next, valid, e, marks) ↦
                  arrive e
                    (and_then loaded (revokes grant_id v.now_ms sequence v.loaded next valid))
            ]
        | inr (m, failed) ↦ elim (revoke_error p io root grant_id now w m failed) [
          | inl e ↦ arrive e none_yet
          | inr e ↦ arrive e loaded
        ]
      ]

  select-Changes :
      (open_root : FilePath → CapabilityRoot) (fresh : ℕ → Text) (selection_id : Text)
      (paths : List FilePath) (now : ℕ) (w : World)
      → Changes p w.state (select_paths open_root fresh selection_id paths now w).1.state
  select-Changes open_root fresh selection_id paths now w =
      elim (select_paths-cases open_root fresh selection_id paths now w) [
        | inl e ↦ arrive e none_yet
        | inr (inl e) ↦ arrive e (and_then none_yet (prunes_selections now))
        | inr (inr (selection, room, e)) ↦ arrive e (
            and_then (and_then none_yet (prunes_selections now))
              (selects selection_id selection room))
      ]

  verify_state :
      (io : ReadIo) (root grant_id caller token : Text) (origin : Option Text) (now : ℕ) (w : World)
      → let w' = (verify_transport_credentials p io root grant_id caller token origin now w).1 in
        (w'.state ≡ w.state) ⊎ (w'.state ≡ (ensure_loaded p io root w).1.state)
  unfolding verify_transport_credentials continue
  verify_state io root grant_id caller token origin now w = ground arith

  inspect_state :
      (io : ReadIo) (root : Text) (now : ℕ) (w : World)
      → let w' = (inspect p io root now w).1 in
        (w'.state ≡ w.state) ⊎ (w'.state ≡ (ensure_loaded p io root w).1.state)
  unfolding inspect continue
  inspect_state io root now w = ground arith

  -- Every call of the authority, whether it succeeds or fails, changes the state by a sequence of
  -- the changes of `Change`.
  pub step-Changes : (call : Call) (w : World) → Changes p w.state (step p call w).state
  unfolding step
  step-Changes (verifies io root grant_id caller token origin now) w =
      elim (verify_state io root grant_id caller token origin now w) [
        | inl e ↦ arrive e none_yet
        | inr e ↦ arrive e (load-Changes io root w)
      ]
  step-Changes (opens_session io root request now) w = open-Changes io root request now w
  step-Changes (authorizes io request now) w = authorize-Changes io request now w
  step-Changes (closes_session session_id) w = and_then none_yet (closes session_id)
  step-Changes (selects_paths open_root fresh selection_id paths now) w =
      select-Changes open_root fresh selection_id paths now w
  step-Changes (creates_grant io root request now) w = create-Changes io root request now w
  step-Changes (inspects io root now) w = elim (inspect_state io root now w) [
    | inl e ↦ arrive e none_yet
    | inr e ↦ arrive e (load-Changes io root w)
  ]
  step-Changes (revokes_grant io root grant_id now) w = revoke-Changes io root grant_id now w

-- What every change keeps is kept by every sequence of calls.
module _ {ℓ} (p : Platform) (P : State → Type ℓ)
    (keep : (s t : State) → Change p s t → P s → P t) where
  Changes_keep : {s t : State} → Changes p s t → P s → P t
  Changes_keep none_yet h = h
  Changes_keep (and_then {t} {u} c change) h = keep t u change (Changes_keep c h)

  pub run_keep : (calls : List Call) (w : World) → P w.state → P (run p calls w).state
  unfolding run
  run_keep [] w h = h
  run_keep (call ∷ calls) w h =
      run_keep calls (step p call w) (Changes_keep (step-Changes p call w) h)
