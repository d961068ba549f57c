-- ===== src/AgentAccess/Authority/Outcomes/Opening.antt =====
-- What `open_session` leaves behind.
use aiknowledge_sort_mit.Prelude.{
  ℕ, ◌+◌, ◌*◌, ◌≤◌, ◌<◌, ◌≡◌, subst, Option, none, some, List, false, member, text_eq, text_eq→eq,
  text_eq_refl, ◌⊎◌, inl, inr, true, Text, arith, is_some, ok, err, Result-cases,
}
use aiknowledge_sort_mit.Prelude.Maps.{get, insert, get-insert}
use aiknowledge_sort_mit.Prelude.Execs.{continue}
use aiknowledge_sort_mit.AgentAccess.Schema.{OpenSessionRequest, IssuedSession, Denial}
use aiknowledge_sort_mit.AgentAccess.Token.{verify_token}
use aiknowledge_sort_mit.AgentAccess.Token.Verify.{issue_token-verify_token}
use aiknowledge_sort_mit.AgentAccess.Store.Write.{write_runtime_event, write_new_json}
use aiknowledge_sort_mit.AgentAccess.State.{
  Platform, State, World, unix_ms, prune_sessions, find_grant, next_sequence, ensure_grant_usable,
  nanos_per_milli, session_ttl,
}
use aiknowledge_sort_mit.AgentAccess.Authority.{
  on_disk, modify_state, ensure_loaded, normalize_origin,
}
use aiknowledge_sort_mit.AgentAccess.Authority.Outcomes.Loading.{ensure_loaded_loads}
use aiknowledge_sort_mit.AgentAccess.Authority.SessionChecks.{
  Agreed, session_checks, new_session, contains_origin,
}
use aiknowledge_sort_mit.AgentAccess.Authority.Requests.{SessionIo, open_session}

-- The origin of a request: none, or one that the grant allows.
abbrev pub OriginGranted : Option Text → List Text → Type 0
OriginGranted none allowed = Unit
OriginGranted (some origin) allowed = member origin allowed ≡ true

-- The conditions under which a session is opened, and what is settled for it.
pub record MayOpen (p : Platform) (random : Option (List ℕ)) (request : OpenSessionRequest)
    (now now_ms : ℕ) (s : State) (agreed : Agreed) : Type 0 where
  pub grant_known : find_grant request.grant_id s ≡ some agreed.grant
  pub grant_not_revoked : agreed.grant.revoked_at_unix_ms ≡ none
  pub grant_not_expired : now_ms < agreed.grant.expires_at_unix_ms
  pub grant_active : is_some (get agreed.grant.grant_id s.active_grants) ≡ true
  pub agent_of_grant : agreed.grant.agent_id ≡ request.agent_id
  pub token_verified :
      verify_token p.sha256 request.grant_token agreed.grant.grant_token_sha256 ≡ true
  pub origin_bound : normalize_origin p request.transport_origin ≡ ok agreed.transport_origin
  pub origin_granted : OriginGranted agreed.transport_origin agreed.grant.allowed_http_origins
  pub token_new : verify_token p.sha256 agreed.token agreed.token_sha256 ≡ true
  pub ends_with_grant :
      agreed.expires_at ≤ p.unix_epoch + agreed.grant.expires_at_unix_ms * nanos_per_milli
  pub ends_in_time : agreed.expires_at ≤ now + session_ttl
  pub expiry_shown : unix_ms p agreed.expires_at ≡ ok agreed.expires_at_unix_ms
  pub sequence_next : agreed.sequence ≡ s.persisted.next_audit_sequence + 1

granted-origin :
    (origin : Option Text) (allowed : List Text)
    → contains_origin origin allowed ≡ true
    → OriginGranted origin allowed
granted-origin none allowed h = tt
granted-origin (some origin) allowed h = h

checks-MayOpen :
    (p : Platform) (random : Option (List ℕ)) (request : OpenSessionRequest) (now now_ms : ℕ)
    (s : State) (agreed : Agreed)
    → session_checks p random request now now_ms s ≡ ok agreed
    → MayOpen p random request now now_ms s agreed
unfolding session_checks ensure_grant_usable next_sequence
checks-MayOpen p random request now now_ms s agreed h = record {
  grant_known = ground arith;
  grant_not_revoked = ground arith;
  grant_not_expired = ground arith;
  grant_active = ground arith;
  agent_of_grant = ground (arith, text_eq→eq agreed.grant.agent_id request.agent_id);
  token_verified = ground arith;
  origin_bound = ground arith;
  origin_granted =
      granted-origin agreed.transport_origin agreed.grant.allowed_http_origins (ground arith);
  token_new =
      issue_token-verify_token p.sha256 random {token = agreed.token} {digest = agreed.token_sha256}
        (ground arith);
  ends_with_grant = ground arith;
  ends_in_time = ground arith;
  expiry_shown = ground arith;
  sequence_next = ground arith;
}

-- The state after a session was opened.
abbrev pub opened : Text → Agreed → State → State
opened session_id agreed s = record s {
  persisted = record s.persisted { next_audit_sequence = agreed.sequence };
  sessions = insert session_id (new_session agreed) s.sessions;
}

module _ (p : Platform) (io : SessionIo) (root : Text) (request : OpenSessionRequest) (now : ℕ)
    (w : World) where
  -- The state that the request is checked in.
  abbrev pub opening_state : State
  opening_state = prune_sessions now (ensure_loaded p io.read root w).1.state

  -- What a request that opened a session passed, returned and left behind.
  pub record Opened (r : IssuedSession) : Type 0 where
    pub now_ms : ℕ
    pub agreed : Agreed
    pub clock : unix_ms p now ≡ ok now_ms
    pub loaded : is_some opening_state.config_root ≡ true
    pub passed : session_checks p io.random request now now_ms opening_state ≡ ok agreed
    pub allowed : MayOpen p io.random request now now_ms opening_state agreed
    pub token : r.session_token ≡ agreed.token
    pub session_id : r.session_id ≡ io.session_id
    pub expires_at : r.expires_at_unix_ms ≡ agreed.expires_at_unix_ms
    pub left :
        (open_session p io root request now w).1.state ≡ opened io.session_id agreed opening_state
    pub stored :
        get io.session_id (open_session p io root request now w).1.state.sessions
        ≡ some (record {
          grant_id = agreed.grant.grant_id;
          agent_id = request.agent_id;
          session_token_sha256 = agreed.token_sha256;
          expires_at = agreed.expires_at;
          request_count = 0;
          transport_origin = agreed.transport_origin;
        })
    pub others :
        (id : Text)
        → text_eq io.session_id id ≡ false
        → get id (open_session p io root request now w).1.state.sessions
          ≡ get id opening_state.sessions

  -- A session that was opened names a grant that is known, not revoked, not expired and active; the
  -- agent is that of the grant, the token of the request passes the check against the grant's digest,
  -- and the origin is none or one that the grant allows. The reply holds a token that passes the check
  -- against the digest of the session, the id and the expiry, which is neither after the grant's nor
  -- after the longest time of a session. The state that is left differs from the one that was checked,
  -- behind the load of the configuration and the removal of expired sessions, by the new session, with
  -- no request made, and the next audit sequence alone.
  pub open_session-Opened :
      (r : IssuedSession) → (open_session p io root request now w).0 ≡ ok r → Opened r
  unfolding open_session on_disk write_runtime_event write_new_json modify_state continue
      prune_sessions
  open_session-Opened r h = elim (Result-cases (unix_ms p now)) [
    | inr (e, clock) ↦ ground arith
    | inl (now_ms, clock) ↦
        elim (Result-cases (session_checks p io.random request now now_ms opening_state)) [
          | inr (e, passed) ↦ ground arith
          | inl (agreed, passed) ↦ record {
            now_ms = now_ms;
            agreed = agreed;
            clock = clock;
            loaded = ground (arith, ensure_loaded_loads p io.read root w);
            passed = passed;
            allowed = checks-MayOpen p io.random request now now_ms opening_state agreed passed;
            token = ground arith;
            session_id = ground arith;
            expires_at = ground arith;
            left = ground arith;
            stored =
                subst
                  (λ agent.
                    get io.session_id (open_session p io root request now w).1.state.sessions
                    ≡ some (record {
                      grant_id = agreed.grant.grant_id;
                      agent_id = agent;
                      session_token_sha256 = agreed.token_sha256;
                      expires_at = agreed.expires_at;
                      request_count = 0;
                      transport_origin = agreed.transport_origin;
                    }))
                  (checks-MayOpen p io.random request now now_ms opening_state agreed
                    passed).agent_of_grant
                  (ground (
                    arith,
                    get-insert io.session_id io.session_id (new_session agreed)
                        opening_state.sessions,
                    text_eq_refl io.session_id,
                  ));
            others = λ id differs.
                ground
                  (arith, get-insert io.session_id id (new_session agreed) opening_state.sessions);
          }
        ]
  ]

  -- A request that opens no session changes neither grants, selections nor sessions, except that
  -- it may load the configuration and drop expired sessions.
  pub open_session_error :
      (d : Denial)
      → (open_session p io root request now w).0 ≡ err d
      → ((open_session p io root request now w).1.state ≡ w.state)
        ⊎ ((open_session p io root request now w).1.state
            ≡ (ensure_loaded p io.read root w).1.state)
        ⊎ ((open_session p io root request now w).1.state ≡ opening_state)
  unfolding open_session on_disk write_runtime_event write_new_json modify_state continue
      prune_sessions
  open_session_error d h = elim (Result-cases (unix_ms p now)) [
    | inr (e, clock) ↦ ground arith
    | inl (now_ms, clock) ↦
        elim (Result-cases (session_checks p io.random request now now_ms opening_state)) [
          | inr (e, passed) ↦ ground arith
          | inl (agreed, passed) ↦ ground arith
        ]
  ]
