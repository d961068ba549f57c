-- ===== src/AgentAccess/Authority/Outcomes/Granting.antt =====
-- What `create_grant` leaves behind.
use aiknowledge_sort_mit.Prelude.{
  ℕ, ◌+◌, ◌<◌, ◌≡◌, subst, ◌⊎◌, inl, inr, Bool, true, false, text_eq, text_eq_refl, none, some,
  List, [], ◌∷◌, ◌++◌, map, length, count_if, count_if-append, count_if-sort_by, sort_by, Text,
  arith, is_some, ok, err, Result-cases, Option-cases,
}
use aiknowledge_sort_mit.Prelude.Maps.{get, insert, remove, get-insert, get-remove}
use aiknowledge_sort_mit.Prelude.Execs.{continue}
use aiknowledge_sort_mit.AgentAccess.Errors.{Message}
use aiknowledge_sort_mit.AgentAccess.Schema.{
  CreateAgentGrantRequest, IssuedAgentGrant, validate_create_request,
}
use aiknowledge_sort_mit.AgentAccess.Token.{verify_token}
use aiknowledge_sort_mit.AgentAccess.Token.Verify.{issue_token-verify_token}
use aiknowledge_sort_mit.AgentAccess.Store.{AgentGrantRecord, validate_state}
use aiknowledge_sort_mit.AgentAccess.Store.Write.{write_change, write_new_json, write_state}
use aiknowledge_sort_mit.AgentAccess.State.{
  PendingSelection, Platform, State, World, unix_ms, prune_pending, summary, next_sequence,
}
use aiknowledge_sort_mit.AgentAccess.Authority.{on_disk, modify_state, ensure_loaded}
use aiknowledge_sort_mit.AgentAccess.Authority.Outcomes.Loading.{ensure_loaded_loads}
use aiknowledge_sort_mit.AgentAccess.Authority.Records.{
  GrantIo, grant_expiry, Prepared, new_record, record_le, prepare_grant, new_active,
}
use aiknowledge_sort_mit.AgentAccess.Authority.Grants.{create_grant}

-- The state without a selection that was taken.
abbrev pub taken : Text → State → State
taken selection_id s = record s { pending_selections = remove selection_id s.pending_selections }

-- The state after a grant was created.
abbrev pub granted : Text → PendingSelection → Prepared → State → State
granted grant_id selection prepared s = record s {
  persisted = prepared.next;
  active_grants = insert grant_id (new_active selection) s.active_grants;
}

-- What is settled of a new grant: it is what was asked for, its token passes the check against its
-- digest, and the next records are the ones before and it, whatever the order.
pub record Prepares (p : Platform) (io : GrantIo) (request : CreateAgentGrantRequest)
    (now now_ms expires_at_unix_ms : ℕ) (selection : PendingSelection) (s : State)
    (prepared : Prepared) : Type 0 where
  pub not_expired : now < selection.expires_at
  pub room : length s.persisted.grants < 32
  pub asked_for : prepared.grant ≡ record {
    grant_id = io.grant_id;
    agent_id = request.agent_id;
    label = request.label;
    tool_ids = request.tool_ids;
    allowed_http_origins = request.allowed_http_origins;
    scopes = map (λ root. root.summary) selection.roots;
    created_at_unix_ms = now_ms;
    expires_at_unix_ms = expires_at_unix_ms;
    revoked_at_unix_ms = none;
    limits = request.limits;
    grant_token_sha256 = prepared.grant.grant_token_sha256;
  }
  pub token_verified : verify_token p.sha256 prepared.token prepared.grant.grant_token_sha256 ≡ true
  pub records :
      (q : AgentGrantRecord → Bool)
      → count_if q prepared.next.grants ≡ count_if q (prepared.grant ∷ s.persisted.grants)
  pub sequence_next : prepared.next.next_audit_sequence ≡ s.persisted.next_audit_sequence + 1
  pub same_schema : prepared.next.schema_version ≡ s.persisted.schema_version

records-count :
    (q : AgentGrantRecord → Bool) (grant : AgentGrantRecord) (grants : List AgentGrantRecord)
    → count_if q (sort_by record_le (grants ++ grant ∷ [])) ≡ count_if q (grant ∷ grants)
unfolding count_if
records-count q grant grants = omega (
  arith,
  count_if-sort_by record_le q (grants ++ grant ∷ []),
  count_if-append q grants (grant ∷ []),
)

prepare_grant-Prepares :
    (p : Platform) (io : GrantIo) (request : CreateAgentGrantRequest)
    (now now_ms expires_at_unix_ms : ℕ) (selection : PendingSelection) (s : State)
    (prepared : Prepared)
    → prepare_grant p io request now now_ms expires_at_unix_ms selection s ≡ ok prepared
    → Prepares p io request now now_ms expires_at_unix_ms selection s prepared
unfolding prepare_grant new_record next_sequence
prepare_grant-Prepares p io request now now_ms expires_at_unix_ms selection s prepared h = record {
  not_expired = ground arith;
  room = ground arith;
  asked_for = ground arith;
  token_verified =
      issue_token-verify_token p.sha256 io.random {token = prepared.token}
        {digest = prepared.grant.grant_token_sha256} (ground arith);
  records = λ q.
      subst (λ grants. count_if q grants ≡ count_if q (prepared.grant ∷ s.persisted.grants))
        {x = sort_by record_le (s.persisted.grants ++ prepared.grant ∷ [])}
        {y = prepared.next.grants} (ground arith)
        (records-count q prepared.grant s.persisted.grants);
  sequence_next = ground arith;
  same_schema = ground arith;
}

module _ (p : Platform) (io : GrantIo) (root : Text) (request : CreateAgentGrantRequest) (now : ℕ)
    (w : World) where
  -- The state that the request is checked in.
  abbrev pub granting_state : State
  granting_state = prune_pending now (ensure_loaded p io.read root w).1.state

  -- What a request that created a grant passed, returned and left behind.
  pub record Created (r : IssuedAgentGrant) : Type 0 where
    pub now_ms : ℕ
    pub expires_at_unix_ms : ℕ
    pub selection : PendingSelection
    pub prepared : Prepared
    pub valid_request : validate_create_request p.parse_url request ≡ ok tt
    pub clock : unix_ms p now ≡ ok now_ms
    pub expiry : grant_expiry now_ms request.expires_in_seconds ≡ some expires_at_unix_ms
    pub loaded : is_some granting_state.config_root ≡ true
    pub selected : get request.selection_id granting_state.pending_selections ≡ some selection
    pub passed :
        prepare_grant p io request now now_ms expires_at_unix_ms selection granting_state
        ≡ ok prepared
    pub prepares :
        Prepares p io request now now_ms expires_at_unix_ms selection granting_state prepared
    pub valid_next : validate_state p.parse_url prepared.next ≡ ok tt
    pub token : r.grant_token ≡ prepared.token
    pub grant : r.grant ≡ summary prepared.grant true now_ms
    pub left :
        (create_grant p io root request now w).1.state
        ≡ granted io.grant_id selection prepared (taken request.selection_id granting_state)
    pub used_up :
        get request.selection_id (create_grant p io root request now w).1.state.pending_selections
        ≡ none
    pub active :
        get io.grant_id (create_grant p io root request now w).1.state.active_grants
        ≡ some (new_active selection)
    pub other_active :
        (id : Text)
        → text_eq io.grant_id id ≡ false
        → get id (create_grant p io root request now w).1.state.active_grants
          ≡ get id granting_state.active_grants

  -- A grant that was created came from a valid request and a selection that had not expired, and the
  -- limit of 32 grants was not reached. Its record has the agent, the label, the tools, the origins and
  -- the limits of the request and the scopes of the selection, and the token of the reply passes the
  -- check against its digest. The state that is left passes its validation and differs from the one
  -- that was checked, behind the load of the configuration and the removal of expired selections, by
  -- the selection, which is used up, the next audit sequence, the active grant, and the records: they
  -- are the ones before and the new one.
  pub create_grant-Created :
      (r : IssuedAgentGrant) → (create_grant p io root request now w).0 ≡ ok r → Created r
  unfolding create_grant on_disk write_change write_new_json write_state modify_state continue
      prune_pending
  create_grant-Created r h = elim (Result-cases (unix_ms p now)) [
    | inr (e, clock) ↦ ground arith
    | inl (now_ms, clock) ↦ elim (Option-cases (grant_expiry now_ms request.expires_in_seconds)) [
      | inl expiry ↦ ground arith
      | inr (expires_at_unix_ms, expiry) ↦
          elim (Option-cases (get request.selection_id granting_state.pending_selections)) [
            | inl selected ↦ ground arith
            | inr (selection, selected) ↦
                elim (Result-cases (
                  prepare_grant p io request now now_ms expires_at_unix_ms selection
                    granting_state)) [
                      | inr (e, passed) ↦ ground arith
                      | inl (prepared, passed) ↦ record {
                        now_ms = now_ms;
                        expires_at_unix_ms = expires_at_unix_ms;
                        selection = selection;
                        prepared = prepared;
                        valid_request = ground arith;
                        clock = clock;
                        expiry = expiry;
                        loaded = ground (arith, ensure_loaded_loads p io.read root w);
                        selected = selected;
                        passed = passed;
                        prepares =
                            prepare_grant-Prepares p io request now now_ms expires_at_unix_ms
                              selection granting_state prepared passed;
                        valid_next = ground arith;
                        token = ground arith;
                        grant = ground arith;
                        left = ground arith;
                        used_up = ground (
                          arith,
                          get-remove request.selection_id request.selection_id
                              granting_state.pending_selections,
                          text_eq_refl request.selection_id,
                        );
                        active = ground (
                          arith,
                          get-insert io.grant_id io.grant_id (new_active selection)
                              granting_state.active_grants,
                          text_eq_refl io.grant_id,
                        );
                        other_active = λ id differs. ground (
                          arith,
                          get-insert io.grant_id id (new_active selection)
                              granting_state.active_grants,
                        );
                      }
                    ]
          ]
    ]
  ]

  -- A request that creates no grant changes neither grants nor sessions, except that it may load
  -- the configuration; it may drop expired selections, and the one that it names.
  pub create_grant_error :
      (e : Message)
      → (create_grant p io root request now w).0 ≡ err e
      → ((create_grant p io root request now w).1.state ≡ w.state)
        ⊎ ((create_grant p io root request now w).1.state
            ≡ (ensure_loaded p io.read root w).1.state)
        ⊎ ((create_grant p io root request now w).1.state ≡ granting_state)
        ⊎ ((create_grant p io root request now w).1.state
            ≡ taken request.selection_id granting_state)
  unfolding create_grant on_disk write_change write_new_json write_state modify_state continue
      prune_pending
  create_grant_error e h = ground arith
