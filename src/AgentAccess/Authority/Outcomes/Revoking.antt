-- ===== src/AgentAccess/Authority/Outcomes/Revoking.antt =====
-- What `revoke` and `select_paths` leave behind.
use aiknowledge_sort_mit.Prelude.{
  ℕ, ◌<◌, ◌≡◌, subst, false, Option, text_eq_refl, ◌⊎◌, inl, inr, true, not, none, some, Text,
  arith, is_some, ◌+◌, List, [], length, text_eq, ok, err, Result-cases, Option-cases,
}
use aiknowledge_sort_mit.Prelude.Maps.{get, insert, remove, retain, keep_if, get-remove, get-retain}
use aiknowledge_sort_mit.Prelude.Execs.{continue}
use aiknowledge_sort_mit.Discovery.Roots.{FilePath, CapabilityRoot, sorted_paths}
use aiknowledge_sort_mit.AgentAccess.Errors.{Message}
use aiknowledge_sort_mit.AgentAccess.Schema.{AgentAccessState, Url}
use aiknowledge_sort_mit.AgentAccess.Store.{AgentGrantRecord, validate_state}
use aiknowledge_sort_mit.AgentAccess.Store.Write.{write_change, write_new_json, write_state}
use aiknowledge_sort_mit.AgentAccess.State.{
  AgentSession, PendingSelection, Platform, State, World, unix_ms, prune_pending, find_grant,
  next_sequence, max_pending_selections, selection_ttl,
}
use aiknowledge_sort_mit.AgentAccess.Authority.{on_disk, modify_state, ensure_loaded}
use aiknowledge_sort_mit.AgentAccess.Authority.Outcomes.Marking.{
  find-mark_revoked, find_other-mark_revoked,
}
use aiknowledge_sort_mit.AgentAccess.Authority.Outcomes.Loading.{ensure_loaded_loads}
use aiknowledge_sort_mit.AgentAccess.Authority.Records.{GrantIo, with_revoked}
use aiknowledge_sort_mit.AgentAccess.Authority.Selections.{select_roots, select_paths}
use aiknowledge_sort_mit.AgentAccess.Authority.Grants.{revoke, revoke_now}

-- The state after a grant was revoked.
abbrev pub revoked_state : Text → ℕ → ℕ → State → State
revoked_state grant_id now_ms sequence s = record s {
  persisted = with_revoked s.persisted sequence grant_id now_ms;
  active_grants = remove grant_id s.active_grants;
  sessions = retain (λ session. not (text_eq session.grant_id grant_id)) s.sessions;
}

-- What a revocation changes: the record of the grant is marked, and it is neither active nor has
-- sessions; other records and other sessions stay.
pub record Marks (parse_url : Text → Option Url) (grant_id : Text) (now_ms : ℕ)
    (grant : AgentGrantRecord) (before after : State) : Type 0 where
  pub marked : find_grant grant_id after ≡ some (record grant { revoked_at_unix_ms = some now_ms })
  pub other_grants :
      (id : Text) → text_eq id grant_id ≡ false → find_grant id after ≡ find_grant id before
  pub inactive : get grant_id after.active_grants ≡ none
  pub no_sessions :
      (id : Text) (session : AgentSession)
      → get id after.sessions ≡ some session
      → text_eq session.grant_id grant_id ≡ false
  pub other_sessions :
      (id : Text) (session : AgentSession)
      → get id before.sessions ≡ some session
      → text_eq session.grant_id grant_id ≡ false
      → get id after.sessions ≡ some session
  pub valid : validate_state parse_url after.persisted ≡ ok tt
  pub sequence_next : after.persisted.next_audit_sequence ≡ before.persisted.next_audit_sequence + 1

revoked-Marks :
    (parse_url : Text → Option Url) (grant_id : Text) (now_ms sequence : ℕ) (s : State)
    {grant : AgentGrantRecord}
    → find_grant grant_id s ≡ some grant
    → next_sequence s ≡ ok sequence
    → validate_state parse_url (with_revoked s.persisted sequence grant_id now_ms) ≡ ok tt
    → Marks parse_url grant_id now_ms grant s (revoked_state grant_id now_ms sequence s)
unfolding next_sequence
revoked-Marks parse_url grant_id now_ms sequence s {grant} known next valid = record {
  marked = find-mark_revoked grant_id now_ms s.persisted.grants {grant = grant} known;
  other_grants =
      λ id differs. find_other-mark_revoked grant_id id now_ms s.persisted.grants differs;
  inactive = ground (arith, get-remove grant_id grant_id s.active_grants, text_eq_refl grant_id);
  no_sessions = λ id session present. elim (Option-cases (get id s.sessions)) [
    | inl absent ↦ absurd (ground (arith, kept id))
    | inr (found, here) ↦ ground (arith, kept id)
  ];
  other_sessions = λ id session present differs. ground (arith, kept id);
  valid = valid;
  sequence_next = ground arith;
}
  where
    kept :
        (id : Text)
        → get id (retain (λ session. not (text_eq session.grant_id grant_id)) s.sessions)
          ≡ keep_if (λ session. not (text_eq session.grant_id grant_id)) (get id s.sessions)
    kept id =
        get-retain (λ (session : AgentSession). not (text_eq session.grant_id grant_id)) id
          s.sessions

module _ (p : Platform) (io : GrantIo) (root : Text) (grant_id : Text) (now : ℕ) (w : World) where
  abbrev pub revoking_state : State
  revoking_state = (ensure_loaded p io.read root w).1.state

  -- What a revocation that returned found and left behind.
  pub record Revoked : Type 0 where
    pub now_ms : ℕ
    pub grant : AgentGrantRecord
    pub clock : unix_ms p now ≡ ok now_ms
    pub loaded : is_some revoking_state.config_root ≡ true
    pub grant_known : find_grant grant_id revoking_state ≡ some grant
    -- it was revoked before, and nothing changes; or it is revoked now
    pub left :
        ((is_some grant.revoked_at_unix_ms ≡ true)
          × ((revoke p io root grant_id now w).1.state ≡ revoking_state))
        ⊎ ((sequence : ℕ) × (grant.revoked_at_unix_ms ≡ none)
            × (next_sequence revoking_state ≡ ok sequence)
            × (validate_state p.parse_url
                  (with_revoked revoking_state.persisted sequence grant_id now_ms)
                ≡ ok tt)
            × ((revoke p io root grant_id now w).1.state
                ≡ revoked_state grant_id now_ms sequence revoking_state)
            × Marks p.parse_url grant_id now_ms grant revoking_state
                (revoke p io root grant_id now w).1.state)

  -- A revocation that returned found the grant. Either it was revoked before, and nothing changes but
  -- the load of the configuration; or it was not, and then its record is now marked as revoked at the
  -- time of the call, in a state that passes its validation with the next audit sequence, the grant is
  -- not active any more and no session of it is open, while the records of other ids and the sessions
  -- of other grants are as before.
  pub revoke-Revoked : (r : AgentAccessState) → (revoke p io root grant_id now w).0 ≡ ok r → Revoked
  unfolding revoke revoke_now on_disk write_change write_new_json write_state modify_state continue
  revoke-Revoked r h = elim (Result-cases (unix_ms p now)) [
    | inr (e, clock) ↦ ground arith
    | inl (now_ms, clock) ↦ elim (Option-cases (find_grant grant_id revoking_state)) [
      | inl unknown ↦ ground arith
      | inr (grant, known) ↦ record {
        now_ms = now_ms;
        grant = grant;
        clock = clock;
        loaded = ground (arith, ensure_loaded_loads p io.read root w);
        grant_known = known;
        left = elim (Option-cases grant.revoked_at_unix_ms) [
          | inr (at, before) ↦ inl (ground arith, ground arith)
          | inl now_first ↦ elim (Result-cases (next_sequence revoking_state)) [
            | inr (e, exhausted) ↦ ground arith
            | inl (sequence, next) ↦
                let marks =
                  revoked-Marks p.parse_url grant_id now_ms sequence revoking_state {grant = grant}
                    known next (ground arith) in
                inr (
                  sequence,
                  now_first,
                  next,
                  ground arith,
                  ground arith,
                  subst (Marks p.parse_url grant_id now_ms grant revoking_state)
                      {x = revoked_state grant_id now_ms sequence revoking_state}
                      {y = (revoke p io root grant_id now w).1.state} (ground arith) marks,
                )
          ]
        ];
      }
    ]
  ]

  -- A revocation that fails changes nothing, except that it may load the configuration.
  pub revoke_error :
      (e : Message)
      → (revoke p io root grant_id now w).0 ≡ err e
      → ((revoke p io root grant_id now w).1.state ≡ w.state)
        ⊎ ((revoke p io root grant_id now w).1.state ≡ revoking_state)
  unfolding revoke revoke_now on_disk write_change write_new_json write_state modify_state continue
  revoke_error e h = ground arith

module _ (open_root : FilePath → CapabilityRoot) (fresh : ℕ → Text) (selection_id : Text)
    (paths : List FilePath) (now : ℕ) (w : World) where
  -- A selection is added only below the limit; otherwise expired selections may go.
  pub select_paths-cases :
      ((select_paths open_root fresh selection_id paths now w).1.state ≡ w.state)
      ⊎ ((select_paths open_root fresh selection_id paths now w).1.state
          ≡ prune_pending now w.state)
      ⊎ ((selection : PendingSelection) × (length (prune_pending now w.state).pending_selections
            < max_pending_selections)
          × ((select_paths open_root fresh selection_id paths now w).1.state
              ≡ record (prune_pending now w.state) {
                pending_selections =
                    insert selection_id selection (prune_pending now w.state).pending_selections;
              }))
  unfolding select_paths modify_state continue prune_pending
  select_paths-cases =
      elim (Result-cases (select_roots open_root fresh 0 [] (sorted_paths paths))) [
        | inr (e, failed) ↦ ground arith
        | inl (roots, done) ↦
            elim (Result-cases (select_paths open_root fresh selection_id paths now w).0) [
              | inr (e, failed) ↦ ground arith
              | inl (r, added) ↦ inr (
                  inr (
                    record { expires_at = now + selection_ttl; roots = roots },
                    ground arith,
                    ground arith,
                  ))
            ]
      ]
