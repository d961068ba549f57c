-- ===== src/AgentAccess/Authority/Invariant.antt =====
-- agent_access/authority.rs: the invariant of the state behind the lock.
use aiknowledge_sort_mit.Prelude.{
  ℕ, text_eq→eq, ◌≤◌, ◌<◌, ◌≡◌, refl, inl, inr, Bool, none, some, List, [], Text, arith, length,
  find-All, text_eq, ok, is_ok, ltb, Bool-cases, Option-cases,
}
use aiknowledge_sort_mit.Prelude.Maps.{
  Map, get, insert, remove, retain, update, get-insert, get-remove, get-retain, get-update,
  length-insert, length-remove, length-retain,
}
use aiknowledge_sort_mit.AgentAccess.Errors.{agent_session_id}
use aiknowledge_sort_mit.AgentAccess.Schema.{AuthorizeRequest, validate_safe_id}
use aiknowledge_sort_mit.AgentAccess.Store.{validate_state, default_persisted, validate_records}
use aiknowledge_sort_mit.AgentAccess.Store.Valid.{IsSound, validate_state-All}
use aiknowledge_sort_mit.AgentAccess.State.{
  AgentSession, PendingSelection, Platform, State, World, prune_pending, prune_sessions,
  max_pending_selections,
}
use aiknowledge_sort_mit.AgentAccess.Authority.Checks.{Approved, authorize_checks}
use aiknowledge_sort_mit.AgentAccess.Authority.Permits.{authorize_checks_iff}
use aiknowledge_sort_mit.AgentAccess.Authority.Requests.{close_session}
use aiknowledge_sort_mit.AgentAccess.Authority.Authorize.{count_request}
use aiknowledge_sort_mit.AgentAccess.Authority.Changes.{
  Change, loads, prunes_sessions, prunes_selections, opens, charges, closes, selects, takes,
  creates, revokes,
}
use aiknowledge_sort_mit.AgentAccess.Authority.Calls.{Call, run}
use aiknowledge_sort_mit.AgentAccess.Authority.Steps.{run_keep}

-- The sessions of a map are charged at most 100,000 requests each.
abbrev pub Charged : Map AgentSession → Type 0
Charged sessions =
    (id : Text) (session : AgentSession)
    → get id sessions ≡ some session
    → session.request_count ≤ 100_000

pub record Inv (p : Platform) (s : State) : Type 0 where
  pub persisted_valid : validate_state p.parse_url s.persisted ≡ ok tt
  pub selections_bounded : length s.pending_selections ≤ max_pending_selections
  pub sessions_bounded : Charged s.sessions

retain-Charged : (q : AgentSession → Bool) (m : Map AgentSession) → Charged m → Charged (retain q m)
retain-Charged q m h id session e = h id session (ground (arith, get-retain q id m))

remove-Charged : (k : Text) (m : Map AgentSession) → Charged m → Charged (remove k m)
remove-Charged k m h id session e = h id session (ground (arith, get-remove k id m))

insert-Charged :
    (k : Text) (v : AgentSession) (m : Map AgentSession)
    → v.request_count ≡ 0
    → Charged m
    → Charged (insert k v m)
insert-Charged k v m new h id session e = ground (arith, get-insert k id v m, h id session)

-- Only the session that was checked is charged.
update-Charged :
    (k : Text) (v : AgentSession) (m : Map AgentSession)
    → get k m ≡ some v
    → v.request_count < 100_000
    → Charged m
    → Charged (update k count_request m)
update-Charged k v m found below h id session e = elim (Option-cases (get id m)) [
  | inl missing ↦ ground (arith, get-update k id count_request m)
  | inr (v0, there) ↦
      ground (arith, get-update k id count_request m, text_eq→eq k id, h id v0 there)
]

module _ (p : Platform) where
  charges-Charged :
      (can_clone : Bool) (request : AuthorizeRequest) (now_ms : ℕ) (a : Approved) (s : State)
      → authorize_checks p can_clone request now_ms s ≡ ok a
      → Inv p s
      → Charged (update request.session_id count_request s.sessions)
  charges-Charged can_clone request now_ms a s passed v =
      let (active, session, ok_checks) =
        (authorize_checks_iff p can_clone request now_ms s a).0 passed in
      let sound =
        find-All (IsSound p.parse_url) (λ grant. text_eq grant.grant_id request.grant_id)
          s.persisted.grants (validate_state-All p.parse_url s.persisted v.persisted_valid).1
          ok_checks.grant_known in
      update-Charged request.session_id session s.sessions ok_checks.session_open
        (omega (arith, sound.requests_bounded, ok_checks.session_below_limit)) v.sessions_bounded

  close-Inv : (session_id : Text) (s : State) → Inv p s → Inv p (close_session session_id s)
  unfolding close_session
  close-Inv session_id s v =
      elim (Bool-cases (is_ok (validate_safe_id agent_session_id session_id))) [
        | inl valid ↦ rw valid (record {
          persisted_valid = v.persisted_valid;
          selections_bounded = v.selections_bounded;
          sessions_bounded = remove-Charged session_id s.sessions v.sessions_bounded;
        })
        | inr wrong ↦ rw wrong v
      ]

  -- Every change keeps the persisted state valid, the selections at most 16, and the requests of a
  -- session at most 100,000.
  pub Change-Inv : (s t : State) → Change p s t → Inv p s → Inv p t
  unfolding prune_sessions prune_pending validate_state
  Change-Inv s t (loads root persisted unloaded valid) v = record {
    persisted_valid = valid;
    selections_bounded = v.selections_bounded;
    sessions_bounded = v.sessions_bounded;
  }
  Change-Inv s t (prunes_sessions now) v = record {
    persisted_valid = v.persisted_valid;
    selections_bounded = v.selections_bounded;
    sessions_bounded = retain-Charged _ s.sessions v.sessions_bounded;
  }
  Change-Inv s t (prunes_selections now) v = record {
    persisted_valid = v.persisted_valid;
    selections_bounded = omega (
      arith,
      v.selections_bounded,
      length-retain (λ (selection : PendingSelection). ltb now selection.expires_at)
          s.pending_selections,
    );
    sessions_bounded = v.sessions_bounded;
  }
  Change-Inv s t (opens session_id random request now now_ms agreed loaded passed) v = record {
    persisted_valid = v.persisted_valid;
    selections_bounded = v.selections_bounded;
    sessions_bounded = insert-Charged session_id _ s.sessions refl v.sessions_bounded;
  }
  Change-Inv s t (charges can_clone request now_ms a passed) v = record {
    persisted_valid = v.persisted_valid;
    selections_bounded = v.selections_bounded;
    sessions_bounded = charges-Charged can_clone request now_ms a s passed v;
  }
  Change-Inv s t (closes session_id) v = close-Inv session_id s v
  Change-Inv s t (selects selection_id selection room) v = record {
    persisted_valid = v.persisted_valid;
    selections_bounded =
        omega (arith, room, length-insert selection_id selection s.pending_selections);
    sessions_bounded = v.sessions_bounded;
  }
  Change-Inv s t (takes selection_id) v = record {
    persisted_valid = v.persisted_valid;
    selections_bounded =
        omega (arith, v.selections_bounded, length-remove selection_id s.pending_selections);
    sessions_bounded = v.sessions_bounded;
  }
  Change-Inv s t (creates io request now now_ms expires selection prepared loaded passed valid) v =
      record {
        persisted_valid = valid;
        selections_bounded = v.selections_bounded;
        sessions_bounded = v.sessions_bounded;
      }
  Change-Inv s t (revokes grant_id now_ms sequence loaded next valid) v = record {
    persisted_valid = valid;
    selections_bounded = v.selections_bounded;
    sessions_bounded = retain-Charged _ s.sessions v.sessions_bounded;
  }

  -- Whatever the calls, from a state that satisfies it: the persisted state passes its validation,
  -- there are at most 16 pending selections, and no session is charged more than 100,000 requests.
  pub run-Inv : (calls : List Call) (w : World) → Inv p w.state → Inv p (run p calls w).state
  run-Inv = run_keep p (Inv p) Change-Inv

-- The state of a new authority.
abbrev pub initial : State
initial = record {
  config_root = none;
  persisted = default_persisted;
  pending_selections = [];
  active_grants = [];
  sessions = [];
}

pub initial-Inv : (p : Platform) → Inv p initial
unfolding validate_state validate_records get
initial-Inv p = record {
  persisted_valid = refl;
  selections_bounded = omega arith;
  sessions_bounded = λ id session e. cc;
}
