-- ===== src/AgentAccess/Authority/Safety/Replay.antt =====
-- agent_access/authority.rs: a request id of a grant behind its use.
use aiknowledge_sort_mit.Prelude.{
  ℕ, ◌≡◌, true, false, some, List, Text, arith, member, find_sound, find-count_if, text_eq→eq,
  text_eq_refl, ok, is_ok, Result-cases, Option-cases, inl, inr,
}
use aiknowledge_sort_mit.Prelude.Maps.{Map, get, update, get-insert, get-remove, get-update}
use aiknowledge_sort_mit.AgentAccess.Schema.{AuthorizeRequest}
use aiknowledge_sort_mit.AgentAccess.Store.Ids.{has_id}
use aiknowledge_sort_mit.AgentAccess.State.{
  ActiveGrant, Platform, State, World, prune_sessions, prune_pending,
}
use aiknowledge_sort_mit.AgentAccess.Authority.Records.{new_active}
use aiknowledge_sort_mit.AgentAccess.Authority.Requests.{close_session}
use aiknowledge_sort_mit.AgentAccess.Authority.Permits.{authorize_checks_iff}
use aiknowledge_sort_mit.AgentAccess.Authority.Authorize.{
  AuthorizeIo, AuthorizedRequest, authorize_request, use_request_id,
}
use aiknowledge_sort_mit.AgentAccess.Authority.Outcomes.Authorizing.{authorize-Authorized}
use aiknowledge_sort_mit.AgentAccess.Authority.Changes.{Change, charges, creates, revokes}
use aiknowledge_sort_mit.AgentAccess.Authority.Calls.{Call, run}
use aiknowledge_sort_mit.AgentAccess.Authority.Steps.{run_keep}
use aiknowledge_sort_mit.AgentAccess.Authority.Safety.Registered.{
  Registered, Change-Registered, prepared-new,
}

-- If the grant is active, it has the request id among those that were used.
abbrev pub Used : Text → Text → Map ActiveGrant → Type 0
Used g r active_grants =
    (active : ActiveGrant)
    → get g active_grants ≡ some active
    → member r active.used_request_ids ≡ true

pub record Spent (g r : Text) (s : State) : Type 0 where
  pub registered : Registered g s
  pub used : Used g r s.active_grants

update-Used :
    (g r k r' : Text) (m : Map ActiveGrant) → Used g r m → Used g r (update k (use_request_id r') m)
unfolding member
update-Used g r k r' m h active e = elim (Option-cases (get g m)) [
  | inl missing ↦ ground (arith, get-update k g (use_request_id r') m)
  | inr (before, there) ↦ ground (arith, get-update k g (use_request_id r') m, h before there)
]

-- Every change keeps a request id spent.
Change-Spent : (p : Platform) (g r : Text) (s t : State) → Change p s t → Spent g r s → Spent g r t
unfolding prune_sessions prune_pending close_session
Change-Spent p g r s t c h = record {
  registered = Change-Registered p g s t c h.registered;
  used = still s t c h;
}
  where
    still : (s t : State) → Change p s t → Spent g r s → Used g r t.active_grants
    still s t (creates io request now now_ms expires selection prepared l passed v) h active e =
        ground (
          arith,
          get-insert io.grant_id g (new_active selection) s.active_grants,
          prepared-new p io request now now_ms expires selection prepared s passed g v
              h.registered.known,
          h.used active,
        )
    still s t (charges can_clone request now_ms a passed) h active e =
        update-Used g r a.grant.grant_id request.request_id s.active_grants h.used active e
    still s t (revokes id now_ms sequence loaded next valid) h active e =
        ground (arith, get-remove id g s.active_grants, h.used active)
    still s t c h active e = ground (arith, h.used active)

module _ (p : Platform) (io : AuthorizeIo) (request : AuthorizeRequest) (now : ℕ) where
  -- An authorized request is spent, and a spent one is not authorized.
  authorize-Spent :
      (w : World) (r : AuthorizedRequest)
      → (authorize_request p io request now w).0 ≡ ok r
      → Spent request.grant_id request.request_id (authorize_request p io request now w).1.state
  unfolding prune_sessions member
  authorize-Spent w r done =
      let v = authorize-Authorized p io request now w r done in
      let s = prune_sessions now w.state in
      let (active, session, ok_checks) =
        (authorize_checks_iff p io.can_clone request v.now_ms s v.approved).0 v.passed in
      let same = find_sound (has_id request.grant_id) s.persisted.grants ok_checks.grant_known in
      rw v.left (record {
        registered = record {
          loaded = ok_checks.loaded;
          known = find-count_if (has_id request.grant_id) s.persisted.grants (ground arith);
        };
        used = λ charged e. ground (
          arith,
          get-update v.approved.grant.grant_id request.grant_id (use_request_id request.request_id)
              w.state.active_grants,
          ok_checks.grant_active,
          same,
          text_eq→eq v.approved.grant.grant_id request.grant_id same,
          text_eq_refl request.request_id,
        );
      })

  Spent-authorize :
      (w : World)
      → Spent request.grant_id request.request_id w.state
      → is_ok (authorize_request p io request now w).0 ≡ false
  unfolding prune_sessions
  Spent-authorize w h = elim (Result-cases (authorize_request p io request now w).0) [
    | inr (d, failed) ↦ rw failed
    | inl (r, done) ↦
        let v = authorize-Authorized p io request now w r done in
        let s = prune_sessions now w.state in
        let (active, session, ok_checks) =
          (authorize_checks_iff p io.can_clone request v.now_ms s v.approved).0 v.passed in
        let same = find_sound (has_id request.grant_id) s.persisted.grants ok_checks.grant_known in
        let there = ok_checks.grant_active in
        ground (
          arith,
          h.used active (rw (text_eq→eq v.approved.grant.grant_id request.grant_id same) at there),
          ok_checks.request_id_new,
        )
  ]

-- Once a request was authorized, no later request with its grant and its request id is authorized:
-- not after any calls, of any agents and of the desktop user, revocations, creations and new
-- sessions included, and whatever else the later request holds.
pub no_replay :
    (p : Platform) (io later_io : AuthorizeIo) (request later : AuthorizeRequest)
    (now later_now : ℕ) (w : World) (calls : List Call) (r : AuthorizedRequest)
    → (authorize_request p io request now w).0 ≡ ok r
    → later.grant_id ≡ request.grant_id
    → later.request_id ≡ request.request_id
    → is_ok
        (authorize_request p later_io later later_now
          (run p calls (authorize_request p io request now w).1)).0
      ≡ false
no_replay p io later_io request later now later_now w calls r done same_grant same_request =
    Spent-authorize p later_io later later_now _ (
      rw (same_grant, same_request)
        (run_keep p (Spent request.grant_id request.request_id)
          (Change-Spent p request.grant_id request.request_id) calls _
          (authorize-Spent p io request now w r done)))
