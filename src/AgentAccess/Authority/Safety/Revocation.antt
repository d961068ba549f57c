-- ===== src/AgentAccess/Authority/Safety/Revocation.antt =====
-- agent_access/authority.rs: the mark of a revoked grant, and the checks that read it.
use aiknowledge_sort_mit.Prelude.{
  ℕ, ◌≡◌, refl, true, false, some, List, [], ◌∷◌, ◌++◌, Text, arith, All, All-append, sort_by-All,
  All-imp, find-All, ap, is_some, find, find_sound, text_eq, text_eq→eq, eq→text_eq, ok, Bool-cases,
  inl, inr,
}
use aiknowledge_sort_mit.AgentAccess.Store.{AgentGrantRecord, ReadIo}
use aiknowledge_sort_mit.AgentAccess.Store.Ids.{has_id}
use aiknowledge_sort_mit.AgentAccess.Store.Valid.{UniqueIds}
use aiknowledge_sort_mit.AgentAccess.State.{
  Platform, State, World, find_grant, prune_sessions, prune_pending, ensure_grant_usable,
}
use aiknowledge_sort_mit.AgentAccess.Authority.{ensure_loaded}
use aiknowledge_sort_mit.AgentAccess.Authority.Requests.{close_session}
use aiknowledge_sort_mit.AgentAccess.Authority.Records.{record_le}
use aiknowledge_sort_mit.AgentAccess.Authority.Outcomes.Loading.{ensure_loaded-cases}
use aiknowledge_sort_mit.AgentAccess.Authority.Changes.{Change, loads, closes, creates, revokes}
use aiknowledge_sort_mit.AgentAccess.Authority.Safety.Registered.{
  Registered, Change-Registered, prepared-new, prepared-grants, mark_revoked-All,
}

-- Every record with the id is revoked.
abbrev pub RevokedIf : Text → AgentGrantRecord → Type 0
RevokedIf g grant = text_eq grant.grant_id g ≡ true → is_some grant.revoked_at_unix_ms ≡ true

pub record Dead (g : Text) (s : State) : Type 0 where
  pub registered : Registered g s
  pub revoked : All (RevokedIf g) s.persisted.grants

close_session_persisted :
    (session_id : Text) (s : State) → (close_session session_id s).persisted ≡ s.persisted
unfolding close_session
close_session_persisted session_id s = ground arith

pub Change-Dead : (p : Platform) (g : Text) (s t : State) → Change p s t → Dead g s → Dead g t
unfolding prune_sessions prune_pending close_session
Change-Dead p g s t c h = record {
  registered = Change-Registered p g s t c h.registered;
  revoked = still s t c h;
}
  where
    still : (s t : State) → Change p s t → Dead g s → All (RevokedIf g) t.persisted.grants
    still s t (loads root persisted unloaded valid) h = absurd (ground (arith, h.registered.loaded))
    still s t (creates io request now now_ms expires selection prepared l passed v) h =
        let (sorted, id, room) =
          prepared-grants p io request now now_ms expires selection prepared s passed in
        let new =
          prepared-new p io request now now_ms expires selection prepared s passed g v
            h.registered.known in
        rw sorted (
          sort_by-All record_le (RevokedIf g) (s.persisted.grants ++ prepared.grant ∷ []) (
            All-append (RevokedIf g) s.persisted.grants (prepared.grant ∷ []) h.revoked
              ((λ e. ground arith), tt)))
    still s t (revokes id now_ms sequence loaded next valid) h =
        mark_revoked-All (RevokedIf g) id now_ms s.persisted.grants (λ grant x e. refl) h.revoked
    still s t (closes session_id) h = rw (close_session_persisted session_id s) h.revoked
    still s t c h = h.revoked

-- Where ids are unique, a record that `find` returns and that is revoked is the only one.
pub RevokedIf-found :
    (g : Text) (grants : List AgentGrantRecord) {grant : AgentGrantRecord}
    → UniqueIds grants
    → find (has_id g) grants ≡ some grant
    → is_some grant.revoked_at_unix_ms ≡ true
    → All (RevokedIf g) grants
unfolding find
RevokedIf-found g [] u f r = tt
RevokedIf-found g (x ∷ xs) {grant} u f r = elim (Bool-cases (has_id g x)) [
  | inl hit ↦ (
    (λ e. ground arith),
    All-imp xs
        (λ other differs same. absurd (
          ground (
            arith,
            text_eq→eq x.grant_id g,
            text_eq→eq other.grant_id g,
            eq→text_eq x.grant_id other.grant_id,
          )))
        u.0,
  )
  | inr miss ↦
      ((λ e. absurd (ground arith)), RevokedIf-found g xs {grant = grant} u.1 (ground arith) r)
]

usable_not_revoked :
    (s : State) (grant : AgentGrantRecord) (now_ms : ℕ)
    → ensure_grant_usable s grant now_ms ≡ ok tt
    → is_some grant.revoked_at_unix_ms ≡ false
unfolding ensure_grant_usable
usable_not_revoked s grant now_ms h = ground arith

-- No record of a dead grant is usable.
pub Dead-not_usable :
    (g : Text) (s : State) (grant : AgentGrantRecord) (now_ms : ℕ)
    → Dead g s
    → find_grant g s ≡ some grant
    → ensure_grant_usable s grant now_ms ≡ ok tt
    → ⊥
Dead-not_usable g s grant now_ms h f usable =
    let revoked =
      find-All (RevokedIf g) (has_id g) s.persisted.grants h.revoked f
        (find_sound (has_id g) s.persisted.grants f) in
    ground (arith, usable_not_revoked s grant now_ms usable)

-- A loaded authority loads nothing more.
pub loaded_stays :
    (p : Platform) (io : ReadIo) (root : Text) (w : World)
    → is_some w.state.config_root ≡ true
    → (ensure_loaded p io root w).1.state ≡ w.state
loaded_stays p io root w l = elim (ensure_loaded-cases p io root w) [
  | inl e ↦ ap (λ (v : World). v.state) e
  | inr (persisted, unloaded, read, e) ↦ absurd (ground arith)
]
