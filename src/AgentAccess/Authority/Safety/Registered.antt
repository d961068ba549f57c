-- ===== src/AgentAccess/Authority/Safety/Registered.antt =====
-- agent_access/authority.rs: the records of a loaded authority, by their ids, over its changes.
use aiknowledge_sort_mit.Prelude.{
  ℕ, ◌≤◌, ◌<◌, ◌≡◌, refl, true, false, some, List, [], ◌∷◌, ◌++◌, Text, arith, length, All, sort_by,
  count_if, count_if-append, count_if-sort_by, is_some, text_eq, ok, Bool-cases, inl, inr,
}
use aiknowledge_sort_mit.AgentAccess.Schema.{CreateAgentGrantRequest}
use aiknowledge_sort_mit.AgentAccess.Store.{AgentGrantRecord, validate_state}
use aiknowledge_sort_mit.AgentAccess.Store.Ids.{has_id, valid-count}
use aiknowledge_sort_mit.AgentAccess.State.{
  PendingSelection, Platform, State, prune_sessions, prune_pending,
}
use aiknowledge_sort_mit.AgentAccess.Authority.Requests.{close_session}
use aiknowledge_sort_mit.AgentAccess.Authority.Records.{
  GrantIo, Prepared, prepare_grant, new_record, mark_revoked, record_le,
}
use aiknowledge_sort_mit.AgentAccess.Authority.Changes.{Change, loads, creates, revokes}

pub record Registered (id : Text) (s : State) : Type 0 where
  pub loaded : is_some s.config_root ≡ true
  pub known : 0 < count_if (has_id id) s.persisted.grants

pub count_if-mark_revoked :
    (id g : Text) (now_ms : ℕ) (grants : List AgentGrantRecord)
    → count_if (has_id id) (mark_revoked g now_ms grants) ≡ count_if (has_id id) grants
unfolding mark_revoked count_if
count_if-mark_revoked id g now_ms [] = refl
count_if-mark_revoked id g now_ms (grant ∷ grants) =
    ground (arith, count_if-mark_revoked id g now_ms grants)

pub mark_revoked-All {κ} :
    (P : AgentGrantRecord → Type κ) (g : Text) (now_ms : ℕ) (grants : List AgentGrantRecord)
    → ((grant : AgentGrantRecord) → P grant → P (record grant { revoked_at_unix_ms = some now_ms }))
    → All P grants
    → All P (mark_revoked g now_ms grants)
unfolding mark_revoked
mark_revoked-All P g now_ms [] f h = tt
mark_revoked-All P g now_ms (grant ∷ grants) f h = elim (Bool-cases (text_eq grant.grant_id g)) [
  | inl hit ↦ rw hit (f grant h.0, h.1)
  | inr miss ↦ rw miss (h.0, mark_revoked-All P g now_ms grants f h.1)
]

module _ (p : Platform) (io : GrantIo) (request : CreateAgentGrantRequest) (now now_ms expires : ℕ)
    (selection : PendingSelection) (prepared : Prepared) (s : State)
    (passed : prepare_grant p io request now now_ms expires selection s ≡ ok prepared) where
  -- The grants behind a creation: those before, and the new one.
  pub prepared-grants :
      (prepared.next.grants ≡ sort_by record_le (s.persisted.grants ++ prepared.grant ∷ []))
      × (prepared.grant.grant_id ≡ io.grant_id)
      × (length s.persisted.grants < 32)
  unfolding prepare_grant new_record
  prepared-grants = ground arith

  -- A creation that is valid takes no id that is known.
  pub prepared-new :
      (id : Text)
      → validate_state p.parse_url prepared.next ≡ ok tt
      → 0 < count_if (has_id id) s.persisted.grants
      → text_eq io.grant_id id ≡ false
  unfolding count_if
  prepared-new id valid known = ground (
    arith,
    prepared-grants,
    valid-count p.parse_url prepared.next id valid,
    count_if-sort_by record_le (has_id id) (s.persisted.grants ++ prepared.grant ∷ []),
    count_if-append (has_id id) s.persisted.grants (prepared.grant ∷ []),
  )

  pub prepared-count :
      (id : Text)
      → count_if (has_id id) s.persisted.grants ≤ count_if (has_id id) prepared.next.grants
  unfolding count_if
  prepared-count id = ground (
    arith,
    prepared-grants,
    count_if-sort_by record_le (has_id id) (s.persisted.grants ++ prepared.grant ∷ []),
    count_if-append (has_id id) s.persisted.grants (prepared.grant ∷ []),
  )

-- A known grant stays known.
pub Change-Registered :
    (p : Platform) (id : Text) (s t : State) → Change p s t → Registered id s → Registered id t
unfolding prune_sessions prune_pending close_session
Change-Registered p id s t (loads root persisted unloaded valid) r = absurd (ground arith)
Change-Registered p id s t (revokes g now_ms sequence loaded next valid) r =
    ground (arith, count_if-mark_revoked id g now_ms s.persisted.grants)
Change-Registered p id s t (creates io request now now_ms expires selection prepared l passed v) r =
    ground (arith, prepared-count p io request now now_ms expires selection prepared s passed id)
Change-Registered p id s t c r = ground arith
