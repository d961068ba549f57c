-- ===== src/AgentAccess/Authority/Outcomes/Loading.antt =====
-- What `ensure_loaded` leaves behind.
use aiknowledge_sort_mit.Prelude.{
  ◌≡◌, ◌⊎◌, inl, inr, true, none, some, Text, arith, is_some, Option-cases, ok, Result-cases,
}
use aiknowledge_sort_mit.Prelude.Execs.{continue}
use aiknowledge_sort_mit.AgentAccess.Store.{
  ReadIo, PersistedAgentAccess, read_state, validate_state, validate_records,
}
use aiknowledge_sort_mit.AgentAccess.State.{Platform, World}
use aiknowledge_sort_mit.AgentAccess.Authority.{ensure_loaded, modify_state}

-- What was read from the disk is valid.
pub read_state-valid :
    (p : Platform) (io : ReadIo) (w : World) {persisted : PersistedAgentAccess}
    → read_state p.parse_url io w.disk ≡ ok persisted
    → validate_state p.parse_url persisted ≡ ok tt
unfolding read_state validate_state validate_records
read_state-valid p io w h = ground arith

module _ (p : Platform) (io : ReadIo) (root : Text) (w : World) where
  -- The disk is not written.
  pub disk-ensure_loaded : (ensure_loaded p io root w).1.disk ≡ w.disk
  unfolding ensure_loaded continue modify_state
  disk-ensure_loaded = ground arith

  -- The state stays, or it was not loaded before and gets a valid configuration from the disk.
  pub ensure_loaded-cases :
      ((ensure_loaded p io root w).1 ≡ w)
      ⊎ ((persisted : PersistedAgentAccess) × (w.state.config_root ≡ none)
          × (read_state p.parse_url io w.disk ≡ ok persisted)
          × ((ensure_loaded p io root w).1.state
              ≡ record w.state { persisted = persisted; config_root = some root }))
  unfolding ensure_loaded continue modify_state
  ensure_loaded-cases = elim (Option-cases w.state.config_root) [
    | inr (current, e) ↦ inl (ground arith)
    | inl e ↦ elim (Result-cases (read_state p.parse_url io w.disk)) [
      | inr (message, failed) ↦ inl (ground arith)
      | inl (persisted, done) ↦ inr (persisted, e, done, ground arith)
    ]
  ]

  -- After a success the state is loaded.
  pub ensure_loaded_loads :
      (ensure_loaded p io root w).0 ≡ ok tt
      → is_some (ensure_loaded p io root w).1.state.config_root ≡ true
  unfolding ensure_loaded continue modify_state
  ensure_loaded_loads h = ground arith
