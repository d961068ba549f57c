-- ===== src/Discovery/DropGrants/Issuing.antt =====
-- discovery/grant.rs: when `issue_with_deadline` stores a grant, and what it stores.
use aiknowledge_sort_mit.Prelude.{
  ℕ, zero, suc, ◌+◌, ◌*◌, ◌≤◌, ◌<◌, ◌≡◌, refl, Bool, true, ◌&&◌, List, [], ◌∷◌, Text, arith, inl,
  inr, map, ok, length, ltb, is_ok, text_eq_refl, Result-cases,
}
use aiknowledge_sort_mit.Prelude.Maps.{
  Map, retain, get-insert, length-insert, length-retain, length-remove,
}
use aiknowledge_sort_mit.Prelude.Draws.{unique_id}
use aiknowledge_sort_mit.Prelude.Execs.{continue}
use aiknowledge_sort_mit.Discovery.Roots.{FilePath, CapabilityRoot, sorted_paths}
use aiknowledge_sort_mit.Discovery.DropGrants.{
  RegistryLimits, DropGrant, DropIo, validate_paths, open_roots,
}
use aiknowledge_sort_mit.Discovery.DropGrants.Registry.{issue_with_deadline, consume_at}
use aiknowledge_sort_mit.Discovery.DropGrants.Consuming.{valid_grant_id}

-- The first `n` readings from `tick` on are before the deadline.
unfoldable pub before_deadline : (ℕ → ℕ) → ℕ → ℕ → ℕ → Bool
before_deadline clock deadline tick zero = true
before_deadline clock deadline tick (suc n) =
    ltb (clock tick) deadline && before_deadline clock deadline (tick + 1) n

module _ (clock : ℕ → ℕ) (open_root : FilePath → CapabilityRoot) (deadline : ℕ) where
  open_roots-is_ok :
      (tick n : ℕ) (paths : List FilePath)
      → n ≡ 2 * length paths
      → is_ok (open_roots clock open_root deadline tick paths)
        ≡ before_deadline clock deadline tick n
  unfolding open_roots before_deadline
  open_roots-is_ok tick zero [] e = refl
  open_roots-is_ok tick (suc n) [] e = absurd (omega arith)
  open_roots-is_ok tick zero (path ∷ paths) e = absurd (omega arith)
  open_roots-is_ok tick (suc zero) (path ∷ paths) e = absurd (omega arith)
  open_roots-is_ok tick (suc (suc n)) (path ∷ paths) e =
      ground (arith, open_roots-is_ok (tick + 2) n paths (omega arith))

  open_roots-map :
      (tick : ℕ) (paths : List FilePath) {roots : List CapabilityRoot}
      → open_roots clock open_root deadline tick paths ≡ ok roots
      → roots ≡ map open_root paths
  unfolding open_roots
  open_roots-map tick [] h = ground arith
  open_roots-map tick (path ∷ paths) {roots} h =
      elim (Result-cases (open_roots clock open_root deadline (tick + 2) paths)) [
        | inr (e, failed) ↦ absurd (ground arith)
        | inl (rest, opened) ↦ ground (arith, open_roots-map (tick + 2) paths {roots = rest})
      ]

before_deadline-more :
    (clock : ℕ → ℕ) (deadline tick n : ℕ)
    → before_deadline clock deadline tick (suc n)
      ≡ before_deadline clock deadline tick n && ltb (clock (tick + n)) deadline
unfolding before_deadline
before_deadline-more clock deadline tick zero = ground arith
before_deadline-more clock deadline tick (suc n) =
    ground (arith, before_deadline-more clock deadline (tick + 1) n)

-- How often the clock is read before the lock: twice for each sorted path.
abbrev pub readings : List FilePath → ℕ
readings paths = 2 * length (sorted_paths paths)

-- A grant is issued exactly when the paths pass their checks, each of the readings of the clock, two
-- for each of the sorted paths and three more, is before the deadline, and after the grants expired
-- at the last but one of them are dropped there is room for one more.
pub issue_with_deadline_iff :
    (limits : RegistryLimits) (io : DropIo) (open_root : FilePath → CapabilityRoot)
    (paths : List FilePath) (deadline : ℕ) (m : Map DropGrant)
    → is_ok (issue_with_deadline limits io open_root paths deadline m).0
      ≡ is_ok (validate_paths io.is_absolute limits paths)
        && before_deadline io.clock deadline 0 (suc (suc (suc (readings paths))))
        && ltb
            (length (retain (λ grant. ltb (io.clock (readings paths + 1)) grant.expires_at) m))
            limits.max_grants
unfolding issue_with_deadline continue
issue_with_deadline_iff limits io open_root paths deadline m =
    let n = readings paths in
    ground (
      arith,
      open_roots-is_ok io.clock open_root deadline 0 n (sorted_paths paths) refl,
      before_deadline-more io.clock deadline 0 n,
      before_deadline-more io.clock deadline 0 (suc n),
      before_deadline-more io.clock deadline 0 (suc (suc n)),
    )

-- A grant that was issued under an id of a valid form is consumed, until its time to live after the
-- last reading of the clock is over, with the roots of the sorted paths.
pub issue_with_deadline-consume_at :
    (limits : RegistryLimits) (io : DropIo) (open_root : FilePath → CapabilityRoot)
    (paths : List FilePath) (deadline now : ℕ) (m : Map DropGrant) {grant_id : Text}
    → (issue_with_deadline limits io open_root paths deadline m).0 ≡ ok grant_id
    → valid_grant_id grant_id ≡ true
    → now < io.clock (readings paths + 2) + limits.ttl
    → (consume_at grant_id now (issue_with_deadline limits io open_root paths deadline m).1).0
      ≡ ok (record {
        expires_at = io.clock (readings paths + 2) + limits.ttl;
        roots = map open_root (sorted_paths paths);
      })
unfolding issue_with_deadline consume_at continue
issue_with_deadline-consume_at limits io open_root paths deadline now m {grant_id} h valid current =
    elim (Result-cases (open_roots io.clock open_root deadline 0 (sorted_paths paths))) [
      | inr (e, failed) ↦ absurd (ground arith)
      | inl (roots, opened) ↦
          let grants = retain (λ grant. ltb (io.clock (readings paths + 1)) grant.expires_at) m in
          ground (
            arith,
            open_roots-map io.clock open_root deadline 0 (sorted_paths paths) opened,
            get-insert (unique_id io.draws grants) grant_id
                (record { expires_at = io.clock (readings paths + 2) + limits.ttl; roots = roots })
                grants,
            text_eq_refl grant_id,
          )
    ]

-- The registry never holds more grants than its limit: neither method takes it over the limit,
-- whether it succeeds or fails.
pub drop_registry-bound :
    (limits : RegistryLimits) (io : DropIo) (open_root : FilePath → CapabilityRoot)
    (paths : List FilePath) (deadline now : ℕ) (grant_id : Text) (m : Map DropGrant)
    → length m ≤ limits.max_grants
    → (length (issue_with_deadline limits io open_root paths deadline m).1 ≤ limits.max_grants)
      × (length (consume_at grant_id now m).1 ≤ limits.max_grants)
unfolding issue_with_deadline consume_at continue
drop_registry-bound limits io open_root paths deadline now grant_id m le =
    let grants = retain (λ grant. ltb (io.clock (readings paths + 1)) grant.expires_at) m in
    (
      elim (Result-cases (open_roots io.clock open_root deadline 0 (sorted_paths paths))) [
        | inr (e, failed) ↦ ground arith
        | inl (roots, opened) ↦ ground (
          arith,
          length-retain (λ grant. ltb (io.clock (readings paths + 1)) grant.expires_at) m,
          length-insert (unique_id io.draws grants)
              (record { expires_at = io.clock (readings paths + 2) + limits.ttl; roots = roots })
              grants,
        )
      ],
      ground (arith, length-remove grant_id m),
    )
