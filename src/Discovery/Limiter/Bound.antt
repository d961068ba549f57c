-- ===== src/Discovery/Limiter/Bound.antt =====
-- discovery/mod.rs: the counter of `DropWorkLimiter` over the interleavings of its threads.
use aiknowledge_sort_mit.Prelude.{
  ℕ, zero, suc, ◌+◌, ◌^◌, ◌≤◌, ◌<◌, ◌≡◌, Bool, List, [], ◌∷◌, if◌then◌else◌, count_if, arith, refl,
}
use aiknowledge_sort_mit.Discovery.Limiter.{
  Thread, outside, refused, holding, trying, Limiter, advance, advance_at, interleave, is_holding,
}

-- The counter beside the permits of the threads looked at and of the `others`.
abbrev Counts : ℕ → Limiter → List Thread → Type 0
Counts others l ts =
    (l.active ≡ others + count_if is_holding ts)
    × (l.active ≤ l.max_active)
    × (l.max_active < 2 ^ 64)

advance-Counts :
    (spurious : Bool) (others : ℕ) (l : Limiter) (t : Thread) (ts : List Thread)
    → Counts others l (t ∷ ts)
    → Counts others (advance spurious l t).0 ((advance spurious l t).1 ∷ ts)
unfolding advance count_if
advance-Counts spurious others l outside ts h = h
advance-Counts spurious others l refused ts h = h
advance-Counts spurious others l (trying observed) ts h = ground arith
advance-Counts spurious others l holding ts h = ground arith

advance_at-Counts :
    (spurious : Bool) (n others : ℕ) (l : Limiter) (ts : List Thread)
    → Counts others l ts
    → Counts others (advance_at spurious n l ts).0 (advance_at spurious n l ts).1
unfolding advance_at count_if
advance_at-Counts spurious n others l [] h = h
advance_at-Counts spurious zero others l (t ∷ ts) h = advance-Counts spurious others l t ts h
advance_at-Counts spurious (suc n) others l (t ∷ ts) h =
    ground (arith, advance_at-Counts spurious n (others + (if is_holding t then 1 else 0)) l ts)

advance_at-max_active :
    (spurious : Bool) (n : ℕ) (l : Limiter) (ts : List Thread)
    → (advance_at spurious n l ts).0.max_active ≡ l.max_active
unfolding advance_at advance
advance_at-max_active spurious n l [] = refl
advance_at-max_active spurious zero l (outside ∷ ts) = refl
advance_at-max_active spurious zero l (refused ∷ ts) = refl
advance_at-max_active spurious zero l (trying observed ∷ ts) = ground arith
advance_at-max_active spurious zero l (holding ∷ ts) = refl
advance_at-max_active spurious (suc n) l (t ∷ ts) = advance_at-max_active spurious n l ts

-- Whatever the interleaving of the threads' atomic steps: from a counter that is the number of
-- permits held and within a limit that a `usize` holds, the counter stays the number of permits
-- held, and at most the limit.
pub interleave-bound :
    (schedule : List (Bool × ℕ)) (l : Limiter) (ts : List Thread)
    → l.active ≡ count_if is_holding ts
    → l.active ≤ l.max_active
    → l.max_active < 2 ^ 64
    → ((interleave schedule (l, ts)).0.active ≡ count_if is_holding (interleave schedule (l, ts)).1)
      × ((interleave schedule (l, ts)).0.active ≤ l.max_active)
unfolding interleave
interleave-bound [] l ts counted bounded fits = (counted, bounded)
interleave-bound ((spurious, n) ∷ schedule) l ts counted bounded fits =
    let (c, b, f) = advance_at-Counts spurious n 0 l ts (ground arith, bounded, fits) in
    let (c', b') =
      interleave-bound schedule (advance_at spurious n l ts).0 (advance_at spurious n l ts).1
        (ground arith) b f in
    (c', ground (arith, advance_at-max_active spurious n l ts))
