-- ===== src/Discovery/Limiter.antt =====
-- discovery/mod.rs: `DropWorkLimiter`. Threads share the counter `active`: a run is a sequence of
-- the atomic steps of its threads, in any interleaving.
pub mod Bound
use aiknowledge_sort_mit.Prelude.{
  ℕ, zero, suc, ◌-◌, ◌+◌, ◌%◌, ◌^◌, ◌==◌, Bool, true, false, List, [], ◌∷◌, leb, if◌then◌else◌,
}

abbrev pub max_blocking_drop_work : ℕ
max_blocking_drop_work = 4

-- Where a thread stands: outside, in the loop of `try_acquire` with the value it observed, holding
-- a permit, or refused by the limit.
pub data Thread : Type 0 where
  outside refused holding : Thread
  trying : ℕ → Thread

pub record Limiter : Type 0 where
  pub active : ℕ
  pub max_active : ℕ

-- A thread's next atomic step. `spurious` says whether `compare_exchange_weak` fails for no reason.
-- The counter is a `usize`: `fetch_sub` wraps around.
unfoldable pub advance : Bool → Limiter → Thread → Limiter × Thread
advance spurious l outside = (l, trying l.active)
advance spurious l refused = (l, refused)
advance spurious l (trying observed) =
    if leb l.max_active observed
    then (l, refused)
    else if spurious
    then (l, trying l.active)
    else if l.active == observed
    then (record l { active = observed + 1 }, holding)
    else (l, trying l.active)
advance spurious l holding = (record l { active = (l.active + 2 ^ 64 - 1) % 2 ^ 64 }, outside)

-- The thread with the number `n` advances.
unfoldable pub advance_at : Bool → ℕ → Limiter → List Thread → Limiter × List Thread
unfolding advance
advance_at spurious n l [] = (l, [])
advance_at spurious zero l (t ∷ ts) = ((advance spurious l t).0, (advance spurious l t).1 ∷ ts)
advance_at spurious (suc n) l (t ∷ ts) =
    ((advance_at spurious n l ts).0, t ∷ (advance_at spurious n l ts).1)

-- An interleaving: at each step the number of a thread, and whether its exchange fails spuriously.
unfoldable pub interleave : List (Bool × ℕ) → Limiter × List Thread → Limiter × List Thread
interleave [] s = s
interleave ((spurious, n) ∷ schedule) (l, ts) = interleave schedule (advance_at spurious n l ts)

abbrev pub is_holding : Thread → Bool
is_holding holding = true
is_holding _ = false
