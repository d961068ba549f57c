-- ===== src/Prelude/Draws/Fresh.antt =====
-- The key that the loop of draws ends with.
use aiknowledge_sort_mit.Prelude.Tests.{Bool-cases}
use aiknowledge_sort_mit.Prelude.Lists.{length}
use aiknowledge_sort_mit.Prelude.Texts.{Text, text_eq→eq}
use aiknowledge_sort_mit.Prelude.Maps.{Map, get, remove, contains_key, get-remove, length-remove}
use aiknowledge_sort_mit.Prelude.Draws.{draw_from, unique_id, DrawsDiffer}
use Prim.Native.Nat.{ℕ, zero, suc, ◌≤◌, ◌<◌}
use mathlib.Core.Path.{◌≡◌, refl}
use mathlib.Core.Logic.{inl, inr}
use mathlib.Core.Bool.{true}
use mathlib.Core.Option.{none}
use mathlib.Core.List.{[], ◌∷◌}
use native.Mathlib.Omega.{arith}

module _ {ℓ} {V : Type ℓ} where
  length-remove-present :
      (k : Text) (m : Map V) → contains_key k m ≡ true → suc (length (remove k m)) ≤ length m
  unfolding get remove
  length-remove-present k [] h = absurd (ground arith)
  length-remove-present k ((j, v) ∷ m) h =
      ground (arith, length-remove-present k m, length-remove k m)

module _ {ℓ} {V : Type ℓ} (draws : ℕ → Text) where
  -- The result is one of the draws from the `i`-th on.
  draw_from-draw :
      (fuel i : ℕ) (m : Map V) → (j : ℕ) × (i ≤ j) × (draw_from draws fuel i m ≡ draws j)
  unfolding draw_from
  draw_from-draw zero i m = (i, omega arith, refl)
  draw_from-draw (suc fuel) i m = elim (Bool-cases (contains_key (draws i) m)) [
    | inl taken ↦ let (j, le, eq) = draw_from-draw fuel (suc i) m in (j, omega arith, rw taken eq)
    | inr new ↦ (i, omega arith, rw new refl)
  ]

  module _ (differ : DrawsDiffer draws) where
    get-later : (h i : ℕ) (m : Map V) → h < i → get (draws i) (remove (draws h) m) ≡ get (draws i) m
    get-later h i m lt =
        ground (arith, get-remove (draws h) (draws i) m, text_eq→eq (draws h) (draws i), differ h i)

    -- A key that is drawn no more plays no part.
    draw_from-remove :
        (fuel h i : ℕ) (m : Map V)
        → h < i
        → draw_from draws fuel i (remove (draws h) m) ≡ draw_from draws fuel i m
    unfolding draw_from
    draw_from-remove zero h i m lt = refl
    draw_from-remove (suc fuel) h i m lt =
        ground (arith, get-later h i m lt, draw_from-remove fuel h (suc i) m (omega arith))

    draw_from-new :
        (fuel i : ℕ) (m : Map V) → length m ≤ fuel → get (draw_from draws fuel i m) m ≡ none
    unfolding draw_from get
    draw_from-new zero i [] le = refl
    draw_from-new zero i (e ∷ m) le = absurd (omega arith)
    draw_from-new (suc fuel) i m le = elim (Bool-cases (contains_key (draws i) m)) [
      | inr new ↦ ground arith
      | inl taken ↦
          let shrinks = length-remove-present (draws i) m taken in
          let less = draw_from-new fuel (suc i) (remove (draws i) m) (omega arith) in
          let same = draw_from-remove fuel i (suc i) m (omega arith) in
          let (j, later, eq) = draw_from-draw fuel (suc i) m in
          ground (arith, less, same, get-later i j m, differ i j)
    ]

    -- When the draws differ, the loop ends with a key that the map does not have.
    pub unique_id-new : (m : Map V) → get (unique_id draws m) m ≡ none
    unfolding unique_id
    unique_id-new m = draw_from-new (length m) 0 m (omega arith)
