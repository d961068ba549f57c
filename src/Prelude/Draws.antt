-- ===== src/Prelude/Draws.antt =====
-- The loop that draws new UUIDs until one is not a key of the map: `unique_proposal_id`,
-- `unique_grant_id` and `unique_batch_id` are this loop. `draws n` is the n-th UUID drawn. The fuel
-- is the number of entries.
pub mod Fresh
use aiknowledge_sort_mit.Prelude.Tests.{if◌then◌else◌, is_some, Bool-cases}
use aiknowledge_sort_mit.Prelude.Lists.{length}
use aiknowledge_sort_mit.Prelude.Texts.{Text, text_eq, text_eq→eq, eq→text_eq}
use aiknowledge_sort_mit.Prelude.Maps.{Map, get, remove, contains_key, get-remove, length-remove}
use Prim.Native.Nat.{ℕ, zero, suc, ◌≤◌, ◌<◌}
use mathlib.Core.Path.{◌≡◌, refl, ◌∙◌, sym}
use mathlib.Core.Logic.{inl, inr}
use mathlib.Core.Bool.{Bool, true, false}
use mathlib.Core.Option.{Option, none, some}
use mathlib.Core.List.{List, [], ◌∷◌}
use native.Mathlib.Omega.{arith}

module _ {ℓ} {V : Type ℓ} (draws : ℕ → Text) where
  unfoldable pub draw_from : ℕ → ℕ → Map V → Text
  draw_from zero i m = draws i
  draw_from (suc fuel) i m =
      let rest = draw_from fuel (suc i) m in if contains_key (draws i) m then rest else draws i

  unfoldable pub unique_id : Map V → Text
  unfolding draw_from
  unique_id m = draw_from (length m) 0 m

-- The UUIDs that version 4 gives are all different.
abbrev pub DrawsDiffer : (ℕ → Text) → Type 0
DrawsDiffer draws = (i j : ℕ) → draws i ≡ draws j → i ≡ j
