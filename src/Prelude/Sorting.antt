-- ===== src/Prelude/Sorting.antt =====
-- `sort_by`: a stable sort, here by insertion, with what its clients need of it.
use Prim.Native.Nat.{suc}
use mathlib.Core.Path.{◌≡◌, refl}
use mathlib.Core.Logic.{inl, inr}
use mathlib.Core.Bool.{Bool, ◌||◌}
use mathlib.Core.List.{List, [], ◌∷◌, map}
use native.Mathlib.Omega.{arith}
use aiknowledge_sort_mit.Prelude.Tests.{if◌then◌else◌, Bool-cases}
use aiknowledge_sort_mit.Prelude.Lists.{length, count_if, All}
use aiknowledge_sort_mit.Prelude.Texts.{Text, text_eq, text_eq_sym, member, distinct}

module _ {ℓ} {A : Type ℓ} (le : A → A → Bool) where
  unfoldable pub insert_by : A → List A → List A
  insert_by a [] = a ∷ []
  insert_by a (x ∷ xs) = if le a x then a ∷ x ∷ xs else x ∷ insert_by a xs

  unfoldable pub sort_by : List A → List A
  unfolding insert_by
  sort_by [] = []
  sort_by (x ∷ xs) = insert_by x (sort_by xs)

module _ {ℓ} {A : Type ℓ} (le : A → A → Bool) where
  length-insert_by : (a : A) (xs : List A) → length (insert_by le a xs) ≡ suc (length xs)
  unfolding insert_by
  length-insert_by a [] = refl
  length-insert_by a (x ∷ xs) = ground (arith, length-insert_by a xs)

  pub length-sort_by : (xs : List A) → length (sort_by le xs) ≡ length xs
  unfolding sort_by
  length-sort_by [] = refl
  length-sort_by (x ∷ xs) = omega (arith, length-insert_by x (sort_by le xs), length-sort_by xs)

  module _ {κ} (P : A → Type κ) where
    insert_by-All : (a : A) (xs : List A) → P a → All P xs → All P (insert_by le a xs)
    unfolding insert_by
    insert_by-All a [] h hs = (h, tt)
    insert_by-All a (x ∷ xs) h hs = elim (Bool-cases (le a x)) [
      | inl first ↦ rw first (h, hs)
      | inr later ↦ rw later (hs.0, insert_by-All a xs h hs.1)
    ]

    pub sort_by-All : (xs : List A) → All P xs → All P (sort_by le xs)
    unfolding sort_by
    sort_by-All [] h = tt
    sort_by-All (x ∷ xs) h = insert_by-All x (sort_by le xs) h.0 (sort_by-All xs h.1)

  count_if-insert_by :
      (p : A → Bool) (a : A) (xs : List A) → count_if p (insert_by le a xs) ≡ count_if p (a ∷ xs)
  unfolding insert_by count_if
  count_if-insert_by p a [] = refl
  count_if-insert_by p a (x ∷ xs) = ground (arith, count_if-insert_by p a xs)

  pub count_if-sort_by : (p : A → Bool) (xs : List A) → count_if p (sort_by le xs) ≡ count_if p xs
  unfolding sort_by count_if
  count_if-sort_by p [] = refl
  count_if-sort_by p (x ∷ xs) =
      omega (arith, count_if-insert_by p x (sort_by le xs), count_if-sort_by p xs)

module _ {ℓ} {A : Type ℓ} (le : A → A → Bool) (f : A → Text) where
  member-insert_by :
      (t : Text) (a : A) (xs : List A)
      → member t (map f (insert_by le a xs)) ≡ (text_eq (f a) t || member t (map f xs))
  unfolding insert_by member
  member-insert_by t a [] = refl
  member-insert_by t a (x ∷ xs) = ground (arith, member-insert_by t a xs)

  distinct-insert_by :
      (a : A) (xs : List A) → distinct (map f (insert_by le a xs)) ≡ distinct (map f (a ∷ xs))
  unfolding insert_by distinct member
  distinct-insert_by a [] = refl
  distinct-insert_by a (x ∷ xs) =
      ground (arith, distinct-insert_by a xs, member-insert_by (f x) a xs, text_eq_sym (f a) (f x))

  member-sort_by : (t : Text) (xs : List A) → member t (map f (sort_by le xs)) ≡ member t (map f xs)
  unfolding sort_by member
  member-sort_by t [] = refl
  member-sort_by t (x ∷ xs) =
      ground (arith, member-sort_by t xs, member-insert_by t x (sort_by le xs))

  -- Sorting neither makes nor removes repetitions.
  pub distinct-sort_by : (xs : List A) → distinct (map f (sort_by le xs)) ≡ distinct (map f xs)
  unfolding sort_by distinct
  distinct-sort_by [] = refl
  distinct-sort_by (x ∷ xs) =
      ground
        (arith, distinct-sort_by xs, member-sort_by (f x) xs, distinct-insert_by x (sort_by le xs))
