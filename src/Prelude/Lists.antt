-- ===== src/Prelude/Lists.antt =====
-- Lists measured by native numbers, and predicates and tests over lists.
use Prim.Native.Nat.{ℕ, zero, suc, ◌+◌, ◌<◌}
use mathlib.Core.Path.{◌≡◌, refl, ap, subst}
use mathlib.Core.Logic.{◌⊎◌, inl, inr, Lift}
use mathlib.Core.Bool.{Bool, true, false, not, ◌&&◌, ◌||◌}
use mathlib.Core.Option.{Option, none, some}
use mathlib.Core.List.{List, [], ◌∷◌, ◌++◌}
use native.Mathlib.Omega.{arith}
use aiknowledge_sort_mit.Prelude.Tests.{if◌then◌else◌, Bool-cases, is_some}

module _ {ℓ} {A : Type ℓ} where
  abbrev pub length : List A → ℕ
  length [] = 0
  length (_ ∷ xs) = suc (length xs)

  abbrev pub is_empty : List A → Bool
  is_empty [] = true
  is_empty (_ ∷ _) = false

  abbrev pub take : ℕ → List A → List A
  take zero xs = []
  take (suc n) [] = []
  take (suc n) (x ∷ xs) = x ∷ take n xs

  -- `iter().all(p)` and `iter().any(p)`.
  unfoldable pub all : (A → Bool) → List A → Bool
  all p [] = true
  all p (x ∷ xs) = p x && all p xs

  unfoldable pub any : (A → Bool) → List A → Bool
  any p [] = false
  any p (x ∷ xs) = p x || any p xs

  -- `iter().find(p)`.
  unfoldable pub find : (A → Bool) → List A → Option A
  find p [] = none
  find p (x ∷ xs) = if p x then some x else find p xs

  -- How many elements pass a test.
  unfoldable pub count_if : (A → Bool) → List A → ℕ
  count_if p [] = 0
  count_if p (x ∷ xs) = (if p x then 1 else 0) + count_if p xs

  -- `Vec::dedup`: of equal neighbours the first stays.
  unfoldable pub dedup_after : (A → A → Bool) → A → List A → List A
  dedup_after eq last [] = []
  dedup_after eq last (x ∷ xs) =
      let skip = dedup_after eq last xs in
      let keep = dedup_after eq x xs in if eq last x then skip else x ∷ keep

  unfoldable pub dedup : (A → A → Bool) → List A → List A
  unfolding dedup_after
  dedup eq [] = []
  dedup eq (x ∷ xs) = x ∷ dedup_after eq x xs

  -- A set of the elements is as large as the list.
  unfoldable pub distinct_by : (A → A → Bool) → List A → Bool
  unfolding any
  distinct_by eq [] = true
  distinct_by eq (x ∷ xs) = not (any (eq x) xs) && distinct_by eq xs

  abbrev pub All {κ} : (A → Type κ) → List A → Type κ
  All P [] = Unit
  All P (x ∷ xs) = P x × All P xs

-- An element of a list.
abbrev pub Mem {ℓ} : {A : Type ℓ} → A → List A → Type ℓ
Mem a [] = Lift ⊥
Mem a (x ∷ xs) = (x ≡ a) ⊎ Mem a xs

module _ {ℓ} {A : Type ℓ} where
  -- What `find` returns passed the test.
  pub find_sound : (p : A → Bool) (xs : List A) {a : A} → find p xs ≡ some a → p a ≡ true
  unfolding find
  find_sound p [] h = absurd (ground arith)
  find_sound p (x ∷ xs) {a} h = ground (arith, find_sound p xs {a = a}, ap p)

  -- What holds of every element holds of the one found.
  pub find-All {κ} :
      (P : A → Type κ) (p : A → Bool) (xs : List A) {a : A} → All P xs → find p xs ≡ some a → P a
  unfolding find
  find-All P p [] hs h = absurd (ground arith)
  find-All P p (x ∷ xs) {a} hs h = elim (Bool-cases (p x)) [
    | inl hit ↦ subst P (ground arith) hs.0
    | inr miss ↦ find-All P p xs hs.1 (ground arith)
  ]

  pub All-imp {κ μ} :
      {P : A → Type κ} {Q : A → Type μ} (xs : List A) → ((a : A) → P a → Q a) → All P xs → All Q xs
  All-imp [] f h = tt
  All-imp (x ∷ xs) f h = (f x h.0, All-imp xs f h.1)

  pub All-append {κ} : (P : A → Type κ) (xs ys : List A) → All P xs → All P ys → All P (xs ++ ys)
  All-append P [] ys h k = k
  All-append P (x ∷ xs) ys h k = (h.0, All-append P xs ys h.1 k)

  pub count_if-append :
      (p : A → Bool) (xs ys : List A) → count_if p (xs ++ ys) ≡ count_if p xs + count_if p ys
  unfolding count_if
  count_if-append p [] ys = omega arith
  count_if-append p (x ∷ xs) ys = omega (arith, count_if-append p xs ys)

  pub find-count_if : (p : A → Bool) (xs : List A) → is_some (find p xs) ≡ true → 0 < count_if p xs
  unfolding find count_if
  find-count_if p [] h = cc
  find-count_if p (x ∷ xs) h = ground (arith, find-count_if p xs)

module _ {ℓ κ} {A : Type ℓ} (P : A → Type κ) (eq : A → A → Bool) where
  dedup_after-All : (last : A) (xs : List A) → All P xs → All P (dedup_after eq last xs)
  unfolding dedup_after
  dedup_after-All last [] h = tt
  dedup_after-All last (x ∷ xs) h = elim (Bool-cases (eq last x)) [
    | inl same ↦ rw same (dedup_after-All last xs h.1)
    | inr new ↦ rw new (h.0, dedup_after-All x xs h.1)
  ]

  pub dedup-All : (xs : List A) → All P xs → All P (dedup eq xs)
  unfolding dedup
  dedup-All [] h = tt
  dedup-All (x ∷ xs) h = (h.0, dedup_after-All x xs h.1)

module _ {ℓ} {A : Type ℓ} where
  pub is_some-find : (p : A → Bool) (xs : List A) → is_some (find p xs) ≡ any p xs
  unfolding find any
  is_some-find p [] = refl
  is_some-find p (x ∷ xs) = ground (arith, is_some-find p xs)

  -- What `find` returns is in the list.
  pub any-find :
      (p q : A → Bool) (xs : List A) {a : A} → find p xs ≡ some a → q a ≡ true → any q xs ≡ true
  unfolding find any
  any-find p q [] h e = absurd (ground arith)
  any-find p q (x ∷ xs) {a} h e = ground (arith, any-find p q xs {a = a}, ap q)
