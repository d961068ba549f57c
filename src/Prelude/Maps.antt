-- ===== src/Prelude/Maps.antt =====
-- `HashMap<String, V>`. The keys are unique, and no order of iteration is observed.
use Prim.Native.Nat.{suc, ◌≤◌}
use mathlib.Core.Path.{◌≡◌, refl, ap}
use mathlib.Core.Logic.{◌⊎◌, inl, inr}
use mathlib.Core.Bool.{Bool, true, false, not}
use mathlib.Core.Option.{Option, none, some}
use mathlib.Core.List.{List, [], ◌∷◌, foldl}
use native.Mathlib.Omega.{arith}
use aiknowledge_sort_mit.Prelude.Tests.{if◌then◌else◌, is_some, Bool-cases}
use aiknowledge_sort_mit.Prelude.Lists.{length, any, Mem}
use aiknowledge_sort_mit.Prelude.Texts.{Text, text_eq, text_eq→eq, eq→text_eq}

abbrev pub Map {ℓ} : Type ℓ → Type ℓ
Map V = List (Text × V)

module _ {ℓ} {V : Type ℓ} where
  unfoldable pub get : Text → Map V → Option V
  get k [] = none
  get k ((j, v) ∷ m) = if text_eq j k then some v else get k m

  unfoldable pub remove : Text → Map V → Map V
  remove k [] = []
  remove k ((j, v) ∷ m) = let rest = remove k m in if text_eq j k then rest else (j, v) ∷ rest

  unfoldable pub insert : Text → V → Map V → Map V
  unfolding remove
  insert k v m = (k, v) ∷ remove k m

  abbrev pub contains_key : Text → Map V → Bool
  contains_key k m = is_some (get k m)

  -- A key that fails the test goes whole: a HashMap holds it once.
  unfoldable pub retain : (V → Bool) → Map V → Map V
  unfolding remove
  retain p [] = []
  retain p ((j, v) ∷ m) = let rest = retain p m in if p v then (j, v) ∷ rest else remove j rest

  -- `get_mut` with a write.
  unfoldable pub update : Text → (V → V) → Map V → Map V
  update k f [] = []
  update k f ((j, v) ∷ m) =
      let rest = update k f m in if text_eq j k then (j, f v) ∷ rest else (j, v) ∷ rest

  -- `collect::<HashMap<_, _>>()`: of two entries with one key the later one stays.
  unfoldable pub from_list : List (Text × V) → Map V
  unfolding insert
  from_list = foldl (λ m e. insert e.0 e.1 m) []

  abbrev pub keep_if : (V → Bool) → Option V → Option V
  keep_if p none = none
  keep_if p (some v) = if p v then some v else none

  abbrev pub map_some : (V → V) → Option V → Option V
  map_some f none = none
  map_some f (some v) = some (f v)

module _ {ℓ} {V : Type ℓ} (k j : Text) where
  pub get-remove : (m : Map V) → get j (remove k m) ≡ (if text_eq k j then none else get j m)
  unfolding get remove
  get-remove [] = ground arith
  get-remove ((i, v) ∷ m) = ground (
    arith,
    get-remove m,
    text_eq→eq i k,
    text_eq→eq i j,
    text_eq→eq k j,
    eq→text_eq i k,
    eq→text_eq i j,
    eq→text_eq k j,
  )

  pub get-insert :
      (v : V) (m : Map V) → get j (insert k v m) ≡ (if text_eq k j then some v else get j m)
  unfolding get insert
  get-insert v m = ground (arith, get-remove m)

  pub get-update :
      (f : V → V) (m : Map V)
      → get j (update k f m) ≡ (if text_eq k j then map_some f (get j m) else get j m)
  unfolding get update
  get-update f [] = ground arith
  get-update f ((i, v) ∷ m) = ground (
    arith,
    get-update f m,
    text_eq→eq i k,
    text_eq→eq i j,
    text_eq→eq k j,
    eq→text_eq i k,
    eq→text_eq i j,
    eq→text_eq k j,
  )

module _ {ℓ} {V : Type ℓ} where
  pub get-retain : (p : V → Bool) (j : Text) (m : Map V) → get j (retain p m) ≡ keep_if p (get j m)
  unfolding get retain
  get-retain p j [] = refl
  get-retain p j ((i, v) ∷ m) =
      ground (arith, get-retain p j m, get-remove i j (retain p m), text_eq→eq i j, eq→text_eq i j)

  pub length-remove : (k : Text) (m : Map V) → length (remove k m) ≤ length m
  unfolding remove
  length-remove k [] = omega arith
  length-remove k ((i, v) ∷ m) = ground (arith, length-remove k m)

  pub length-insert : (k : Text) (v : V) (m : Map V) → length (insert k v m) ≤ suc (length m)
  unfolding insert
  length-insert k v m = ground (arith, length-remove k m)

  pub length-retain : (p : V → Bool) (m : Map V) → length (retain p m) ≤ length m
  unfolding retain
  length-retain p [] = omega arith
  length-retain p ((i, v) ∷ m) = ground (arith, length-retain p m, length-remove i (retain p m))

pub ruleset map_laws = (get-remove, get-insert, get-update, get-retain)

module _ {ℓ} {V : Type ℓ} where
  get-foldl-insert :
      (k : Text) (entries : List (Text × V)) (m : Map V) {v : V}
      → get k (foldl (λ (m : Map V) e. insert e.0 e.1 m) m entries) ≡ some v
      → Mem (k, v) entries ⊎ (get k m ≡ some v)
  get-foldl-insert k [] m h = inr h
  get-foldl-insert k ((j, w) ∷ entries) m {v} h =
      elim (get-foldl-insert k entries (insert j w m) h) [
        | inl later ↦ inl (inr later)
        | inr now ↦ elim (Bool-cases (text_eq j k)) [
          | inl hit ↦ inl (inl (ground (arith, get-insert j k w m, text_eq→eq j k)))
          | inr miss ↦ inr (ground (arith, get-insert j k w m))
        ]
      ]

  -- A map from entries has only those.
  pub get-from_list :
      (k : Text) (entries : List (Text × V)) {v : V}
      → get k (from_list entries) ≡ some v
      → Mem (k, v) entries
  unfolding from_list get
  get-from_list k entries h = elim (get-foldl-insert k entries [] h) [
    | inl e ↦ e
    | inr e ↦ absurd (ground arith)
  ]

  -- What all values of a map pass, the one found passes.
  pub any-get :
      (p : V → Bool) (k : Text) (m : Map V) {v : V}
      → any (λ entry. not (p entry.1)) m ≡ false
      → get k m ≡ some v
      → p v ≡ true
  unfolding any get
  any-get p k [] h e = absurd (ground arith)
  any-get p k ((j, w) ∷ m) {v} h e = ground (arith, any-get p k m {v = v}, ap p)
