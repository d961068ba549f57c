-- ===== src/Prelude/Execs.antt =====
-- Methods that change a state and may fail. What was written before an error stays written, so the
-- state comes back beside the error too.
use mathlib.Core.Path.{◌≡◌, refl}
use mathlib.Core.Bool.{Bool, true, false}
use aiknowledge_sort_mit.Prelude.Tests.{if◌then◌else◌}
use aiknowledge_sort_mit.Prelude.Results.{Result, ok, err}

abbrev pub Exec {ℓ} : Type ℓ → Type ℓ → Type ℓ → Type ℓ
Exec S E A = S → Result E A × S

module _ {ℓ} {S E A : Type ℓ} where
  abbrev pub pure : A → Exec S E A
  pure a s = (ok a, s)

  abbrev pub lift : Result E A → Exec S E A
  lift r s = (r, s)

  abbrev pub gets : (S → A) → Exec S E A
  gets f s = (ok (f s), s)

abbrev pub modify {ℓ} : {S E : Type ℓ} → (S → S) → Exec S E (Unit {ℓ})
modify f s = (ok tt, f s)

module _ {ℓ} {S E A B : Type ℓ} where
  unfoldable pub continue : Result E A → (A → Exec S E B) → Exec S E B
  continue (ok a) f s = f a s
  continue (err e) f s = (err e, s)

  infixl 5 ◌>>=◌ ◌>>◌
  abbrev pub ◌>>=◌ : Exec S E A → (A → Exec S E B) → Exec S E B
  ◌>>=◌ m f s = continue (m s).0 f (m s).1

  abbrev pub ◌>>◌ : Exec S E A → Exec S E B → Exec S E B
  m >> n = m >>= λ _. n

abbrev pub caught {ℓ} : {S E F A : Type ℓ} → (E → F) → Result E A → S → Result F A × S
caught f (ok a) s = (ok a, s)
caught f (err e) s = (err (f e), s)

-- `map_err(f)?`.
abbrev pub catch {ℓ} : {S E F A : Type ℓ} → (E → F) → Exec S E A → Exec S F A
catch f m s = caught f (m s).0 (m s).1

module _ {ℓ} {S E A B : Type ℓ} where
  -- Inversion of a successful chain.
  pub continue-eq-ok :
      (r : Result E A) (k : A → Exec S E B) (s : S) {b : B}
      → (continue r k s).0 ≡ ok b
      → (a : A) × (r ≡ ok a) × ((k a s).0 ≡ ok b)
  unfolding continue
  continue-eq-ok (ok a) k s h = (a, refl, h)
  continue-eq-ok (err e) k s h = cc

-- What an action keeps true of the state, whether it succeeds or fails.
abbrev pub Keeps {ℓ κ} : {S E A : Type ℓ} → (S → Type κ) → Exec S E A → Type (ℓ ⊔ κ)
Keeps {S = S} I m = (s : S) → I s → I (m s).1

module _ {ℓ κ} {S E A : Type ℓ} (I : S → Type κ) where
  continue-Keeps :
      {B : Type ℓ} (r : Result E A) (k : A → Exec S E B) (s : S)
      → I s
      → ((a : A) → Keeps I (k a))
      → I (continue r k s).1
  unfolding continue
  continue-Keeps (ok a) k s h g = g a s h
  continue-Keeps (err e) k s h g = h

  pub Keeps->>= :
      {B : Type ℓ} (m : Exec S E A) (k : A → Exec S E B)
      → Keeps I m
      → ((a : A) → Keeps I (k a))
      → Keeps I (m >>= k)
  Keeps->>= m k h g s i = continue-Keeps (m s).0 k (m s).1 (h s i) g

  pub Keeps-if :
      (b : Bool) (m n : Exec S E A) → Keeps I m → Keeps I n → Keeps I (if b then m else n)
  Keeps-if true m n h k = h
  Keeps-if false m n h k = k

  caught-Keeps : {F : Type ℓ} (g : E → F) (r : Result E A) (s : S) → I s → I (caught g r s).1
  caught-Keeps g (ok a) s i = i
  caught-Keeps g (err e) s i = i

  pub Keeps-catch : {F : Type ℓ} (g : E → F) (m : Exec S E A) → Keeps I m → Keeps I (catch g m)
  Keeps-catch g m h s i = caught-Keeps g (m s).0 (m s).1 (h s i)
