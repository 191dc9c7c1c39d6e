-- ===== src/Prelude/Exec.antt =====
-- Code that changes a state and may stop early. What was written before it stopped stays written.

use mathlib.Core.Path.{◌≡◌, refl, ap}
use mathlib.Core.Logic.{◌⊎◌, inl, inr}

-- Rust's `Result`
pub data Outcome {ℓ} (E A : Type ℓ) : Type ℓ where
  ok : A → Outcome E A
  err : E → Outcome E A

abbrev pub Exec {ℓ} : Type ℓ → Type ℓ → Type ℓ → Type ℓ
Exec S E A = S → Outcome E A × S

module _ {ℓ} {S E A : Type ℓ} where
  abbrev pub pure : A → Exec S E A
  pure a s = (ok a, s)

  abbrev pub raise : E → Exec S E A
  raise e s = (err e, s)

  abbrev pub lift : Outcome E A → Exec S E A
  lift r s = (r, s)

  abbrev pub gets : (S → A) → Exec S E A
  gets f s = (ok (f s), s)

  -- a change of the state that answers a value
  abbrev pub update : (S → A × S) → Exec S E A
  update f s = let (a, s') = f s in (ok a, s')

module _ {ℓ} {S E A B : Type ℓ} where
  abbrev pub continue : Outcome E A → (A → Exec S E B) → Exec S E B
  continue (ok a) f s = f a s
  continue (err e) f s = (err e, s)

  infixl 10 ◌>>=◌ ◌>>◌
  abbrev pub ◌>>=◌ : Exec S E A → (A → Exec S E B) → Exec S E B
  ◌>>=◌ m f s = let (r, s') = m s in continue r f s'

  abbrev pub ◌>>◌ : Exec S E A → Exec S E B → Exec S E B
  m >> n = m >>= λ _. n

  continue_ok :
      (r : Outcome E A) (f : A → Exec S E B) (s : S) (b : B)
      → (continue r f s).0 ≡ ok b
      → (a : A) × (r ≡ ok a) × (continue r f s ≡ f a s)
  continue_ok (ok a) f s b q = (a, refl, refl)
  continue_ok (err e) f s b q = cc

  -- Code that comes to a value has passed through its first part.
  pub bind_ok :
      (m : Exec S E A) (f : A → Exec S E B) (s : S) (b : B)
      → ((m >>= f) s).0 ≡ ok b
      → (a : A) × ((m s).0 ≡ ok a) × ((m >>= f) s ≡ f a (m s).1)
  bind_ok m f s b q = continue_ok (m s).0 f (m s).1 b q

module _ {S E A B : Type 0} where
  -- Code whose first part is known to come to a value goes on with it.
  pub bind_to :
      (m : Exec S E A) (f : A → Exec S E B) (s : S) (a : A) (s' : S)
      → m s ≡ (ok a, s')
      → (m >>= f) s ≡ f a s'
  bind_to m f s a s' e = ap (λ r. continue r.0 f r.1) e

-- The code keeps a property of the state, however it ends.
abbrev pub Keeps : {S E A : Type 0} → (S → Type 0) → Exec S E A → Type 0
Keeps {S = S} P m = (s : S) → P s → P (m s).1

module _ {S E A B : Type 0} (P : S → Type 0) where
  continue-Keeps :
      (r : Outcome E A) (f : A → Exec S E B) (s : S)
      → P s
      → ((a : A) → Keeps P (f a))
      → P (continue r f s).1
  continue-Keeps (ok a) f s h keeps = keeps a s h
  continue-Keeps (err e) f s h keeps = h

  pub bind-Keeps :
      (m : Exec S E A) (f : A → Exec S E B)
      → Keeps P m
      → ((a : A) → Keeps P (f a))
      → Keeps P (m >>= f)
  bind-Keeps m f first rest s h = continue-Keeps (m s).0 f (m s).1 (first s h) rest

module _ {ℓ} {E A : Type ℓ} where
  pub ok_inj : (r : Outcome E A) (v w : A) → r ≡ ok v → r ≡ ok w → v ≡ w
  ok_inj r v w p q = cc

  pub Outcome-cases : (r : Outcome E A) → ((a : A) × (r ≡ ok a)) ⊎ ((e : E) × (r ≡ err e))
  Outcome-cases (ok a) = inl (a, refl)
  Outcome-cases (err e) = inr (e, refl)
