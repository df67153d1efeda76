-- ===== src/Prelude/Effects.antt =====
-- Handlers of the services: state passing with JavaScript exceptions. A write that is made before an
-- exception stays made, so the state comes back on both ends.

use mathlib.Core.Path.{◌≡◌, refl}
use mathlib.Core.Bool.{Bool, true, false}
use finlytic_ecosystem.Prelude.Tests.{if◌then◌else◌}

pub data Result (E A : Type 0) : Type 0 where
  ok : A → Result E A
  err : E → Result E A

abbrev pub Eff : Type 0 → Type 0 → Type 0 → Type 0
Eff S E A = S → Result E A × S

module _ {S E A B : Type 0} where
  abbrev pub continue_with : (A → Eff S E B) → Result E A → S → Result E B × S
  continue_with f (ok a) s = f a s
  continue_with f (err e) s = (err e, s)

module _ {S E A B : Type 0} where
  infixl 5 ◌>>=◌
  abbrev pub ◌>>=◌ : Eff S E A → (A → Eff S E B) → Eff S E B
  ◌>>=◌ m f s = continue_with f (m s).0 (m s).1

module _ {S E B : Type 0} where
  infixl 5 ◌>>◌
  abbrev pub ◌>>◌ : Eff S E (Unit {0}) → Eff S E B → Eff S E B
  ◌>>◌ m k = m >>= λ _. k

module _ {S E A : Type 0} where
  abbrev pub pure : A → Eff S E A
  pure a s = (ok a, s)

  abbrev pub throw : E → Eff S E A
  throw e s = (err e, s)

module _ {S E A B : Type 0} where
  pub bind_ok :
      (m : Eff S E A) (f : A → Eff S E B) {s s' : S} {a : A}
      → m s ≡ (ok a, s')
      → (m >>= f) s ≡ f a s'
  bind_ok m f e = rw e

  pub bind_of_result :
      (m : Eff S E A) (f : A → Eff S E B) (s : S) {r : Result E A}
      → (m s).0 ≡ r
      → (m >>= f) s ≡ continue_with f r (m s).1
  bind_of_result m f s e = rw e

  pub bind_err :
      (m : Eff S E A) (f : A → Eff S E B) {s s' : S} {x : E}
      → m s ≡ (err x, s')
      → (m >>= f) s ≡ (err x, s')
  bind_err m f e = rw e

  -- Inversion of a successful bind, for proofs where the parts stay shut.
  pub bind-eq-ok :
      (m : Eff S E A) (f : A → Eff S E B) {s t : S} {b : B}
      → (m >>= f) s ≡ (ok b, t)
      → (a : A) × (s' : S) × (m s ≡ (ok a, s')) × (f a s' ≡ (ok b, t))
  bind-eq-ok m f {s} {t} {b} h = go (m s).0 (m s).1 refl h
    where
      go :
          (r : Result E A) (s' : S)
          → m s ≡ (r, s')
          → continue_with f r s' ≡ (ok b, t)
          → (a : A) × (s' : S) × (m s ≡ (ok a, s')) × (f a s' ≡ (ok b, t))
      go (ok a) s' e k = (a, s', e, k)
      go (err x) s' e k = cc

module _ {S E A : Type 0} (P : S → Type 0) where
  pub if_keeps :
      (b : Bool) (m n : Eff S E A) (s : S) → P (m s).1 → P (n s).1 → P ((if b then m else n) s).1
  if_keeps true m n s h k = h
  if_keeps false m n s h k = k

-- What a step and all that may follow it keep, the chain keeps.
module _ {S E A B : Type 0} (P : S → Type 0) where
  pub bind_keeps :
      (m : Eff S E A) (f : A → Eff S E B) (s : S)
      → P (m s).1
      → ((a : A) (t : S) → P t → P (f a t).1)
      → P ((m >>= f) s).1
  bind_keeps m f s kept later = go (m s).0
    where
      go : (r : Result E A) → P (continue_with f r (m s).1).1
      go (ok a) = later a (m s).1 kept
      go (err e) = kept
