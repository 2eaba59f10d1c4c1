-- ===== src/Prelude/Stateful.antt =====
-- Actions of a task on a state that it shares: they return, fail or panic, and what they have
-- changed stays changed.
pub mod Triples
use mathlib.Core.Path.{◌≡◌, refl}
use native.Mathlib.Omega.{arith}
use hammeregg.Prelude.Outcome.{Error, Result, ok, err, panic}

abbrev pub Stateful : Type 0 → Type 0 → Type 0
Stateful S A = S → Result A × S

module _ {S : Type 0} where
  abbrev pub continue : {A B : Type 0} → Result A → (A → Stateful S B) → Stateful S B
  continue (ok a) f s = f a s
  continue (err e) f s = (err e, s)
  continue panic f s = (panic, s)

  infixl 5 ◌>>=◌ ◌>>◌
  abbrev pub ◌>>=◌ : {A B : Type 0} → Stateful S A → (A → Stateful S B) → Stateful S B
  ◌>>=◌ m f s = let (r, t) = m s in continue r f t

  abbrev pub ◌>>◌ : {A B : Type 0} → Stateful S A → Stateful S B → Stateful S B
  m >> n = m >>= λ _. n

  abbrev pub pure : {A : Type 0} → A → Stateful S A
  pure a s = (ok a, s)

  abbrev pub lift : {A : Type 0} → Result A → Stateful S A
  lift r s = (r, s)

  abbrev pub raise : {A : Type 0} → Error → Stateful S A
  raise e s = (err e, s)

  abbrev pub gets : {A : Type 0} → (S → A) → Stateful S A
  gets f s = (ok (f s), s)

  abbrev pub modify : (S → S) → Stateful S (Unit {0})
  modify f s = (ok tt, f s)

  -- An action that begins with a result and succeeds has a result to go on with.
  pub lift_inv :
      {A B : Type 0} (r : Result A) (f : A → Stateful S B) (s : S) {b : B} {t : S}
      → (lift r >>= f) s ≡ (ok b, t)
      → (a : A) × (r ≡ ok a) × (f a s ≡ (ok b, t))
  lift_inv (ok a) f s h = (a, refl, h)
  lift_inv (err e) f s h = ground arith
  lift_inv panic f s h = ground arith
