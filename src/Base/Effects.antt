-- ===== src/Base/Effects.antt =====
-- Methods that change a state and may throw. What was written before a throw stays written.
use mathlib.Core.Bool.{Bool}
use taxi_lab.Base.Tests.{if◌then◌else◌}
use taxi_lab.Base.Throwing.{Exception, Result, ok, throws}

abbrev pub Action {ℓ} : Type ℓ → Type ℓ → Type ℓ
Action S A = S → Result A × S

module _ {ℓ} {S A : Type ℓ} where
  abbrev pub pure : A → Action S A
  pure a s = (ok a, s)

  abbrev pub throw : Exception → Action S A
  throw e s = (throws e, s)

  abbrev pub lift : Result A → Action S A
  lift r s = (r, s)

module _ {ℓ} {S A B : Type ℓ} where
  abbrev pub proceed : Result A × S → (A → Action S B) → Result B × S
  proceed (ok a, s) f = f a s
  proceed (throws e, s) f = (throws e, s)

  infixl 5 ◌>>=◌ ◌>>◌
  abbrev pub ◌>>=◌ : Action S A → (A → Action S B) → Action S B
  ◌>>=◌ m f s = proceed (m s) f

  abbrev pub ◌>>◌ : Action S A → Action S B → Action S B
  ◌>>◌ m n s = proceed (m s) (λ _. n)

module _ {ℓ} {S A : Type ℓ} where
  abbrev pub recover : (Exception → Bool) → A → Result A × S → Result A × S
  recover caught a (ok b, s) = (ok b, s)
  recover caught a (throws e, s) = if caught e then (ok a, s) else (throws e, s)

  -- `try { m } catch (E) { return a; }` for the exceptions that `caught` names.
  abbrev pub try_catch : (Exception → Bool) → A → Action S A → Action S A
  try_catch caught a m s = recover caught a (m s)
