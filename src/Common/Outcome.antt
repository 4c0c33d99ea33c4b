-- ===== src/Common/Outcome.antt =====
-- Exceptions as values. A method of a service takes the state of everything that it may touch and
-- returns the state that it leaves, beside its result or the exception that it throws.
use Prim.Native.Nat.{ℕ}
use Prim.Native.String.{String}
use mathlib.Core.Path.{◌≡◌, refl}
use mathlib.Core.Logic.{◌⊎◌, inl, inr}

pub data Exception : Type 0 where
  -- an `HttpException` with its status and its error code or message
  http : ℕ → String → Exception
  -- anything else, with its message
  fault : String → Exception

pub data Outcome {ℓ} (A : Type ℓ) : Type ℓ where
  ok : A → Outcome A
  throws : Exception → Outcome A

-- `void`
abbrev pub Done : Type 0
Done = Unit {0}

-- An `async` method over a state `W`.
abbrev pub Action {ℓ} : Type ℓ → Type ℓ → Type ℓ
Action W A = W → Outcome A × W

module _ {ℓ} {W A : Type ℓ} where
  abbrev pub pure : A → Action W A
  pure a w = (ok a, w)

  abbrev pub throw : Exception → Action W A
  throw e w = (throws e, w)

  abbrev pub gets : (W → A) → Action W A
  gets f w = (ok (f w), w)

module _ {ℓ} {W A B : Type ℓ} where
  abbrev pub proceed : Outcome A → (A → Action W B) → Action W B
  proceed (ok a) f w = f a w
  proceed (throws e) f w = (throws e, w)

  infixl 10 ◌>>=◌ ◌>>◌
  abbrev pub ◌>>=◌ : Action W A → (A → Action W B) → Action W B
  ◌>>=◌ m f w = proceed (m w).0 f (m w).1

  abbrev pub ◌>>◌ : Action W A → Action W B → Action W B
  m >> n = m >>= λ _. n

pub Outcome-cases {ℓ} :
    {A : Type ℓ} (r : Outcome A) → ((a : A) × (r ≡ ok a)) ⊎ ((e : Exception) × (r ≡ throws e))
Outcome-cases (ok a) = inl (a, refl)
Outcome-cases (throws e) = inr (e, refl)
