-- ===== src/Prelude/Errors.antt =====
-- internal/platform/apperr: the sentinel errors, and computations that may fail with one.
--
-- An error is the sentinel that `errors.Is` finds in it, with the field of a ClientError and without
-- the message (a ClientError is `invalid`, and unwraps to `validation`). `internal` is any error that
-- wraps no sentinel.
use mathlib.Core.Path.{◌≡◌, refl}
use mathlib.Core.Logic.{◌⊎◌, inl, inr}
use Prim.Native.String.{String}

pub data Err : Type 0 where
  not_found conflict no_scope forbidden unauthorized version_conflict validation : Err
  unavailable internal : Err
  invalid : String → Err

-- A Go pair of a value and an error, of which one is nil.
pub data Result {ℓ} (V : Type ℓ) : Type ℓ where
  err : Err → Result V
  ok : V → Result V

pub Result-cases {ℓ} :
    {V : Type ℓ} (outcome : Result V)
    → ((v : V) × (outcome ≡ ok v)) ⊎ ((e : Err) × (outcome ≡ err e))
Result-cases (err e) = inr (e, refl)
Result-cases (ok v) = inl (v, refl)

module _ {ℓ κ} {V : Type ℓ} {W : Type κ} where
  -- `if err != nil { return err }` between two steps.
  infixl 5 ◌>>=◌
  abbrev pub ◌>>=◌ : Result V → (V → Result W) → Result W
  err e >>= next = err e
  ok v >>= next = next v

  -- Two steps went through when each did.
  pub >>=-eq-ok :
      (first : Result V) (next : V → Result W) {w : W}
      → (first >>= next) ≡ ok w
      → (v : V) × (first ≡ ok v) × (next v ≡ ok w)
  >>=-eq-ok (err e) next done = cc
  >>=-eq-ok (ok v) next done = (v, refl, done)
