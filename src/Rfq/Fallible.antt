-- ===== src/Rfq/Fallible.antt =====
-- Code that may throw, as a result: the `await`s and calls of bifrostd/src/rfq and sdk/src.
use bitfrost.Base.{◌≡◌, refl, arith, String, Bool, true, false, Option, none, some}
use bitfrost.Sdk.Types.{ErrorCode, Thrown, bifrost}
use bitfrost.Orders.Ports.{Result, ok, err}

module _ {A B : Type 0} where
  infixl 5 ◌>>=◌
  unfoldable pub ◌>>=◌ : Result A → (A → Result B) → Result B
  ok a >>= f = f a
  err e >>= f = err e

module _ {A : Type 0} where
  infixl 5 ◌>>◌
  abbrev pub ◌>>◌ : Result (Unit {0}) → Result A → Result A
  m >> k = m >>= λ _. k

  abbrev pub attempt : Option A → Thrown → Result A
  attempt none e = err e
  attempt (some a) e = ok a

  -- `throw new BifrostError(code, message, retryable)`.
  abbrev pub refuse : ErrorCode → String → Bool → Result A
  refuse code message retryable =
      err (bifrost (record { code = code; message = message; hint = none; retryable = retryable }))

abbrev pub when : Bool → Result (Unit {0}) → Result (Unit {0})
when true r = r
when false r = ok tt

-- What a step that went through was given.
pub passed :
    {A B : Type 0} (r : Result A) (f : A → Result B) {b : B}
    → (r >>= f) ≡ ok b
    → (a : A) × (r ≡ ok a) × (f a ≡ ok b)
unfolding ◌>>=◌
passed (ok a) f h = (a, refl, h)
passed (err e) f h = absurd (cc (h))

pub attempted : {A : Type 0} (o : Option A) (e : Thrown) {a : A} → attempt o e ≡ ok a → o ≡ some a
attempted none e h = absurd (cc (h))
attempted (some b) e h = ground (arith, h)
