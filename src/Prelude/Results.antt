-- ===== src/Prelude/Results.antt =====
-- Rust's `Result<T, E>`: `do` blocks read the `?` operator as bind.
use mathlib.Core.Path.{◌≡◌, refl}
use mathlib.Core.Bool.{Bool, true, false}
use mathlib.Core.Logic.{◌⊎◌, inl, inr}

pub data Result {ℓ μ} (E : Type μ) (T : Type ℓ) : Type (ℓ ⊔ μ) where
  ok : T → Result E T
  err : E → Result E T

module _ {μ} {E : Type μ} where
  -- `if bad { return Err(e); }`
  abbrev pub reject : Bool → E → Result E (Unit {0})
  reject true e = err e
  reject false e = ok tt

  infixl 5 ◌>>=◌ ◌>>◌
  abbrev pub ◌>>=◌ {ℓ ℓ'} : {T : Type ℓ} {U : Type ℓ'} → Result E T → (T → Result E U) → Result E U
  err e >>= next = err e
  ok t >>= next = next t

  abbrev pub ◌>>◌ {ℓ} : {U : Type ℓ} → Result E (Unit {0}) → Result E U → Result E U
  checked >> next = checked >>= λ _. next

  -- To split on a result and keep the equation.
  pub Result-cases {ℓ} :
      {T : Type ℓ} (r : Result E T) → ((t : T) × (r ≡ ok t)) ⊎ ((e : E) × (r ≡ err e))
  Result-cases (ok t) = inl (t, refl)
  Result-cases (err e) = inr (e, refl)
