-- ===== src/Common/Result.antt =====
-- What a fallible function returns, for `do` blocks.
use mathlib.Core.Path.{◌≡◌, refl}
use mathlib.Core.Logic.{◌⊎◌, inl, inr}

pub data Result {ℓ} (Fault Value : Type ℓ) : Type ℓ where
  err : Fault → Result Fault Value
  ok : Value → Result Fault Value

module _ {ℓ} {Fault : Type ℓ} where
  infixl 5 ◌>>=◌
  -- Rust's `?`, and `Result::and_then`.
  abbrev pub ◌>>=◌ :
      {Value Next : Type ℓ} → Result Fault Value → (Value → Result Fault Next) → Result Fault Next
  err fault >>= next = err fault
  ok value >>= next = next value

  -- `Result::map_err`.
  abbrev pub map_err :
      {Other Value : Type ℓ} → (Fault → Other) → Result Fault Value → Result Other Value
  map_err convert (err fault) = err (convert fault)
  map_err convert (ok value) = ok value

  pub Result-cases :
      {Value : Type ℓ} (r : Result Fault Value)
      → ((e : Fault) × (r ≡ err e)) ⊎ ((v : Value) × (r ≡ ok v))
  Result-cases (err e) = inl (e, refl)
  Result-cases (ok v) = inr (v, refl)
