-- ===== src/Base/Outcomes.antt =====
-- What a run of C code comes to: a value, or one of the ways in which it comes to none.
use mathlib.Core.Path.{◌≡◌}

pub data Fault : Type 0 where
  -- an access outside an array, or a copy of a wrapped length
  out_of_bounds : Fault
  -- a call through a pointer that holds no function
  null_call : Fault
  -- a division by zero
  divide_error : Fault
  -- a busy wait that only an interrupt ends
  waits : Fault
  -- the fuel of the model ran out
  out_of_fuel : Fault

pub data Outcome {ℓ} (A : Type ℓ) : Type ℓ where
  done : A → Outcome A
  fault : Fault → Outcome A

infixl 5 ◌>>=◌
abbrev pub ◌>>=◌ {ℓ κ} : {A : Type ℓ} {B : Type κ} → Outcome A → (A → Outcome B) → Outcome B
done a >>= f = f a
fault e >>= f = fault e

-- Two outcomes of one run are one.
pub done-injective {ℓ} : {A : Type ℓ} (a b : A) → done a ≡ done b → a ≡ b
done-injective a b h = cc
