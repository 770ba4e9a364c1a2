-- ===== src/Base/Tests.antt =====
-- Boolean tests on the native numbers, and the conditional.
use Prim.Native.Nat.{ℕ, zero, suc, ◌<◌, compare, Ordering}
use mathlib.Core.Path.{◌≡◌, refl}
use mathlib.Core.Logic.{◌↔◌, ◌⊎◌, inl, inr}
use mathlib.Core.Bool.{Bool, true, false}
use native.Mathlib.Omega.{arith}

abbrev pub ltb : ℕ → ℕ → Bool
ltb a b = elim (compare a b) [ Ordering.lt ↦ true | _ ↦ false ]

abbrev pub leb : ℕ → ℕ → Bool
leb a b = elim (compare a b) [ Ordering.gt ↦ false | _ ↦ true ]

infix 50 ◌==◌
abbrev pub ◌==◌ : ℕ → ℕ → Bool
a == b = elim (compare a b) [ Ordering.eq ↦ true | _ ↦ false ]

infix 1 if◌then◌else◌
abbrev pub if◌then◌else◌ {ℓ} : {A : Type ℓ} → Bool → A → A → A
if true then x else y = x
if false then x else y = y

-- C's test of an integer: anything but 0 is true.
abbrev pub nonzero : ℕ → Bool
nonzero zero = false
nonzero (suc n) = true

pub ==_iff : (a b : ℕ) → ((a == b) ≡ true) ↔ (a ≡ b)
==_iff a b = ground arith

pub Bool-cases : (b : Bool) → (b ≡ true) ⊎ (b ≡ false)
Bool-cases true = inl refl
Bool-cases false = inr refl

-- A test of every number below a bound, by evaluation.
unfoldable pub holds_below : (bound : ℕ) → (test : ℕ → Bool) → Bool
holds_below zero test = true
holds_below (suc bound) test =
    let rest = holds_below bound test in if test bound then rest else false

pub holds_below_at :
    (bound : ℕ) (test : ℕ → Bool) (i : ℕ)
    → holds_below bound test ≡ true
    → i < bound
    → test i ≡ true
unfolding holds_below
holds_below_at zero test i held small = absurd (omega arith)
holds_below_at (suc bound) test i held small = ground (arith, holds_below_at bound test i)
