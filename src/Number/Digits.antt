-- ===== src/Number/Digits.antt =====
-- Numerals: the digits of a number that `itoa` of student-distrib/lib.c writes, and their value.
use mathlib.Core.List.{reverse, reverse-cons}
use mathlib.Core.Path.{ap₂}
use native.Mathlib.Nat.{mod-lt, div-add-mod}
use native.Mathlib.Decide.{ℕ_discrete}
use octave_os.Base.{
  ℕ, zero, suc, ◌+◌, ◌-◌, ◌*◌, ◌/◌, ◌%◌, ◌^◌, ◌<◌, ◌≤◌, ◌≡◌, ◌≢◌, refl, ◌∙◌, ap, arith, List, [],
  ◌∷◌, ◌++◌, length, length-append, Bool, true, false, ltb, ◌==◌, ◌&&◌, ◌||◌, if◌then◌else◌,
  holds_below, holds_below_at, Bool-cases, inl, inr, not,
}
use octave_os.Number.{digit, itoa_fuel}

-- The value of a digit's character, and of a numeral, its first digit first.
abbrev pub digit_value : ℕ → ℕ
digit_value c = if ltb c b'A' then c - b'0' else c - (b'A' - 10)

unfoldable pub number_from : (radix acc : ℕ) → List ℕ → ℕ
number_from r acc [] = acc
number_from r acc (c ∷ cs) = number_from r (acc * r + digit_value c) cs

abbrev pub number : (radix : ℕ) → List ℕ → ℕ
number r cs = number_from r 0 cs

-- The digits of a number, the lowest first, `n` of them at most.
unfoldable pub digits : (n radix value : ℕ) → List ℕ
digits zero r v = []
digits (suc n) r v = let rest = digits n r (v / r) in if v == 0 then [] else digit (v % r) ∷ rest

-- The numeral of a number with at most `n` digits.
unfoldable pub numeral_with : (n radix value : ℕ) → List ℕ
unfolding digits
numeral_with n r v = if v == 0 then b'0' ∷ [] else reverse (digits n r v)

-- The numeral of a number below 2 ^ 32 to a radix of at least 2.
unfoldable pub numeral : (radix value : ℕ) → List ℕ
numeral r v = numeral_with itoa_fuel r v

-- Each digit up to 35 stands for itself and is not the NUL.
abbrev is_digit : ℕ → Bool
is_digit d =
    (digit_value (digit d) == d) && not (digit d == 0) && (not (digit d == b'0') || (d == 0))

digits_table : holds_below 36 is_digit ≡ true
unfolding holds_below digit
digits_table = refl

pub digit_lem :
    (d : ℕ) → d < 36 → (digit_value (digit d) ≡ d) × (digit d ≢ 0) × (digit d ≡ b'0' → d ≡ 0)
digit_lem d small =
    let h = holds_below_at 36 is_digit d digits_table small in
    (ground arith, ground arith, ground arith)

number_from-append :
    (r acc : ℕ) (xs ys : List ℕ)
    → number_from r acc (xs ++ ys) ≡ number_from r (number_from r acc xs) ys
unfolding number_from
number_from-append r acc [] ys = refl
number_from-append r acc (c ∷ cs) ys = number_from-append r (acc * r + digit_value c) cs ys

-- A division by a radix of at least 2 at least halves.
pub halves : (v r p : ℕ) → 2 ≤ r → v < 2 * p → v / r < p
halves v r p hr h = grind (arith, div-add-mod v r)

number-digits : (n r v : ℕ) → 2 ≤ r → r ≤ 36 → v < 2 ^ n → number r (reverse (digits n r v)) ≡ v
unfolding digits number_from
number-digits zero r v lo hi small = omega arith
number-digits (suc n) r v lo hi small = elim (Bool-cases (v == 0)) [
  | inl e ↦ rw e (ground arith)
  | inr ne ↦
      let small' : v / r < 2 ^ n = halves v r (2 ^ n) lo (omega arith) in
      let ih = number-digits n r (v / r) lo hi small' in
      let d = digit_lem (v % r) (omega (arith, mod-lt v {m = r} (omega arith))) in
      rw ne (
        ap (number r) (reverse-cons (digit (v % r)) (digits n r (v / r)))
        ∙ number_from-append r 0 (reverse (digits n r (v / r))) (digit (v % r) ∷ [])
        ∙ ap₂ (λ m e. m * r + e) ih d.0
        ∙ grind (arith, div-add-mod v r))
]

pub length-digits : (f r v n : ℕ) → 2 ≤ r → v < 2 ^ n → length (digits f r v) ≤ n
unfolding digits
length-digits zero r v n lo small = omega arith
length-digits (suc f) r v zero lo small = let e : v ≡ 0 = omega arith in rw e (omega arith)
length-digits (suc f) r v (suc n) lo small = elim (Bool-cases (v == 0)) [
  | inl e ↦ rw e (omega arith)
  | inr ne ↦
      rw ne (omega (arith, length-digits f r (v / r) n lo (halves v r (2 ^ n) lo (omega arith))))
]

-- A number of at most `n` digits to the base 16.
length-digits_hex : (f v n : ℕ) → v < 16 ^ n → length (digits f 16 v) ≤ n
unfolding digits
length-digits_hex zero v n small = omega arith
length-digits_hex (suc f) v zero small = let e : v ≡ 0 = omega arith in rw e (omega arith)
length-digits_hex (suc f) v (suc n) small = elim (Bool-cases (v == 0)) [
  | inl e ↦ rw e (omega arith)
  | inr ne ↦
      let less : v / 16 < 16 ^ n = grind (arith, div-add-mod v 16) in
      rw ne (omega (arith, length-digits_hex f (v / 16) n less))
]

pub length-reverse : (cs : List ℕ) → length (reverse cs) ≡ length cs
length-reverse [] = refl
length-reverse (c ∷ cs) =
    ap length (reverse-cons c cs)
    ∙ omega (arith, length-append (reverse cs) (c ∷ []), length-reverse cs)

pub number-numeral_with :
    (n v r : ℕ) → 2 ≤ r → r ≤ 36 → v < 2 ^ n → number r (numeral_with n r v) ≡ v
unfolding numeral_with number_from
number-numeral_with n v r lo hi small = elim (ℕ_discrete v 0) [
  | yes e ↦ rw e (omega arith)
  | no ne ↦ let nz : (v == 0) ≡ false = ground arith in rw nz (number-digits n r v lo hi small)
]

length-numeral_with : (f r v n : ℕ) → 2 ≤ r → 0 < n → v < 2 ^ n → length (numeral_with f r v) ≤ n
unfolding numeral_with
length-numeral_with f r v n lo pos small = elim (Bool-cases (v == 0)) [
  | inl e ↦ rw e (omega arith)
  | inr ne ↦ rw ne (omega (arith, length-reverse (digits f r v), length-digits f r v n lo small))
]

length-numeral_with_hex : (f v n : ℕ) → 0 < n → v < 16 ^ n → length (numeral_with f 16 v) ≤ n
unfolding numeral_with
length-numeral_with_hex f v n pos small = elim (Bool-cases (v == 0)) [
  | inl e ↦ rw e (omega arith)
  | inr ne ↦ rw ne (omega (arith, length-reverse (digits f 16 v), length-digits_hex f v n small))
]

pub length-numeral : (r v : ℕ) → 2 ≤ r → v < 2 ^ 32 → length (numeral r v) ≤ 32
unfolding numeral
length-numeral r v lo small = length-numeral_with itoa_fuel r v 32 lo (omega arith) small

pub length-numeral_hex : (v : ℕ) → v < 2 ^ 32 → length (numeral 16 v) ≤ 8
unfolding numeral
length-numeral_hex v small = length-numeral_with_hex itoa_fuel v 8 (omega arith) (omega arith)
