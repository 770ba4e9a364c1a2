-- ===== src/Base/Words.antt =====
-- C integers of 32 bits as their bit patterns, numbers below 2 ^ 32. Sums and differences wrap.
use Prim.Native.Nat.{ℕ, ◌+◌, ◌-◌, ◌/◌, ◌%◌, ◌^◌}
use mathlib.Core.Bool.{Bool}
use octave_os.Base.Tests.{ltb, leb, if◌then◌else◌}

abbrev pub word_mod : ℕ
word_mod = 2 ^ 32

abbrev pub add32 : ℕ → ℕ → ℕ
add32 a b = (a + b) % word_mod

-- For `b` at most 2 ^ 32.
abbrev pub sub32 : ℕ → ℕ → ℕ
sub32 a b = (a + (word_mod - b)) % word_mod

-- `-1` of an `int32_t`.
abbrev pub minus_one : ℕ
minus_one = 0xffff_ffff

-- `a < b` and `a <= b` of two `int32_t`: adding 2 ^ 31 turns the signed order into that of ℕ.
abbrev pub ltb_signed : ℕ → ℕ → Bool
ltb_signed a b = ltb ((a + 2 ^ 31) % word_mod) ((b + 2 ^ 31) % word_mod)

abbrev pub leb_signed : ℕ → ℕ → Bool
leb_signed a b = leb ((a + 2 ^ 31) % word_mod) ((b + 2 ^ 31) % word_mod)

-- C's `/` and `%` of an `int32_t` by a positive constant: they round towards zero.
abbrev pub div_signed : ℕ → ℕ → ℕ
div_signed a n = if ltb a (2 ^ 31) then a / n else sub32 0 ((word_mod - a) / n)

abbrev pub rem_signed : ℕ → ℕ → ℕ
rem_signed a n = if ltb a (2 ^ 31) then a % n else sub32 0 ((word_mod - a) % n)
