-- ===== src/Rtc/Write.antt =====
-- Which frequencies `rtc_write` of student-distrib/rtc.c accepts, and the scale that each sets.
use octave_os.Base.{
  ℕ, zero, suc, ◌/◌, ◌^◌, ◌<◌, ◌≤◌, ◌≡◌, refl, ◌∙◌, ap, ◌≢◌, inl, inr, Bool, true, false, not, ◌&&◌,
  ◌||◌, some, arith, ltb, ◌==◌, if◌then◌else◌, minus_one, holds_below, holds_below_at, Outcome,
  done, Bool-cases, word_mod, ==_iff, fault,
}
use native.Mathlib.Decide.{dec_lt}
use octave_os.Str.{Bytes}
use octave_os.Kernel.{Kernel, outb}
use octave_os.Rtc.{
  lowest_freq, set_rate, put_scale, count_halvings, halving_fuel, set_scale, is_valid_freq,
  read_int32, rtc_write, rate_of, highest_rate, rtc_write_freq,
}

-- The scale that a frequency of 2 ^ n Hz comes to.
abbrev pub scale_of : ℕ → ℕ
scale_of n = if ltb n 9 then 1 else 2

-- The exponent of a power of two between 2 and 1024, and 0 for any other number.
exponent_from : ℕ → ℕ → ℕ
exponent_from freq zero = 0
exponent_from freq (suc n) = if freq == 2 ^ suc n then suc n else exponent_from freq n

unfoldable pub exponent : ℕ → ℕ
unfolding exponent_from
exponent freq = exponent_from freq 10

exponent_from_zero :
    (freq k : ℕ) → k ≤ 10 → ((n : ℕ) → 1 ≤ n → n ≤ 10 → freq ≢ 2 ^ n) → exponent_from freq k ≡ 0
unfolding exponent_from
exponent_from_zero freq zero h no_power = refl
exponent_from_zero freq (suc k) h no_power = elim (Bool-cases (freq == 2 ^ suc k)) [
  | inl hit ↦ absurd (no_power (suc k) (omega arith) h ((==_iff freq (2 ^ suc k)).0 hit))
  | inr miss ↦ rw miss (exponent_from_zero freq k (omega arith) no_power)
]

exponent_zero : (freq : ℕ) → ((n : ℕ) → 1 ≤ n → n ≤ 10 → freq ≢ 2 ^ n) → exponent freq ≡ 0
unfolding exponent
exponent_zero freq no_power = exponent_from_zero freq 10 (omega arith) no_power

-- The test fails for every number below 1025 that is no power.
abbrev refuses_others : ℕ → Bool
refuses_others freq = not (exponent freq == 0) || not (is_valid_freq freq)

refuses_table : holds_below 1025 refuses_others ≡ true
unfolding holds_below exponent is_valid_freq
refuses_table = refl

invalid-exponent : (freq : ℕ) → freq < 1025 → exponent freq ≡ 0 → is_valid_freq freq ≡ false
invalid-exponent freq h e = ground (arith, holds_below_at 1025 refuses_others freq refuses_table h)

invalid_large : (freq : ℕ) → 1024 < freq → freq < word_mod → is_valid_freq freq ≡ false
unfolding is_valid_freq
invalid_large freq lo hi = ground arith

abbrev is_done : ℕ → Outcome ℕ → Bool
is_done n (done m) = m == n
is_done n (fault e) = false

is_done_lem : (n : ℕ) (o : Outcome ℕ) → is_done n o ≡ true → o ≡ done n
is_done_lem n (done m) h = ap done ((==_iff m n).0 h)
is_done_lem n (fault e) h = cc

-- What the function computes from each power.
abbrev runs_power : ℕ → Bool
runs_power n =
    (n == 0)
    || (is_valid_freq (2 ^ n)
        && is_done n (count_halvings halving_fuel (2 ^ n) 0)
        && not (rate_of n == 0)
        && (highest_rate / rate_of n == scale_of n))

runs_table : holds_below 11 runs_power ≡ true
unfolding holds_below is_valid_freq count_halvings rate_of
runs_table = refl

-- The four facts of a row of the table.
record Runs (n : ℕ) : Type 0 where
  valid : is_valid_freq (2 ^ n) ≡ true
  counted : count_halvings halving_fuel (2 ^ n) 0 ≡ done n
  has_rate : (rate_of n == 0) ≡ false
  scale : highest_rate / rate_of n ≡ scale_of n

power-Runs : (n : ℕ) → 1 ≤ n → n ≤ 10 → Runs n
power-Runs n lo hi =
    let h = holds_below_at 11 runs_power n runs_table (omega arith) in
    record {
      valid = ground arith;
      counted = is_done_lem n _ (ground arith);
      has_rate = ground arith;
      scale = ground arith;
    }

rtc_write_freq-power :
    (inb n : ℕ) (k : Kernel)
    → 1 ≤ n
    → n ≤ 10
    → rtc_write_freq inb (2 ^ n) k
      ≡ done (0, outb (set_rate inb lowest_freq) (put_scale (scale_of n) k))
unfolding rtc_write_freq set_scale
rtc_write_freq-power inb n k lo hi =
    let r = power-Runs n lo hi in rw (r.valid, r.counted, r.has_rate, r.scale)

module _ (inb : ℕ) (buf : Bytes) (k : Kernel) where
  -- `rtc_write` accepts each power of two from 2 to 1024 Hz and returns 0. It selects the chip's rate
  -- 2, and makes the scale of the process 1 for the frequencies up to 256 Hz and 2 for those of 512
  -- and 1024 Hz.
  pub rtc_write-power :
      (n : ℕ)
      → 1 ≤ n
      → n ≤ 10
      → read_int32 buf ≡ 2 ^ n
      → rtc_write inb (some buf) k
        ≡ done (0, outb (set_rate inb lowest_freq) (put_scale (scale_of n) k))
  unfolding rtc_write
  rtc_write-power n lo hi e =
      ap (λ freq. rtc_write_freq inb freq k) e ∙ rtc_write_freq-power inb n k lo hi

  -- `rtc_write` refuses every other frequency: it returns -1 and changes nothing.
  pub rtc_write_refuses :
      read_int32 buf < word_mod
      → ((n : ℕ) → 1 ≤ n → n ≤ 10 → read_int32 buf ≢ 2 ^ n)
      → rtc_write inb (some buf) k ≡ done (minus_one, k)
  unfolding rtc_write rtc_write_freq
  rtc_write_refuses small no_power = elim (dec_lt 1024 (read_int32 buf)) [
    | yes large ↦ rw (invalid_large (read_int32 buf) large small)
    | no fits ↦
        rw (
          invalid-exponent (read_int32 buf) (omega arith) (exponent_zero (read_int32 buf) no_power))
  ]
