-- ===== src/Pic/Masks.antt =====
-- What `enable_irq` and `disable_irq` of student-distrib/i8259.c do to the lines of both controllers.
use octave_os.Base.{
  ℕ, ◌-◌, ◌/◌, ◌%◌, ◌^◌, ◌<◌, ◌≡◌, refl, Bool, true, arith, ltb, ◌==◌, ==_iff, if◌then◌else◌,
  bit_and, bit_or, holds_below, holds_below_at,
}
use octave_os.Pic.{Pic, max_pic, enable_irq, disable_irq}

-- Bit `n` of a mask, set where the line is masked.
abbrev pub bit : ℕ → ℕ → ℕ
bit mask n = mask / 2 ^ n % 2

-- Line `irq` is masked at its controller.
abbrev pub masked : Pic → ℕ → ℕ
masked pic irq =
    if ltb irq max_pic then bit pic.master_mask irq else bit pic.slave_mask (irq - max_pic)

-- A statement of two bits and a mask, checked at every value.
abbrev at_bits : (ℕ → ℕ → ℕ → Bool) → Bool
at_bits p = holds_below 8 (λ n. holds_below 8 (λ m. holds_below 256 (p n m)))

at_bits_sound :
    (p : ℕ → ℕ → ℕ → Bool) (n m mask : ℕ)
    → at_bits p ≡ true
    → n < 8
    → m < 8
    → mask < 256
    → p n m mask ≡ true
at_bits_sound p n m mask h hn hm hmask =
    holds_below_at 256 (p n m) mask
      (holds_below_at 8 (λ j. holds_below 256 (p n j)) m
        (holds_below_at 8 (λ i. holds_below 8 (λ j. holds_below 256 (p i j))) n h hn) hm)
      hmask

abbrev clears : ℕ → ℕ → ℕ → Bool
clears n m mask = bit (bit_and mask (255 - 2 ^ n % 256)) m == (if n == m then 0 else bit mask m)

abbrev sets : ℕ → ℕ → ℕ → Bool
sets n m mask = bit (bit_or mask (2 ^ n % 256)) m == (if n == m then 1 else bit mask m)

clears_table : at_bits clears ≡ true
unfolding holds_below
clears_table = refl

sets_table : at_bits sets ≡ true
unfolding holds_below
sets_table = refl

bit-clear :
    (n m mask : ℕ)
    → n < 8
    → m < 8
    → mask < 256
    → bit (bit_and mask (255 - 2 ^ n % 256)) m ≡ (if n == m then 0 else bit mask m)
bit-clear n m mask hn hm hmask =
    (==_iff _ _).0 (at_bits_sound clears n m mask clears_table hn hm hmask)

bit-set :
    (n m mask : ℕ)
    → n < 8
    → m < 8
    → mask < 256
    → bit (bit_or mask (2 ^ n % 256)) m ≡ (if n == m then 1 else bit mask m)
bit-set n m mask hn hm hmask = (==_iff _ _).0 (at_bits_sound sets n m mask sets_table hn hm hmask)

-- Both masks are bytes.
pub record AreBytes (pic : Pic) : Type 0 where
  pub master_byte : pic.master_mask < 256
  pub slave_byte : pic.slave_mask < 256

module _ (irq j : ℕ) (pic : Pic) (bytes : AreBytes pic) (hi : irq < 16) (hj : j < 16) where
  -- `enable_irq` of one of the sixteen lines unmasks that line and leaves every other line as it was.
  pub masked-enable_irq : masked (enable_irq irq pic).0 j ≡ (if irq == j then 0 else masked pic j)
  unfolding enable_irq
  masked-enable_irq =
      ground (arith, bit-clear irq j pic.master_mask, bit-clear (irq - 8) (j - 8) pic.slave_mask)

  -- `disable_irq` of one of the sixteen lines masks that line and leaves every other line as it was.
  pub masked-disable_irq : masked (disable_irq irq pic).0 j ≡ (if irq == j then 1 else masked pic j)
  unfolding disable_irq
  masked-disable_irq =
      ground (arith, bit-set irq j pic.master_mask, bit-set (irq - 8) (j - 8) pic.slave_mask)

byte_table : at_bits (λ n m mask. ltb (bit_and mask (255 - 2 ^ n % 256)) 256) ≡ true
unfolding holds_below
byte_table = refl

-- The masks stay bytes.
pub AreBytes-enable_irq :
    (irq : ℕ) (pic : Pic) → AreBytes pic → irq < 16 → AreBytes (enable_irq irq pic).0
unfolding enable_irq
AreBytes-enable_irq irq pic bytes hi = ground (
  arith,
  at_bits_sound (λ n m mask. ltb (bit_and mask (255 - 2 ^ n % 256)) 256) irq 0 pic.master_mask
      byte_table,
  at_bits_sound (λ n m mask. ltb (bit_and mask (255 - 2 ^ n % 256)) 256) (irq - 8) 0 pic.slave_mask
      byte_table,
)
