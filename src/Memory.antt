-- ===== src/Memory.antt =====
-- `memset` and `memcpy` of student-distrib/lib.c on the physical memory, a byte at a time. (The code
-- moves four bytes at once where the destination is aligned; between ranges that do not overlap that
-- is the same.) `memset_word`, `memset_dword` and `memmove` are single string instructions.
pub mod Moved
use native.Mathlib.Decide.{ℕ_discrete, dec_lt}
use octave_os.Base.{
  ℕ, zero, suc, ◌+◌, ◌-◌, ◌≤◌, ◌≡◌, ◌⊎◌, ◌∙◌, ◌&&◌, arith, ltb, leb, if◌then◌else◌, word_mod, ◌%◌,
  ◌/◌, ◌*◌, ◌^◌, Bool, ap,
}
use octave_os.Str.{Bytes}
use octave_os.Screen.{poke}

unfoldable pub memset : (s c n : ℕ) → Bytes → Bytes
memset s c zero mem = mem
memset s c (suc n) mem = memset (s + 1) c n (poke mem s (c % 256))

unfoldable pub memcpy : (dest src n : ℕ) → Bytes → Bytes
memcpy dest src zero mem = mem
memcpy dest src (suc n) mem = memcpy (dest + 1) (src + 1) n (poke mem dest (mem src))

-- `rep stosw`: the low 16 bits, `n` times.
unfoldable pub memset_word : (s c n : ℕ) → Bytes → Bytes
memset_word s c zero mem = mem
memset_word s c (suc n) mem =
    memset_word (s + 2) c n (poke (poke mem s (c % 256)) (s + 1) (c / 2 ^ 8 % 256))

-- `rep stosl`: a 32-bit word, `n` times.
unfoldable pub memset_dword : (s c n : ℕ) → Bytes → Bytes
memset_dword s c zero mem = mem
memset_dword s c (suc n) mem =
    let low = poke (poke mem s (c % 256)) (s + 1) (c / 2 ^ 8 % 256) in
    memset_dword (s + 4) c n (poke (poke low (s + 2) (c / 2 ^ 16 % 256)) (s + 3) (c / 2 ^ 24 % 256))

-- `rep movsb` with the direction flag clear, and with it set, from the last of `n` bytes on.
unfoldable pub move_up : (dest src n : ℕ) → Bytes → Bytes
move_up dest src zero mem = mem
move_up dest src (suc n) mem = move_up (dest + 1) (src + 1) n (poke mem dest (mem src))

unfoldable pub move_down : (dest src n : ℕ) → Bytes → Bytes
move_down dest src zero mem = mem
move_down dest src (suc n) mem = move_down dest src n (poke mem (dest + n) (mem (src + n)))

-- `jae`: upwards where the source is not below the destination.
unfoldable pub memmove : (dest src n : ℕ) → Bytes → Bytes
unfolding move_up move_down
memmove dest src n mem = if leb dest src then move_up dest src n mem else move_down dest src n mem

-- An address among the `n` from `s` on.
abbrev pub in_range : (s n a : ℕ) → Bool
in_range s n a = leb s a && ltb a (s + n)

-- `memset` sets exactly the bytes of the range, where it lies below 2 ^ 32.
pub memset_lem :
    (s c n a : ℕ) (mem : Bytes)
    → s + n ≤ word_mod
    → memset s c n mem a ≡ (if in_range s n a then c % 256 else mem a)
unfolding memset
memset_lem s c zero a mem fits = ground arith
memset_lem s c (suc n) a mem fits = ground (arith, memset_lem (s + 1) c n a (poke mem s (c % 256)))

-- `memcpy` between ranges below 2 ^ 32 that do not overlap: the destination holds what the source
-- held, byte for byte, and no other byte changes.
pub memcpy_lem :
    (dest src n a : ℕ) (mem : Bytes)
    → dest + n ≤ word_mod
    → (dest + n ≤ src) ⊎ (src + n ≤ dest)
    → memcpy dest src n mem a ≡ (if in_range dest n a then mem (src + (a - dest)) else mem a)
unfolding memcpy
memcpy_lem dest src zero a mem fits apart = ground arith
memcpy_lem dest src (suc n) a mem fits apart =
    memcpy_lem (dest + 1) (src + 1) n a (poke mem dest (mem src)) (omega arith) (omega arith)
    ∙ elim (ℕ_discrete a dest) [
      | yes at ↦ let from : mem (src + (a - dest)) ≡ mem src = ap mem (omega arith) in ground arith
      | no off ↦ elim (dec_lt dest a) [
        | yes behind ↦
            let from : mem (src + 1 + (a - (dest + 1))) ≡ mem (src + (a - dest)) =
              ap mem (omega arith) in
            ground arith
        | no before ↦ ground arith
      ]
    ]
