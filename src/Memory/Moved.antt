-- ===== src/Memory/Moved.antt =====
-- `memmove`, `memset_word` and `memset_dword` of student-distrib/lib.c on the physical memory.
use native.Mathlib.Decide.{ℕ_discrete}
use octave_os.Base.{
  ℕ, zero, suc, ◌+◌, ◌-◌, ◌*◌, ◌/◌, ◌%◌, ◌^◌, ◌≤◌, ◌<◌, ◌≡◌, ◌∙◌, arith, ltb, leb, ◌==◌,
  if◌then◌else◌, word_mod, ap, Bool-cases, inl, inr,
}
use octave_os.Str.{Bytes}
use octave_os.Screen.{poke}
use octave_os.Memory.{memset_word, move_up, move_down, memmove, in_range}

move_up_lem :
    (dest src n a : ℕ) (mem : Bytes)
    → dest + n ≤ word_mod
    → dest ≤ src
    → move_up dest src n mem a ≡ (if in_range dest n a then mem (src + (a - dest)) else mem a)
unfolding move_up
move_up_lem dest src zero a mem fits le = ground arith
move_up_lem dest src (suc n) a mem fits le =
    move_up_lem (dest + 1) (src + 1) n a (poke mem dest (mem src)) (omega arith) (omega arith)
    ∙ elim (ℕ_discrete a dest) [
      | yes at ↦ let from : mem (src + (a - dest)) ≡ mem src = ap mem (omega arith) in ground arith
      | no off ↦ elim (Bool-cases (ltb dest a)) [
        | inl behind ↦
            let from : mem (src + 1 + (a - (dest + 1))) ≡ mem (src + (a - dest)) =
              ap mem (ground arith) in
            ground arith
        | inr before ↦ ground arith
      ]
    ]

move_down_lem :
    (dest src n a : ℕ) (mem : Bytes)
    → dest + n ≤ word_mod
    → src < dest
    → move_down dest src n mem a ≡ (if in_range dest n a then mem (src + (a - dest)) else mem a)
unfolding move_down
move_down_lem dest src zero a mem fits lt = ground arith
move_down_lem dest src (suc n) a mem fits lt =
    move_down_lem dest src n a (poke mem (dest + n) (mem (src + n))) (omega arith) lt
    ∙ elim (ℕ_discrete a (dest + n)) [
      | yes at ↦
          let from : mem (src + (a - dest)) ≡ mem (src + n) = ap mem (omega arith) in ground arith
      | no off ↦ ground arith
    ]

-- `memmove` between any two ranges below 2 ^ 32, also overlapping ones: the destination holds what
-- the source held before, byte for byte, and no other byte changes.
pub memmove_lem :
    (dest src n a : ℕ) (mem : Bytes)
    → dest + n ≤ word_mod
    → memmove dest src n mem a ≡ (if in_range dest n a then mem (src + (a - dest)) else mem a)
unfolding memmove
memmove_lem dest src n a mem fits = elim (Bool-cases (leb dest src)) [
  | inl up ↦ rw up (move_up_lem dest src n a mem fits (ground arith))
  | inr down ↦ rw down (move_down_lem dest src n a mem fits (ground arith))
]

-- `memset_word` fills `n` words of two bytes, 2 * n bytes in all, each with the low 16 bits of its
-- argument, the low byte first, and changes no other byte, where the range lies below 2 ^ 32.
pub memset_word_lem :
    (s c n a : ℕ) (mem : Bytes)
    → s + 2 * n ≤ word_mod
    → memset_word s c n mem a ≡ (
        if in_range s (2 * n) a
        then (if (a - s) % 2 == 0 then c % 256 else c / 2 ^ 8 % 256)
        else mem a)
unfolding memset_word
memset_word_lem s c zero a mem fits = ground arith
memset_word_lem s c (suc n) a mem fits =
    memset_word_lem (s + 2) c n a (poke (poke mem s (c % 256)) (s + 1) (c / 2 ^ 8 % 256))
      (omega arith)
    ∙ ground arith
