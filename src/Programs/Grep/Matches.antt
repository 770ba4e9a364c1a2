-- ===== src/Programs/Grep/Matches.antt =====
-- What the search of syscalls/ece391grep.c finds in a line.
use mathlib.Core.Path.{subst}
use octave_os.Base.{
  ℕ, zero, suc, ◌+◌, ◌≤◌, ◌<◌, ◌≡◌, ◌≢◌, ◌↔◌, refl, sym, ap, ◌∙◌, arith, Bool, true, false, ◌&&◌,
  ◌==◌, ==_iff, if◌then◌else◌, Bool-cases, inl, inr, sub32,
}
use octave_os.Str.{Bytes, sign_extend}
use octave_os.Programs.Support.{ece391_strncmp, ece391_strncmp_loop}
use octave_os.Programs.Grep.{matches}

-- The first `n` bytes of `s` stand at `i` in the array.
abbrev pub Occurs : Bytes → Bytes → (n i : ℕ) → Type 0
Occurs array s n i = (j : ℕ) → j < n → array (i + j) ≡ s j

-- A string of `n` bytes: none of them is a NUL, and all are bytes.
pub record IsPattern (s : Bytes) (n : ℕ) : Type 0 where
  pub no_nul : (j : ℕ) → j < n → s j ≢ 0
  pub bytes : (j : ℕ) → s j < 256

-- Two bytes with the difference 0, which is what a test for equality leaves.
tested_equal : (x y z : ℕ) → x < 256 → y < 256 → (if x == y then z else sub32 x y) ≡ 0 → x ≡ y
tested_equal x y z hx hy e = elim (Bool-cases (x == y)) [
  | inl eq ↦ (==_iff x y).0 eq
  | inr ne ↦
      let diff : sub32 x y ≡ 0 = subst (λ t. (if t then z else sub32 x y) ≡ 0) ne e in omega arith
]

module _ (array s : Bytes) (len : ℕ) (pattern : IsPattern s len)
    (bytes : (i : ℕ) → array i < 256) where
  strncmp_loop-zero :
      (n a b : ℕ)
      → b + suc n ≡ len
      → ece391_strncmp_loop n array s a b ≡ 0
      → (j : ℕ) → j < suc n
      → array (a + j) ≡ s (b + j)
  unfolding ece391_strncmp_loop
  strncmp_loop-zero zero a b h e j hj =
      ap array (omega arith)
      ∙ tested_equal (array a) (s b) 0 (bytes a) (pattern.bytes b) e
      ∙ ap s (omega arith)
  strncmp_loop-zero (suc n) a b h e zero hj =
      ap array (omega arith)
      ∙ tested_equal (array a) (s b) _ (bytes a) (pattern.bytes b) e
      ∙ ap s (omega arith)
  strncmp_loop-zero (suc n) a b h e (suc j) hj =
      let same = tested_equal (array a) (s b) _ (bytes a) (pattern.bytes b) e in
      let some_byte = pattern.no_nul b (omega arith) in
      let equal : (array a == s b) ≡ true = ground arith in
      let more : (array a == 0) ≡ false = ground arith in
      let rest = ece391_strncmp_loop n array s (a + 1) (b + 1) in
      let e1 : (if array a == 0 then 0 else rest) ≡ 0 =
        subst (λ t. (if t then (if array a == 0 then 0 else rest) else sub32 (array a) (s b)) ≡ 0)
          equal e in
      let e2 : rest ≡ 0 = subst (λ t. (if t then 0 else rest) ≡ 0) more e1 in
      ap array (omega arith)
      ∙ strncmp_loop-zero n (a + 1) (b + 1) (omega arith) e2 j (omega arith)
      ∙ ap s (omega arith)

  first : (a b : ℕ) → array (a + 0) ≡ s (b + 0) → array a ≡ s b
  first a b e = ap array (omega arith) ∙ e ∙ ap s (omega arith)

  zero-strncmp_loop :
      (n a b : ℕ)
      → b + suc n ≡ len
      → ((j : ℕ) → j < suc n → array (a + j) ≡ s (b + j))
      → ece391_strncmp_loop n array s a b ≡ 0
  unfolding ece391_strncmp_loop
  zero-strncmp_loop zero a b h same =
      let equal : (array a == s b) ≡ true = (==_iff _ _).1 (first a b (same 0 (omega arith))) in
      rw equal refl
  zero-strncmp_loop (suc n) a b h same =
      let eq = first a b (same 0 (omega arith)) in
      let equal : (array a == s b) ≡ true = (==_iff _ _).1 eq in
      let some_byte = pattern.no_nul b (omega arith) in
      let more : (array a == 0) ≡ false = ground arith in
      rw (equal, more)
        (zero-strncmp_loop n (a + 1) (b + 1) (omega arith)
          (λ j hj. ap array (omega arith) ∙ same (suc j) (omega arith) ∙ ap s (omega arith)))

module _ (array s : Bytes) (m : ℕ) (pattern : IsPattern s (suc m))
    (bytes : (i : ℕ) → array i < 256) where
  strncmp-Occurs : (i : ℕ) → (ece391_strncmp array s i 0 (suc m) ≡ 0) ↔ Occurs array s (suc m) i
  unfolding ece391_strncmp
  strncmp-Occurs i = (
    λ e j hj.
        strncmp_loop-zero array s (suc m) pattern bytes m i 0 (omega arith) e j hj
        ∙ ap s (omega arith),
    λ o.
        zero-strncmp_loop array s (suc m) pattern bytes m i 0 (omega arith)
          (λ j hj. o j hj ∙ ap s (omega arith)),
  )

  abbrev found_at : ℕ → Bool
  found_at i = (sign_extend (s 0) == array i) && (ece391_strncmp array s i 0 (suc m) == 0)

  found_at-Occurs : (i : ℕ) → (found_at i ≡ true) ↔ ((s 0 < 128) × Occurs array s (suc m) i)
  found_at-Occurs i = (
    λ e. (sign_lost i (ground (arith, e)), (strncmp-Occurs i).0 (ground (arith, e))),
    λ (plain, o). back plain o,
  )
    where
      sign_lost : (i : ℕ) → (sign_extend (s 0) == array i) ≡ true → s 0 < 128
      sign_lost i e = let small = bytes i in let byte = pattern.bytes 0 in ground arith

      back : s 0 < 128 → Occurs array s (suc m) i → found_at i ≡ true
      back plain o =
          let zero_difference = (strncmp-Occurs i).1 o in
          let start : array i ≡ s 0 = ap array (omega arith) ∙ o 0 (omega arith) in ground arith

  not_first :
      (check : ℕ)
      → found_at check ≡ false
      → s 0 < 128
      → (i : ℕ) → check ≤ i
      → Occurs array s (suc m) i
      → check + 1 ≤ i
  not_first check not_here plain i lo o = elim (Bool-cases (check == i)) [
    | inl eq ↦
        let same : found_at check ≡ found_at i = ap found_at ((==_iff check i).0 eq) in
        let both : false ≡ true = sym not_here ∙ same ∙ (found_at-Occurs i).1 (plain, o) in
        absurd (cc both)
    | inr ne ↦ ground arith
  ]

  -- The loop of grep over a line says that it matches if and only if the string's first byte is below
  -- 128 and the string stands somewhere in the line: the bytes of the string in a row from a place of
  -- the line on. The string has a byte or more and no NUL, and it and the line are of bytes. A string
  -- that begins with a byte of 128 or more is never found, since the loop compares that byte as a
  -- negative number.
  pub matches-Occurs :
      (check n : ℕ)
      → (matches array s (suc m) check n ≡ true)
        ↔ ((s 0 < 128) × (i : ℕ) × (check ≤ i) × (i < check + n) × Occurs array s (suc m) i)
  unfolding matches
  matches-Occurs check zero = (λ e. absurd (cc e), λ (plain, i, lo, hi, o). absurd (omega arith))
  matches-Occurs check (suc n) = elim (Bool-cases (found_at check)) [
    | inl here ↦
        let (plain, o) = (found_at-Occurs check).0 here in
        rw here (λ e. (plain, check, omega arith, omega arith, o), λ w. refl)
    | inr not_here ↦
        let later = matches-Occurs (check + 1) n in
        rw not_here (
          λ e. let (plain, i, lo, hi, o) = later.0 e in (plain, i, omega arith, omega arith, o),
          λ (plain, i, lo, hi, o).
              later.1 (plain, i, not_first check not_here plain i lo o, omega arith, o),
        )
  ]
