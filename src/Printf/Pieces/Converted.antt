-- ===== src/Printf/Pieces/Converted.antt =====
-- The conversions of `printf` (student-distrib/lib.c) on numbers: the local array that `itoa` fills,
-- read up to its NUL.
use mathlib.Core.Path.{ap₂}
use octave_os.Base.{
  ℕ, zero, suc, ◌+◌, ◌-◌, ◌<◌, ◌≤◌, ◌^◌, ◌≡◌, ◌≢◌, refl, ◌∙◌, ap, sym, arith, List, ◌∷◌, ◌++◌,
  length, replicate, true, false, ltb, leb, ◌==◌, ◌&&◌, if◌then◌else◌, Bool-cases, inl, inr, update,
  sub32, ltb_signed, Outcome, done, ◌>>=◌,
}
use octave_os.Str.{Bytes, text_from}
use octave_os.FileSys.{read_range}
use octave_os.FileSys.Blocks.{read_range-append, read_range_shift}
use octave_os.Number.{itoa, strlen}
use octave_os.Number.Reverse.{IsString, strlen_lem}
use octave_os.Number.Digits.{numeral, length-numeral, length-numeral_hex}
use octave_os.Number.Itoa.{itoa-Printed}
use octave_os.Printf.{conv_text, fill_zeros, convert_hex, convert_signed}
use octave_os.Printf.Pieces.{aligned_numeral, signed_numeral}

pub IsString-tail : (s : Bytes) (a n : ℕ) → IsString s a (suc n) → IsString s (a + 1) n
IsString-tail s a n h = record {
  bytes = λ i l z. h.bytes (i + 1) (omega arith) (ap s (omega arith) ∙ z);
  nul = ap s (omega arith) ∙ h.nul;
}

-- A string that ends within the array is the text read from it.
pub text_from-IsString :
    (s : Bytes) (a n m : ℕ) → IsString s a n → n < m → text_from s a m ≡ read_range s a n
unfolding text_from read_range
text_from-IsString s a n zero h small = absurd (omega arith)
text_from-IsString s a zero (suc m) h small =
    let nul : s a ≡ 0 = ap s (omega arith) ∙ h.nul in rw nul refl
text_from-IsString s a (suc n) (suc m) h small =
    let first : s a ≢ 0 = λ z. h.bytes 0 (omega arith) (ap s (omega arith) ∙ z) in
    let more : (s a == 0) ≡ false = ground arith in
    rw more
      (ap (λ cs. s a ∷ cs) (text_from-IsString s (a + 1) n m (IsString-tail s a n h) (omega arith)))

module _ (v r : ℕ) (s : Bytes) (a : ℕ) (lo : 2 ≤ r) (hi : r ≤ 36) (small : v < 2 ^ 32) {B : Type 0}
    (f : List ℕ → Outcome B) where
  pub itoa-conv_text : (itoa v s a r >>= λ s'. f (conv_text s' a)) ≡ f (numeral r v)
  itoa-conv_text =
      let (s', run, p) = itoa-Printed v r s a lo hi small in
      let fits : length (numeral r v) < 64 = omega (arith, length-numeral r v lo small) in
      ap (λ o. o >>= λ s'. f (conv_text s' a)) run
      ∙ ap f (text_from-IsString s' a (length (numeral r v)) 64 p.string fits ∙ p.text)

front : (s' : Bytes) (n : ℕ) → IsString s' 1 n → s' 0 ≡ b'-' → IsString s' 0 (suc n)
front s' n h dash = record {
  bytes = λ i l z. elim (Bool-cases (i == 0)) [
    | inl e ↦ ground (arith, dash)
    | inr e ↦ h.bytes (i - 1) (ground arith) (ap s' (ground arith) ∙ z)
  ];
  nul = ap s' (omega arith) ∙ h.nul;
}

whole :
    (s' : Bytes) (cs : List ℕ)
    → s' 0 ≡ b'-'
    → read_range s' 1 (length cs) ≡ cs
    → read_range s' 0 (suc (length cs)) ≡ b'-' ∷ cs
unfolding read_range
whole s' cs dash h = ap₂ ◌∷◌ dash h

pub convert_signed_lem :
    (s : Bytes) (v : ℕ) → v < 2 ^ 32 → convert_signed s v ≡ done (signed_numeral v)
unfolding convert_signed
convert_signed_lem s v small = elim (Bool-cases (ltb_signed v 0)) [
  | inl e ↦ rw e negative
  | inr e ↦ rw e (itoa-conv_text v 10 s 0 (omega arith) (omega arith) small done)
]
  where
    w : ℕ
    w = sub32 0 v

    word : w < 2 ^ 32
    word = ground arith

    negative :
        (itoa w (update s 0 b'-') 1 10 >>= λ s'. done (conv_text s' 0)) ≡ done (b'-' ∷ numeral 10 w)
    negative =
        let (s', run, p) = itoa-Printed w 10 (update s 0 b'-') 1 (omega arith) (omega arith) word in
        let fits : length (numeral 10 w) ≤ 32 = length-numeral 10 w (omega arith) word in
        let dash : s' 0 ≡ b'-' = p.others 0 (inl (omega arith)) in
        ap (λ o. o >>= λ s'. done (conv_text s' 0)) run
        ∙ ap done (
            text_from-IsString s' 0 (suc (length (numeral 10 w))) 64
              (front s' (length (numeral 10 w)) p.string dash) (omega arith)
            ∙ whole s' (numeral 10 w) dash p.text)

fill_zeros_lem :
    (n i : ℕ) (s : Bytes) (j : ℕ)
    → fill_zeros n i s j ≡ (if leb i j && ltb j (i + n) then b'0' else s j)
unfolding fill_zeros
fill_zeros_lem zero i s j = ground arith
fill_zeros_lem (suc n) i s j = ground (arith, fill_zeros_lem n (i + 1) (update s i b'0') j)

read_range-replicate :
    (s : Bytes) (a n : ℕ)
    → ((j : ℕ) → a ≤ j → j < a + n → s j ≡ b'0')
    → read_range s a n ≡ replicate n b'0'
unfolding read_range
read_range-replicate s a zero h = refl
read_range-replicate s a (suc n) h =
    ap₂ ◌∷◌ (h a (omega arith) (omega arith))
      (read_range-replicate s (a + 1) n (λ j l g. h j (omega arith) (omega arith)))

-- The zeros in front of the numeral, of `n` digits at 8.
module _ (s : Bytes) (n : ℕ) (h : IsString s 8 n) (le : n ≤ 8) where
  abbrev filled : Bytes
  filled = fill_zeros (8 - n) n s

  filled_high : (j : ℕ) → 8 ≤ j → filled j ≡ s j
  filled_high j l = fill_zeros_lem (8 - n) n s j ∙ ground arith

  filled_low : (j : ℕ) → n ≤ j → j < n + (8 - n) → filled j ≡ b'0'
  filled_low j l g = fill_zeros_lem (8 - n) n s j ∙ ground arith

  filled-IsString : IsString filled n 8
  filled-IsString = record {
    bytes = λ i l z. elim (Bool-cases (ltb (n + i) 8)) [
      | inl e ↦ ground (arith, filled_low (n + i))
      | inr e ↦
          h.bytes (n + i - 8) (ground arith)
            (ap s (ground arith) ∙ sym (filled_high (n + i) (ground arith)) ∙ z)
    ];
    nul = filled_high (n + 8) (omega arith) ∙ ap s (omega arith) ∙ h.nul;
  }

  read_range-filled : read_range filled n 8 ≡ replicate (8 - n) b'0' ++ read_range s 8 n
  read_range-filled =
      let total : 8 ≡ (8 - n) + n = omega arith in
      let middle : n + (8 - n) ≡ 8 = omega arith in
      ap (read_range filled n) total
      ∙ read_range-append filled n (8 - n) n
      ∙ ap₂ ◌++◌ (read_range-replicate filled n (8 - n) filled_low) (
          ap (λ b. read_range filled b n) middle
          ∙ read_range_shift filled s 8 8 n (λ j l. filled_high (8 + j) (omega arith)))

pub convert_hex-aligned :
    (s : Bytes) (v : ℕ) → v < 2 ^ 32 → convert_hex s true v ≡ done (aligned_numeral v)
unfolding convert_hex
convert_hex-aligned s v small =
    let (s', run, p) = itoa-Printed v 16 s 8 (omega arith) (omega arith) small in
    let n = length (numeral 16 v) in
    let le : n ≤ 8 = length-numeral_hex v small in
    ap (λ o. o >>= λ s. strlen 56 s 8 >>= λ n. done (conv_text (fill_zeros (8 - n) n s) n)) run
    ∙ ap (λ o. o >>= λ n. done (conv_text (fill_zeros (8 - n) n s') n))
        (strlen_lem 56 s' 8 n p.string (omega arith))
    ∙ ap done (
        text_from-IsString (fill_zeros (8 - n) n s') n 8 64 (filled-IsString s' n p.string le)
          (omega arith)
        ∙ read_range-filled s' n p.string le
        ∙ ap (λ cs. replicate (8 - n) b'0' ++ cs) p.text)
