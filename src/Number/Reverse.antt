-- ===== src/Number/Reverse.antt =====
-- The string functions `strlen`, `strrev` and `strcpy` of student-distrib/lib.c against the text that
-- they work on.
use octave_os.Base.{
  ℕ, zero, suc, ◌+◌, ◌-◌, ◌*◌, ◌<◌, ◌≤◌, ◌≡◌, ◌≢◌, ◌∙◌, ap, arith, ltb, leb, ◌&&◌, ◌==◌, false,
  if◌then◌else◌, update, done, ◌>>=◌, Bool-cases, inl, inr, sym,
}
use octave_os.Str.{Bytes}
use octave_os.Number.{strlen_loop, strlen, exchange, strrev_loop, strrev, strcpy_loop, strcpy}

-- A string of `n` bytes at `a`: none of them is 0, and a NUL follows.
pub record IsString (s : Bytes) (a n : ℕ) : Type 0 where
  pub bytes : (i : ℕ) → i < n → s (a + i) ≢ 0
  pub nul : s (a + n) ≡ 0

strlen_loop_lem :
    (f : ℕ) (s : Bytes) (a n len m : ℕ)
    → IsString s a n
    → len + m ≡ n
    → m < f
    → strlen_loop f s a len ≡ done n
unfolding strlen_loop
strlen_loop_lem zero s a n len m h e small = absurd (omega arith)
strlen_loop_lem (suc f) s a n len zero h e small =
    let here : len ≡ n = omega arith in
    let stop : s (a + len) ≡ 0 = ap (λ i. s (a + i)) here ∙ h.nul in ground (arith)
strlen_loop_lem (suc f) s a n len (suc m) h e small =
    ground (arith, h.bytes len, strlen_loop_lem f s a n (len + 1) m h)

pub strlen_lem : (f : ℕ) (s : Bytes) (a n : ℕ) → IsString s a n → n < f → strlen f s a ≡ done n
unfolding strlen
strlen_lem f s a n h small = strlen_loop_lem f s a n 0 n h (omega arith) small

-- The bytes from `a + beg` to `a + end` in the opposite order.
abbrev pub turned : Bytes → (a beg end : ℕ) → Bytes
turned s a beg end j = if leb (a + beg) j && leb j (a + end) then s (2 * a + beg + end - j) else s j

turned_short : (s : Bytes) (a beg end j : ℕ) → end ≤ beg → turned s a beg end j ≡ s j
turned_short s a beg end j h = ground arith

turned_step :
    (s : Bytes) (a beg end j : ℕ)
    → beg < end
    → turned (exchange s (a + beg) (a + end)) a (beg + 1) (end - 1) j ≡ turned s a beg end j
turned_step s a beg end j h = ground arith

strrev_loop_lem :
    (f : ℕ) (s : Bytes) (a beg end : ℕ)
    → end < beg + f
    → 0 < f
    → (s' : Bytes) × (strrev_loop f s a beg end ≡ done s') × ((j : ℕ) → s' j ≡ turned s a beg end j)
unfolding strrev_loop
strrev_loop_lem zero s a beg end small pos = (s, absurd (omega arith), λ j. absurd (omega arith))
strrev_loop_lem (suc f) s a beg end small pos = elim (Bool-cases (ltb beg end)) [
  | inl more ↦
      let lt : beg < end = ground arith in
      let rest =
        strrev_loop_lem f (exchange s (a + beg) (a + end)) a (beg + 1) (end - 1) (omega arith)
          (omega arith) in
      (rest.0, rw more rest.1, λ j. rest.2 j ∙ turned_step s a beg end j lt)
  | inr stop ↦
      let le : end ≤ beg = ground arith in (s, rw stop, λ j. sym (turned_short s a beg end j le))
]

-- `strrev` turns round the bytes of a string before its NUL, in place, and changes nothing else,
-- where the fuel is more than the string is long.
pub strrev_lem :
    (f : ℕ) (s : Bytes) (a n : ℕ)
    → IsString s a n
    → n < f
    → (s' : Bytes) × (strrev f s a ≡ done s')
      × ((j : ℕ) → s' j ≡ (if leb a j && ltb j (a + n) then s (2 * a + n - 1 - j) else s j))
unfolding strrev
strrev_lem f s a n h small =
    let run = strrev_loop_lem (n + 1) s a 0 (n - 1) (omega arith) (omega arith) in
    (
      run.0,
      ap (λ r. r >>= λ len. strrev_loop (len + 1) s a 0 (len - 1)) (strlen_lem f s a n h small)
          ∙ run.1,
      λ j. run.2 j ∙ ends j,
    )
  where
    ends :
        (j : ℕ)
        → turned s a 0 (n - 1) j ≡ (if leb a j && ltb j (a + n) then s (2 * a + n - 1 - j) else s j)
    ends j = ground arith

-- What `strcpy` has copied from `i` on, of a string of `n` bytes, and its NUL.
abbrev pub copied_string : (dest src : Bytes) → (a b i n : ℕ) → Bytes
copied_string dest src a b i n j =
    if leb (a + i) j && leb j (a + n) then src (b + (j - a)) else dest j

strcpy_loop_lem :
    (f : ℕ) (dest src : Bytes) (a b n i m : ℕ)
    → IsString src b n
    → i + m ≡ n
    → m < f
    → (s' : Bytes) × (strcpy_loop f dest src a b i ≡ done s')
      × ((j : ℕ) → s' j ≡ copied_string dest src a b i n j)
unfolding strcpy_loop
strcpy_loop_lem zero dest src a b n i m h e small =
    (dest, absurd (omega arith), λ j. absurd (omega arith))
strcpy_loop_lem (suc f) dest src a b n i zero h e small =
    let here : i ≡ n = omega arith in
    let stop : src (b + i) ≡ 0 = ap (λ v. src (b + v)) here ∙ h.nul in
    (update dest (a + i) 0, ground arith, λ j. ground (arith, h.nul))
strcpy_loop_lem (suc f) dest src a b n i (suc m) h e small =
    let more : (src (b + i) == 0) ≡ false = ground (arith, h.bytes i) in
    let rest =
      strcpy_loop_lem f (update dest (a + i) (src (b + i))) src a b n (i + 1) m h (omega arith)
        (omega arith) in
    (rest.0, rw more rest.1, λ j. rest.2 j ∙ ground arith)

-- `strcpy` between two arrays copies a string with its NUL and changes nothing else, where the fuel
-- is more than the string is long.
pub strcpy_lem :
    (f : ℕ) (dest src : Bytes) (a b n : ℕ)
    → IsString src b n
    → n < f
    → (s' : Bytes) × (strcpy f dest src a b ≡ done s')
      × ((j : ℕ) → s' j ≡ (if leb a j && leb j (a + n) then src (b + (j - a)) else dest j))
unfolding strcpy
strcpy_lem f dest src a b n h small =
    let run = strcpy_loop_lem f dest src a b n 0 n h (omega arith) small in
    (run.0, run.1, λ j. run.2 j ∙ ground arith)
