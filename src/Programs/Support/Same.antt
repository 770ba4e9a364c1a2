-- ===== src/Programs/Support/Same.antt =====
-- The functions of syscalls/ece391support.c against those of student-distrib/lib.c.
use octave_os.Base.{
  ℕ, zero, suc, ◌+◌, ◌-◌, ◌/◌, ◌%◌, ◌≡◌, ◌↔◌, refl, ap, arith, false, leb, ◌==◌, if◌then◌else◌,
  update, Outcome, done, fault, ◌>>=◌, Bool-cases, inl, inr,
}
use octave_os.Str.{Bytes, strncmp_loop, strncmp}
use octave_os.Str.Compare.{IsBytes}
use octave_os.Number.{
  strlen_loop, strlen, exchange, strrev_loop, strrev, strcpy_loop, strcpy, digit, put_digits,
  itoa_fuel, itoa_with, itoa,
}
use octave_os.Programs.Support.{
  ece391_strlen_loop, ece391_strlen, ece391_strcpy, ece391_strncmp_loop, ece391_strncmp,
  ece391_strrev_loop, ece391_strrev, ece391_put_digits, ece391_itoa_with, ece391_itoa,
}

strlen_loop_same :
    (f : ℕ) (s : Bytes) (a p len : ℕ)
    → p ≡ a + len
    → ece391_strlen_loop f s p len ≡ strlen_loop f s a len
unfolding ece391_strlen_loop strlen_loop
strlen_loop_same zero s a p len e = refl
strlen_loop_same (suc f) s a p len e =
    let here : s p ≡ s (a + len) = ap s e in
    rw (here, strlen_loop_same f s a (p + 1) (len + 1) (omega arith)) refl

pub strlen_same : (f : ℕ) (s : Bytes) (a : ℕ) → ece391_strlen f s a ≡ strlen f s a
unfolding ece391_strlen strlen
strlen_same f s a = strlen_loop_same f s a a 0 (omega arith)

strcpy_loop_same :
    (f : ℕ) (dest src : Bytes) (a b p q i : ℕ)
    → p ≡ a + i
    → q ≡ b + i
    → ece391_strcpy f dest src p q ≡ strcpy_loop f dest src a b i
unfolding ece391_strcpy strcpy_loop
strcpy_loop_same zero dest src a b p q i e1 e2 = refl
strcpy_loop_same (suc f) dest src a b p q i e1 e2 =
    rw (e1, e2)
      (rw
        (strcpy_loop_same f (update dest (a + i) (src (b + i))) src a b (a + i + 1) (b + i + 1)
          (i + 1) (omega arith) (omega arith))
        (last (src (b + i)) (strcpy_loop f (update dest (a + i) (src (b + i))) src a b (i + 1))))
  where
    last :
        (c : ℕ) (rest : Outcome Bytes)
        → (if c == 0 then done (update dest (a + i) c) else rest)
          ≡ (if c == 0 then done (update dest (a + i) 0) else rest)
    last c rest = elim (Bool-cases (c == 0)) [
      | inl e ↦ let z : c ≡ 0 = ground arith in rw z refl
      | inr e ↦ rw e refl
    ]

pub strcpy_same :
    (f : ℕ) (dest src : Bytes) (a b : ℕ) → ece391_strcpy f dest src a b ≡ strcpy f dest src a b
unfolding strcpy
strcpy_same f dest src a b = strcpy_loop_same f dest src a b a b 0 (omega arith) (omega arith)

strrev_loop_same :
    (f : ℕ) (s : Bytes) (a beg end : ℕ)
    → ece391_strrev_loop f s a beg end ≡ strrev_loop f s a beg end
unfolding ece391_strrev_loop strrev_loop
strrev_loop_same zero s a beg end = refl
strrev_loop_same (suc f) s a beg end =
    rw (strrev_loop_same f (exchange s (a + beg) (a + end)) a (beg + 1) (end - 1)) refl

-- The early return of a string of at most one byte.
strrev_short :
    (s : Bytes) (a len : ℕ)
    → (if leb len 1 then done s else ece391_strrev_loop (len + 1) s a 0 (len - 1))
      ≡ strrev_loop (len + 1) s a 0 (len - 1)
unfolding strrev_loop
strrev_short s a zero = refl
strrev_short s a (suc zero) = refl
strrev_short s a (suc (suc n)) =
    let long : leb (suc (suc n)) 1 ≡ false = ground arith in
    rw long (strrev_loop_same (suc (suc n) + 1) s a 0 (suc (suc n) - 1))

pub strrev_same : (f : ℕ) (s : Bytes) (a : ℕ) → ece391_strrev f s a ≡ strrev f s a
unfolding ece391_strrev strrev
strrev_same f s a = rw (strlen_same f s a) (after (strlen f s a))
  where
    after :
        (o : Outcome ℕ)
        → (o >>= λ len.
            (if leb len 1 then done s else ece391_strrev_loop (len + 1) s a 0 (len - 1)))
          ≡ (o >>= λ len. strrev_loop (len + 1) s a 0 (len - 1))
    after (done len) = strrev_short s a len
    after (fault e) = refl

put_digits_same :
    (f v r : ℕ) (s : Bytes) (i : ℕ) → ece391_put_digits f v r s i ≡ put_digits f v r s i
unfolding ece391_put_digits put_digits
put_digits_same zero v r s i = refl
put_digits_same (suc f) v r s i =
    rw (put_digits_same f (v / r) r (update s i (digit (v % r))) (i + 1)) refl

itoa_with_same : (f v : ℕ) (s : Bytes) (a r : ℕ) → ece391_itoa_with f v s a r ≡ itoa_with f v s a r
unfolding ece391_itoa_with itoa_with
itoa_with_same f v s a r = rw (put_digits_same f v r s a) (ap choose (after (put_digits f v r s a)))
  where
    choose : Outcome Bytes → Outcome Bytes
    choose o = if v == 0 then done (update (update s a b'0') (a + 1) 0) else o

    after :
        (o : Outcome (ℕ × Bytes))
        → (o >>= λ (end, s'). ece391_strrev (f + 1) (update s' end 0) a)
          ≡ (o >>= λ (end, s'). strrev (f + 1) (update s' end 0) a)
    after (done (end, s')) = strrev_same (f + 1) (update s' end 0) a
    after (fault e) = refl

-- The user library's `ece391_itoa` and the kernel's `itoa` come to the same, whatever the number, the
-- memory, the place and the radix: the same memory afterwards, or the same fault, which is a division
-- by zero, a loop that does not end, or, for a digit of 37 or more, the read past the end of the table
-- of the digits.
pub itoa_same : (v : ℕ) (s : Bytes) (a r : ℕ) → ece391_itoa v s a r ≡ itoa v s a r
unfolding ece391_itoa itoa
itoa_same v s a r = itoa_with_same itoa_fuel v s a r

strncmp_loop_same :
    (n : ℕ) (s1 s2 : Bytes) (i : ℕ)
    → IsBytes s1
    → IsBytes s2
    → (ece391_strncmp_loop n s1 s2 i i ≡ 0) ↔ (strncmp_loop s1 s2 i (suc n) ≡ 0)
unfolding ece391_strncmp_loop strncmp_loop
strncmp_loop_same zero s1 s2 i b1 b2 =
    (λ e. ground (arith, b1 i, b2 i), λ e. ground (arith, b1 i, b2 i))
strncmp_loop_same (suc n) s1 s2 i b1 b2 =
    let ih = strncmp_loop_same n s1 s2 (i + 1) b1 b2 in
    (λ e. ground (arith, b1 i, b2 i, ih.0), λ e. ground (arith, b1 i, b2 i, ih.1))

-- `ece391_strncmp` finds two strings equal exactly where the kernel's `strncmp` does, also if it takes
-- their bytes as unsigned where the kernel takes them as signed.
pub strncmp_same :
    (s1 s2 : Bytes) (n : ℕ)
    → IsBytes s1
    → IsBytes s2
    → (ece391_strncmp s1 s2 0 0 n ≡ 0) ↔ (strncmp s1 s2 n ≡ 0)
unfolding ece391_strncmp strncmp strncmp_loop
strncmp_same s1 s2 zero b1 b2 = (λ e. refl, λ e. refl)
strncmp_same s1 s2 (suc n) b1 b2 = strncmp_loop_same n s1 s2 0 b1 b2
