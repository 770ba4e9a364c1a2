-- ===== src/Programs/Support.antt =====
-- The library of the user programs, syscalls/ece391support.c.
use octave_os.Base.{
  ℕ, zero, suc, ◌+◌, ◌-◌, ◌*◌, ◌/◌, ◌%◌, List, [], ◌∷◌, Bool, not, ◌||◌, ltb, leb, ◌==◌,
  if◌then◌else◌, update, Outcome, done, fault, out_of_fuel, divide_error, out_of_bounds, ◌>>=◌,
  sub32,
}
use octave_os.Str.{Bytes}
use octave_os.Number.{digit, lookup_size, exchange}
pub mod Same

-- `for (len = 0; '\0' != *s; s++, len++)`
unfoldable pub ece391_strlen_loop : (fuel : ℕ) → Bytes → (p len : ℕ) → Outcome ℕ
ece391_strlen_loop zero s p len = fault out_of_fuel
ece391_strlen_loop (suc f) s p len =
    let rest = ece391_strlen_loop f s (p + 1) (len + 1) in if s p == 0 then done len else rest

unfoldable pub ece391_strlen : (fuel : ℕ) → Bytes → (a : ℕ) → Outcome ℕ
unfolding ece391_strlen_loop
ece391_strlen fuel s a = ece391_strlen_loop fuel s a 0

-- `while ('\0' != (*dst++ = *src++));` between two arrays
unfoldable pub ece391_strcpy : (fuel : ℕ) → (dest src : Bytes) → (a b : ℕ) → Outcome Bytes
ece391_strcpy zero dest src a b = fault out_of_fuel
ece391_strcpy (suc f) dest src a b =
    let dest' = update dest a (src b) in
    let rest = ece391_strcpy f dest' src (a + 1) (b + 1) in if src b == 0 then done dest' else rest

unfoldable pub ece391_strcmp : (fuel : ℕ) → (s1 s2 : Bytes) → (a b : ℕ) → Outcome ℕ
ece391_strcmp zero s1 s2 a b = fault out_of_fuel
ece391_strcmp (suc f) s1 s2 a b =
    let rest = ece391_strcmp f s1 s2 (a + 1) (b + 1) in
    if s1 a == s2 b then (if s1 a == 0 then done 0 else rest) else done (sub32 (s1 a) (s2 b))

-- The loop of `ece391_strncmp` with `n + 1` bytes left.
unfoldable pub ece391_strncmp_loop : (n : ℕ) → (s1 s2 : Bytes) → (a b : ℕ) → ℕ
ece391_strncmp_loop zero s1 s2 a b = if s1 a == s2 b then 0 else sub32 (s1 a) (s2 b)
ece391_strncmp_loop (suc n) s1 s2 a b =
    let rest = ece391_strncmp_loop n s1 s2 (a + 1) (b + 1) in
    if s1 a == s2 b then (if s1 a == 0 then 0 else rest) else sub32 (s1 a) (s2 b)

unfoldable pub ece391_strncmp : (s1 s2 : Bytes) → (a b n : ℕ) → ℕ
unfolding ece391_strncmp_loop
ece391_strncmp s1 s2 a b zero = 0
ece391_strncmp s1 s2 a b (suc n) = ece391_strncmp_loop n s1 s2 a b

-- `while (beg < end)`
unfoldable pub ece391_strrev_loop : (fuel : ℕ) → Bytes → (a beg end : ℕ) → Outcome Bytes
ece391_strrev_loop zero s a beg end = fault out_of_fuel
ece391_strrev_loop (suc f) s a beg end =
    let rest = ece391_strrev_loop f (exchange s (a + beg) (a + end)) a (beg + 1) (end - 1) in
    if ltb beg end then rest else done s

-- `end <= 0` is a length of at most 1.
unfoldable pub ece391_strrev : (fuel : ℕ) → Bytes → (a : ℕ) → Outcome Bytes
unfolding ece391_strlen ece391_strrev_loop
ece391_strrev fuel s a = ece391_strlen fuel s a >>= λ len.
    (if leb len 1 then done s else ece391_strrev_loop (len + 1) s a 0 (len - 1))

-- `while (newval > 0)`, writing at `i`.
unfoldable pub ece391_put_digits : (fuel newval radix : ℕ) → Bytes → (i : ℕ) → Outcome (ℕ × Bytes)
unfolding digit
ece391_put_digits zero v r s i = fault out_of_fuel
ece391_put_digits (suc f) v r s i =
    let rest = ece391_put_digits f (v / r) r (update s i (digit (v % r))) (i + 1) in
    if v == 0
    then done (i, s)
    else if r == 0
    then fault divide_error
    else if leb lookup_size (v % r)
    then fault out_of_bounds
    else rest

unfoldable pub ece391_itoa_with : (fuel value : ℕ) → Bytes → (a radix : ℕ) → Outcome Bytes
unfolding ece391_put_digits ece391_strrev
ece391_itoa_with fuel value s a r =
    let run = ece391_put_digits fuel value r s a >>= λ (end, s').
    ece391_strrev (fuel + 1) (update s' end 0) a in
    if value == 0 then done (update (update s a b'0') (a + 1) 0) else run

unfoldable pub ece391_itoa : (value : ℕ) → Bytes → (a radix : ℕ) → Outcome Bytes
ece391_itoa value s a r = ece391_itoa_with 33 value s a r
