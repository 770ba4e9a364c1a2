-- ===== src/Number.antt =====
-- `strlen`, `strrev`, `strcpy` and `itoa` of student-distrib/lib.c. A pointer is a memory and an
-- address in it; what the code writes is the memory afterwards.
--
-- The loops over a string run until its NUL, so they take fuel. `itoa` writes at most 32 digits and
-- a NUL, for a radix of at least 2.
pub mod Reverse
pub mod Digits
pub mod Itoa
use octave_os.Base.{
  ℕ, zero, suc, ◌+◌, ◌-◌, ◌*◌, ◌/◌, ◌%◌, List, [], ◌∷◌, Bool, ltb, leb, ◌==◌, if◌then◌else◌, get_or,
  update, Outcome, done, fault, out_of_fuel, divide_error, out_of_bounds, ◌>>=◌,
}
use octave_os.Str.{Bytes, codes}

-- `while (s[len] != '\0') len++;`
unfoldable pub strlen_loop : (fuel : ℕ) → Bytes → (a len : ℕ) → Outcome ℕ
strlen_loop zero s a len = fault out_of_fuel
strlen_loop (suc f) s a len =
    let rest = strlen_loop f s a (len + 1) in if s (a + len) == 0 then done len else rest

unfoldable pub strlen : (fuel : ℕ) → Bytes → (a : ℕ) → Outcome ℕ
unfolding strlen_loop
strlen fuel s a = strlen_loop fuel s a 0

-- `s[end]` and `s[beg]` exchanged.
abbrev pub exchange : Bytes → (i j : ℕ) → Bytes
exchange s i j = update (update s j (s i)) i (s j)

-- `while (beg < end)`. For an empty string `end` is -1 in the code, and 0 here; no round is run.
unfoldable pub strrev_loop : (fuel : ℕ) → Bytes → (a beg end : ℕ) → Outcome Bytes
strrev_loop zero s a beg end = fault out_of_fuel
strrev_loop (suc f) s a beg end =
    let rest = strrev_loop f (exchange s (a + beg) (a + end)) a (beg + 1) (end - 1) in
    if ltb beg end then rest else done s

unfoldable pub strrev : (fuel : ℕ) → Bytes → (a : ℕ) → Outcome Bytes
unfolding strlen strrev_loop
strrev fuel s a = strlen fuel s a >>= λ len. strrev_loop (len + 1) s a 0 (len - 1)

-- The loop of `strcpy` at `i`; the NUL is written behind it.
unfoldable pub strcpy_loop : (fuel : ℕ) → (dest src : Bytes) → (a b i : ℕ) → Outcome Bytes
strcpy_loop zero dest src a b i = fault out_of_fuel
strcpy_loop (suc f) dest src a b i =
    let rest = strcpy_loop f (update dest (a + i) (src (b + i))) src a b (i + 1) in
    if src (b + i) == 0 then done (update dest (a + i) 0) else rest

-- `strcpy` between two arrays.
unfoldable pub strcpy : (fuel : ℕ) → (dest src : Bytes) → (a b : ℕ) → Outcome Bytes
unfolding strcpy_loop
strcpy fuel dest src a b = strcpy_loop fuel dest src a b 0

abbrev pub lookup : List ℕ
lookup = codes "0123456789ABCDEFGHIJKLMNOPQRSTUVWXYZ"

-- The bytes of `lookup`, its NUL among them.
abbrev pub lookup_size : ℕ
lookup_size = 37

-- `lookup[i]`, inside the array.
unfoldable pub digit : ℕ → ℕ
digit i = get_or lookup i 0

-- `while (newval > 0)`, writing at `i`: where it stops, and the memory.
unfoldable pub put_digits : (fuel newval radix : ℕ) → Bytes → (i : ℕ) → Outcome (ℕ × Bytes)
unfolding digit
put_digits zero v r s i = fault out_of_fuel
put_digits (suc f) v r s i =
    let rest = put_digits f (v / r) r (update s i (digit (v % r))) (i + 1) in
    if v == 0
    then done (i, s)
    else if r == 0
    then fault divide_error
    else if leb lookup_size (v % r)
    then fault out_of_bounds
    else rest

abbrev pub itoa_fuel : ℕ
itoa_fuel = 33

-- `itoa` with fuel for the digits; the string is one byte longer.
unfoldable pub itoa_with : (fuel value : ℕ) → Bytes → (a radix : ℕ) → Outcome Bytes
unfolding put_digits strrev
itoa_with fuel value s a r =
    let run = put_digits fuel value r s a >>= λ (end, s'). strrev (fuel + 1) (update s' end 0) a in
    if value == 0 then done (update (update s a b'0') (a + 1) 0) else run

unfoldable pub itoa : (value : ℕ) → Bytes → (a radix : ℕ) → Outcome Bytes
itoa value s a r = itoa_with itoa_fuel value s a r
