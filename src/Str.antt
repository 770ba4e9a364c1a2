-- ===== src/Str.antt =====
-- The string functions of student-distrib/lib.c. A `const int8_t*` is the function that gives the
-- byte at each distance from it, and a byte is a number below 256. `strncpy`, which writes through
-- its first pointer, returns what the pointer shows afterwards.
pub mod Compare
pub mod Copy
use Prim.Native.Char.{code}
use Prim.Native.String.{String}
use octave_os.Base.{
  get_or, ℕ, zero, suc, ◌+◌, ◌-◌, ◌<◌, List, [], ◌∷◌, Bool, not, ◌||◌, ltb, ◌==◌, if◌then◌else◌,
  sub32, word_mod, update,
}

abbrev pub Bytes : Type 0
Bytes = ℕ → ℕ

-- The bytes of a literal of the program.
abbrev pub codes : String → List ℕ
codes String.[] = []
codes (String.◌∷◌ c s) = code c ∷ codes s

-- A string, given by the bytes before its NUL, as a `const int8_t*`.
abbrev pub as_bytes : List ℕ → Bytes
as_bytes s i = get_or s i 0

-- A `char` as an `int`: an `int8_t` is signed.
abbrev pub sign_extend : ℕ → ℕ
sign_extend c = if ltb c 128 then c else word_mod - 256 + c

-- The loop at `i`, with `k` rounds left of `n`.
unfoldable pub strncmp_loop : Bytes → Bytes → ℕ → ℕ → ℕ
strncmp_loop s1 s2 i zero = 0
strncmp_loop s1 s2 i (suc k) =
    let rest = strncmp_loop s1 s2 (i + 1) k in
    if not (s1 i == s2 i) || (s1 i == 0)
    then sub32 (sign_extend (s1 i)) (sign_extend (s2 i))
    else rest

unfoldable pub strncmp : Bytes → Bytes → ℕ → ℕ
unfolding strncmp_loop
strncmp s1 s2 n = strncmp_loop s1 s2 0 n

-- The second loop of `strncpy`, which fills up with zeros.
strncpy_pad : Bytes → ℕ → ℕ → Bytes
strncpy_pad dest i zero = dest
strncpy_pad dest i (suc k) = strncpy_pad (update dest i 0) (i + 1) k

-- The first loop. `k` is the number of rounds left, `n - i`.
strncpy_loop : Bytes → Bytes → ℕ → ℕ → Bytes
strncpy_loop dest src i zero = dest
strncpy_loop dest src i (suc k) =
    let rest = strncpy_loop (update dest i (src i)) src (i + 1) k in
    if src i == 0 then strncpy_pad dest i (suc k) else rest

unfoldable pub strncpy : Bytes → Bytes → ℕ → Bytes
unfolding strncpy_loop strncpy_pad
strncpy dest src n = strncpy_loop dest src 0 n

-- The text at a pointer, read up to `k` bytes from `i` on: what C's string functions look at.
unfoldable pub text_from : Bytes → ℕ → ℕ → List ℕ
text_from s i zero = []
text_from s i (suc k) = let rest = text_from s (i + 1) k in if s i == 0 then [] else s i ∷ rest

abbrev pub text : Bytes → ℕ → List ℕ
text s n = text_from s 0 n
