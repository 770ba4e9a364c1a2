-- ===== src/Str/Copy.antt =====
-- `strncpy` of student-distrib/lib.c: the text arrives, the rest of the buffer is zero, and nothing
-- else is written.
use octave_os.Base.{ℕ, zero, suc, ◌+◌, ◌≡◌, ◌&&◌, arith, ltb, leb, if◌then◌else◌, update, length}
use octave_os.Str.{Bytes, strncpy_pad, strncpy_loop, strncpy, text_from, text}

strncpy_pad_lem :
    (dest : Bytes) (i k j : ℕ)
    → strncpy_pad dest i k j ≡ (if leb i j && ltb j (i + k) then 0 else dest j)
unfolding strncpy_pad
strncpy_pad_lem dest i zero j = ground arith
strncpy_pad_lem dest i (suc k) j = ground (arith, strncpy_pad_lem (update dest i 0) (i + 1) k j)

-- The byte that a copy of the text from `i` on, `k` bytes wide, leaves at `j`.
abbrev copied : Bytes → Bytes → ℕ → ℕ → ℕ → ℕ
copied dest src i k j =
    if leb i j && ltb j (i + k)
    then (if ltb j (i + length (text_from src i k)) then src j else 0)
    else dest j

strncpy_loop_lem :
    (dest src : Bytes) (i k j : ℕ) → strncpy_loop dest src i k j ≡ copied dest src i k j
unfolding strncpy_loop text_from
strncpy_loop_lem dest src i zero j = ground arith
strncpy_loop_lem dest src i (suc k) j = ground (
  arith,
  strncpy_pad_lem dest i (suc k) j,
  strncpy_loop_lem (update dest i (src i)) src (i + 1) k j,
)

-- After `strncpy` of `n` bytes the buffer holds the source's text, read up to its NUL or to `n`
-- bytes, then zeros up to `n`, and past `n` what it held before.
pub strncpy_lem :
    (dest src : Bytes) (n j : ℕ)
    → strncpy dest src n j
      ≡ (if ltb j n then (if ltb j (length (text src n)) then src j else 0) else dest j)
unfolding strncpy
strncpy_lem dest src n j = ground (arith, strncpy_loop_lem dest src 0 n j)
