-- ===== src/Str/Compare.antt =====
-- `strncmp` of student-distrib/lib.c against the texts that it compares.
use octave_os.Base.{ℕ, zero, suc, ◌+◌, ◌<◌, ◌≡◌, refl, ◌↔◌, arith}
use octave_os.Str.{Bytes, strncmp_loop, strncmp, text_from, text}

abbrev pub IsBytes : Bytes → Type 0
IsBytes s = (i : ℕ) → s i < 256

strncmp_loop_lem :
    (s1 s2 : Bytes) (i k : ℕ)
    → IsBytes s1
    → IsBytes s2
    → (strncmp_loop s1 s2 i k ≡ 0) ↔ (text_from s1 i k ≡ text_from s2 i k)
unfolding strncmp_loop text_from
strncmp_loop_lem s1 s2 i zero b1 b2 = (λ e. refl, λ e. refl)
strncmp_loop_lem s1 s2 i (suc k) b1 b2 = (
  λ e. ground (arith, b1 i, b2 i, (strncmp_loop_lem s1 s2 (i + 1) k b1 b2).0),
  λ e. ground (arith, b1 i, b2 i, (strncmp_loop_lem s1 s2 (i + 1) k b1 b2).1),
)

-- `strncmp` returns 0 exactly when the two texts, each read up to its NUL or to `n` bytes, are the
-- same.
pub strncmp-eq_iff :
    (s1 s2 : Bytes) (n : ℕ)
    → IsBytes s1
    → IsBytes s2
    → (strncmp s1 s2 n ≡ 0) ↔ (text s1 n ≡ text s2 n)
unfolding strncmp
strncmp-eq_iff s1 s2 n b1 b2 = strncmp_loop_lem s1 s2 0 n b1 b2
