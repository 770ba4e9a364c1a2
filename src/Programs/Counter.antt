-- ===== src/Programs/Counter.antt =====
-- `main` of syscalls/ece391counter.c.
use octave_os.Base.{
  ℕ, zero, suc, ◌+◌, List, [], ◌∷◌, Bool, ◌||◌, ◌&&◌, ltb, ◌==◌, if◌then◌else◌, get_or, length,
  minus_one, Outcome, done, ◌>>=◌,
}
use octave_os.Str.{Bytes, codes, as_bytes, text_from}
use octave_os.Kernel.{Kernel}
use octave_os.Syscalls.{system_read}
use octave_os.Programs.{fdputs, leave, before_nul}
use octave_os.Programs.Support.{ece391_itoa}
pub mod Counts

-- The string at the start of the array of 1024.
abbrev pub buf_text : Bytes → List ℕ
buf_text buf = text_from buf 0 1024

-- `for (i = 0; i < max; i++)` at `i`, with `m` rounds left, on the array's bytes.
unfoldable pub count_loop : (inb : ℕ) → (m i : ℕ) → Bytes → Kernel → Outcome Kernel
unfolding fdputs
count_loop inb zero i s k = done k
count_loop inb (suc m) i s k = ece391_itoa (i + 1) s 0 10 >>= λ s'.
    fdputs inb 1 (buf_text s') k >>= λ k1.
    fdputs inb 1 (10 ∷ []) k1 >>= λ k2. count_loop inb m (i + 1) s' k2

-- The `switch`; `max` is 0 before it.
abbrev pub choice : (c : ℕ) → ℕ
choice c = if c == b'0' then 100 else if c == b'1' then 10000 else if c == b'2' then 100000 else 0

-- The test of the line's length and of its first byte.
abbrev pub is_wrong : List ℕ → Bool
is_wrong s =
    ltb 2 (length s) || ((length s == 2) && (ltb (get_or s 0 0) b'0' || ltb b'2' (get_or s 0 0)))

-- A NUL is put behind the line that was read.
unfoldable pub counter : (inb n buf : ℕ) → Kernel → Outcome (ℕ × Kernel)
unfolding fdputs leave before_nul count_loop
counter inb n buf k =
    fdputs inb 1 (codes "Enter the Test Number: (0): 100, (1): 10000, (2): 100000\n") k >>= λ k1.
    system_read n 0 buf 1023 k1 >>= λ (cnt, out, k2).
    (let failed = leave inb (codes "Can't read the number from keyboard.\n") 3 k2 in
      let wrong = leave inb (codes "Wrong Choice!\n") 0 k2 in
      let s = before_nul out in
      let counted =
        count_loop inb (choice (get_or s 0 0)) 0 (as_bytes out) k2 >>= λ k3. done (0, k3) in
      if cnt == minus_one then failed else if is_wrong s then wrong else counted)
