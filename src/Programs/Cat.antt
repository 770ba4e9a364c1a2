-- ===== src/Programs/Cat.antt =====
-- `main` of syscalls/ece391cat.c.
use octave_os.Base.{
  ℕ, zero, suc, ◌+◌, List, [], ◌∷◌, ◌++◌, some, Bool, not, ◌==◌, if◌then◌else◌, minus_one, Outcome,
  done, fault, out_of_fuel, out_of_bounds, ◌>>=◌,
}
use octave_os.Str.{codes, as_bytes}
use octave_os.Kernel.{Kernel}
use octave_os.Process.{system_getargs}
use octave_os.Syscalls.{system_open, system_read, system_write}
use octave_os.Programs.{leave}
pub mod Reads
pub mod Copies

-- The string at the start of an array; without a NUL it runs into bytes that nothing has written.
unfoldable pub c_string : List ℕ → Outcome (List ℕ)
c_string [] = fault out_of_bounds
c_string (c ∷ cs) = let rest = c_string cs >>= λ s. done (c ∷ s) in if c == 0 then done [] else rest

module _ (inb n buf : ℕ) where
  -- The `while`, on the descriptor of the file.
  unfoldable pub cat_loop : (fuel fd : ℕ) → Kernel → Outcome (ℕ × Kernel)
  unfolding leave
  cat_loop zero fd k = fault out_of_fuel
  cat_loop (suc f) fd k = system_read n fd buf 1024 k >>= λ (cnt, out, k1).
      (let failed = leave inb (codes "file read failed\n") 3 k1 in
        let written = system_write inb 1 (some (as_bytes out)) cnt k1 >>= λ (r, k2).
        (let rest = cat_loop f fd k2 in if r == minus_one then done (3, k2) else rest) in
        if cnt == 0 then done (0, k1) else if cnt == minus_one then failed else written)

  -- The part behind the arguments.
  unfoldable pub cat_file : (fuel : ℕ) → (name : List ℕ) → Kernel → Outcome (ℕ × Kernel)
  unfolding cat_loop leave
  cat_file fuel name k =
      let (fd, k1) = system_open inb name k in
      let failed = leave inb (codes "file not found\n") 2 k1 in
      let copied = cat_loop fuel fd k1 in if fd == minus_one then failed else copied

  unfoldable pub cat : (fuel : ℕ) → Kernel → Outcome (ℕ × Kernel)
  unfolding cat_file c_string leave
  cat fuel k =
      let (r, args) = system_getargs 1024 k in
      let failed = leave inb (codes "could not read arguments\n") 3 k in
      let run = c_string args >>= λ name. cat_file fuel name k in
      if not (r == 0) then failed else run
