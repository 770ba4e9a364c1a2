-- ===== src/Programs/Ls.antt =====
-- `main` of syscalls/ece391ls.c.
use octave_os.Base.{
  ℕ, zero, suc, ◌+◌, List, [], ◌∷◌, ◌++◌, some, Bool, ◌==◌, if◌then◌else◌, minus_one, Outcome, done,
  fault, out_of_fuel, ◌>>=◌,
}
use octave_os.Str.{codes, as_bytes}
use octave_os.Kernel.{Kernel}
use octave_os.Syscalls.{system_open, system_read, system_write}
use octave_os.Programs.{leave}
pub mod Lists

module _ (inb n buf : ℕ) where
  -- The `while`, on the descriptor of the directory. The line break stands behind the bytes read.
  unfoldable pub ls_loop : (fuel fd : ℕ) → Kernel → Outcome (ℕ × Kernel)
  unfolding leave
  ls_loop zero fd k = fault out_of_fuel
  ls_loop (suc f) fd k = system_read n fd buf 32 k >>= λ (cnt, out, k1).
      (let failed = leave inb (codes "directory entry read failed\n") 3 k1 in
        let written =
          system_write inb 1 (some (as_bytes (out ++ (10 ∷ [])))) (cnt + 1) k1 >>= λ (r, k2).
          (let rest = ls_loop f fd k2 in if r == minus_one then done (3, k2) else rest) in
        if cnt == 0 then done (0, k1) else if cnt == minus_one then failed else written)

  unfoldable pub ls : (fuel : ℕ) → Kernel → Outcome (ℕ × Kernel)
  unfolding ls_loop leave
  ls fuel k =
      let (fd, k1) = system_open inb (codes ".") k in
      let failed = leave inb (codes "directory open failed\n") 2 k1 in
      let listed = ls_loop fuel fd k1 in if fd == minus_one then failed else listed
