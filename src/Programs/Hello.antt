-- ===== src/Programs/Hello.antt =====
-- `main` of syscalls/ece391hello.c and syscalls/ece391testprint.c.
use octave_os.Base.{ℕ, List, [], ◌∷◌, Bool, ◌==◌, if◌then◌else◌, minus_one, Outcome, done, ◌>>=◌}
use octave_os.Str.{codes}
use octave_os.Kernel.{Kernel}
use octave_os.Syscalls.{system_read}
use octave_os.Programs.{fdputs, leave, before_nul}
pub mod Greets

-- A NUL is put behind the line that was read.
unfoldable pub hello : (inb n buf : ℕ) → Kernel → Outcome (ℕ × Kernel)
unfolding fdputs leave before_nul
hello inb n buf k = fdputs inb 1 (codes "Hi, what's your name? ") k >>= λ k1.
    system_read n 0 buf 1023 k1 >>= λ (cnt, out, k2).
    (let failed = leave inb (codes "Can't read name from keyboard.\n") 3 k2 in
      let greeted = fdputs inb 1 (codes "Hello, ") k2 >>= λ k3. leave inb (before_nul out) 0 k3 in
      if cnt == minus_one then failed else greeted)

unfoldable pub testprint : (inb : ℕ) → Kernel → Outcome (ℕ × Kernel)
unfolding leave
testprint inb k = leave inb (codes "Hello, if this ran, the program was correct. Yay!\n") 0 k
