-- ===== src/Programs.antt =====
-- The user programs of syscalls/, each as a run of `main` on the kernel's state: what it returns to
-- `_start`, which halts with that value, and the state in which it does.
--
-- A program runs alone: between its calls nothing else changes the state. `inb` is what the clock's
-- port answers and `n` the number of the clock's interrupts during a read. A local array is its
-- address `buf` for the kernel; a string is the bytes before its NUL.
use octave_os.Base.{
  ℕ, zero, suc, List, [], ◌∷◌, some, Bool, ◌&&◌, ◌==◌, if◌then◌else◌, length, minus_one, ltb_signed,
  leb_signed, Outcome, done, fault, ◌>>=◌, nonzero,
}
use octave_os.Str.{Bytes, as_bytes}
use octave_os.Kernel.{Kernel}
use octave_os.Syscalls.{system_write}
pub mod Support
pub mod Output
pub mod Input
pub mod Hello
pub mod Counter
pub mod Cat
pub mod Ls
pub mod Shell
pub mod Syserr
pub mod Emulate
pub mod Grep
pub mod Pingpong
pub mod Sigtest

-- `ece391_fdputs`
unfoldable pub fdputs : (inb fd : ℕ) → List ℕ → Kernel → Outcome Kernel
fdputs inb fd s k = system_write inb fd (some (as_bytes s)) (length s) k >>= λ (r, k'). done k'

-- An `fdputs` to the screen behind which `main` returns.
unfoldable pub leave : (inb : ℕ) → List ℕ → (status : ℕ) → Kernel → Outcome (ℕ × Kernel)
unfolding fdputs
leave inb s status k = fdputs inb 1 s k >>= λ k'. done (status, k')

-- The bytes of an array before its first 0.
unfoldable pub before_nul : List ℕ → List ℕ
before_nul [] = []
before_nul (c ∷ cs) = let rest = before_nul cs in if c == 0 then [] else c ∷ rest

-- `int $0x80`: the call whose number is in `eax`, through `system_table`, which has 10 of them.
unfoldable pub system_handler :
    (system_table : ℕ → Kernel → Outcome (ℕ × Kernel)) → (eax : ℕ) → Kernel → Outcome (ℕ × Kernel)
system_handler system_table eax k =
    if leb_signed eax 10 && ltb_signed 0 eax then system_table eax k else done (minus_one, k)
