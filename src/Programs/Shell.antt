-- ===== src/Programs/Shell.antt =====
-- `main` of syscalls/ece391shell.c.
--
-- What the execution of a command comes to is a parameter: the other process runs in between.
use octave_os.Base.{
  ℕ, zero, suc, ◌+◌, List, [], ◌∷◌, Bool, ◌==◌, if◌then◌else◌, get_or, length, minus_one, Outcome,
  done, fault, out_of_fuel, ◌>>=◌,
}
use octave_os.Str.{codes, as_bytes}
use octave_os.Kernel.{Kernel}
use octave_os.Syscalls.{system_read}
use octave_os.Programs.{fdputs, leave, before_nul}
use octave_os.Programs.Support.{ece391_strcmp}
pub mod Commands

-- The bytes read without a line break at their end.
unfoldable pub without_break : List ℕ → List ℕ
without_break [] = []
without_break (c ∷ []) = if c == 10 then [] else c ∷ []
without_break (c ∷ d ∷ cs) = c ∷ without_break (d ∷ cs)

-- The three messages on what `ece391_execute` returned.
unfoldable pub report : (inb rval : ℕ) → Kernel → Outcome Kernel
unfolding fdputs
report inb rval k =
    let unknown = fdputs inb 1 (codes "no such command\n") k in
    let exception = fdputs inb 1 (codes "program terminated by exception\n") k in
    let abnormal = fdputs inb 1 (codes "program terminated abnormally\n") k in
    if rval == minus_one
    then unknown
    else if rval == 256
    then exception
    else if rval == 0
    then done k
    else abnormal

module _ (inb n buf : ℕ) (execute : List ℕ → Kernel → Outcome (ℕ × Kernel)) where
  -- The body of the `while` behind the read, on the command; `again` is the next round.
  unfoldable pub run_command :
      (again : Kernel → Outcome (ℕ × Kernel)) → List ℕ → Kernel → Outcome (ℕ × Kernel)
  unfolding report ece391_strcmp
  run_command again command k =
      let run = execute command k >>= λ (rval, k1). report inb rval k1 >>= λ k2. again k2 in
      ece391_strcmp (length command + 1) (as_bytes command) (as_bytes (codes "exit")) 0 0 >>= λ c.
      (if c == 0 then done (0, k) else if get_or command 0 0 == 0 then again k else run)

  unfoldable pub shell_loop : (fuel : ℕ) → Kernel → Outcome (ℕ × Kernel)
  unfolding fdputs leave run_command before_nul without_break
  shell_loop zero k = fault out_of_fuel
  shell_loop (suc f) k = fdputs inb 1 (codes "391OS> ") k >>= λ k1.
      system_read n 0 buf 1023 k1 >>= λ (cnt, out, k2).
      (let failed = leave inb (codes "read from keyboard failed\n") 3 k2 in
        let run = run_command (shell_loop f) (before_nul (without_break out)) k2 in
        if cnt == minus_one then failed else run)

  unfoldable pub shell : (fuel : ℕ) → Kernel → Outcome (ℕ × Kernel)
  unfolding fdputs shell_loop
  shell fuel k = fdputs inb 1 (codes "Starting 391 Shell\n") k >>= λ k1. shell_loop fuel k1
