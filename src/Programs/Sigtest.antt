-- ===== src/Programs/Sigtest.antt =====
-- `main` of syscalls/ece391sigtest.c and its second handler; this kernel calls none.
--
-- `badbuf` is the null pointer: where the store through it goes is up to the page tables, `table_1`
-- being the address of the second. Where they do not let the program write at 0 it ends in the kernel's
-- handler of the page fault. Physical memory is the screen's `mem`; the program's own is not a part of
-- it, and `charbuf` is 0 there, since only the handler has the store go to it.
use octave_os.Base.{
  ℕ, List, [], ◌∷◌, ◌++◌, Option, none, some, not, ◌==◌, if◌then◌else◌, get_or, minus_one, Outcome,
  done, ◌>>=◌, Bool, nonzero, ◌&&◌, ◌||◌, ◌/◌, ◌^◌, update,
}
use octave_os.Str.{codes}
use octave_os.Kernel.{PageEntry, Kernel}
use octave_os.Paging.Maps.{translate}
use octave_os.Idt.{page_fault, exception}
use octave_os.Process.{system_getargs, system_set_handler}
use octave_os.Syscalls.{system_read}
use octave_os.Programs.{fdputs, leave, before_nul}
pub mod Faults

abbrev pub segfault : ℕ
segfault = 1

abbrev pub alarm : ℕ
alarm = 3

-- How the program ends: it returns, or the kernel loops in the handler of an exception.
pub data Sigtest : Type 0 where
  returned : ℕ → Sigtest
  faulted : Sigtest

-- An entry of the directory or of a table that lets a user program write.
abbrev pub lets_write : PageEntry → Bool
lets_write e = nonzero e.u_s && nonzero e.r_w

-- The physical address of the store at address 0, where the processor allows it.
unfoldable pub null_store : (table_1 : ℕ) → Kernel → Option ℕ
null_store table_1 k =
    let pde = k.page_directory 0 in
    let pte = if pde.address_20 == table_1 / 2 ^ 12 then k.page_table_1 0 else k.page_table_0 0 in
    if lets_write pde && (nonzero pde.ps || lets_write pte) then translate table_1 k 0 else none

module _ (inb n buf table_1 : ℕ) where
  -- `(*badbuf) = 1` and what follows it, on the name read.
  unfoldable pub greet : (name : List ℕ) → Option ℕ → Kernel → Outcome (Sigtest × Kernel)
  unfolding fdputs exception
  greet name none k = done (faulted, exception page_fault k)
  greet name (some a) k =
      let stored = record k { screen = record k.screen { mem = update k.screen.mem a 1 } } in
      fdputs inb 1 (codes "Hello, ") stored
      >>= fdputs inb 1 name
      >>= fdputs inb 1 (codes "failure\n")
      >>= λ k1. done (returned 0, k1)

  -- The part behind the handlers.
  unfoldable pub ask_name : Kernel → Outcome (Sigtest × Kernel)
  unfolding fdputs leave greet null_store before_nul
  ask_name k = fdputs inb 1 (codes "Hi, what's your name? ") k >>= λ k1.
      system_read n 0 buf 1023 k1 >>= λ (cnt, out, k2).
      (let failed = leave inb (codes "Can't read name from keyboard.\n") 3 k2 >>= λ (r, k3).
      done (returned r, k3) in
        let greeted = greet (before_nul out) (null_store table_1 k2) k2 in
        if cnt == minus_one then failed else greeted)

  -- The handlers are installed if the argument begins with a 1.
  unfoldable pub install : List ℕ → Kernel → Outcome Kernel
  unfolding fdputs system_set_handler
  install args k =
      let installed = fdputs inb 1 (codes "Installing signal handlers\n") k >>= λ k1.
      done (system_set_handler alarm (system_set_handler segfault k1).1).1 in
      if get_or args 0 0 == b'1' then installed else done k

  unfoldable pub sigtest : Kernel → Outcome (Sigtest × Kernel)
  unfolding install ask_name leave
  sigtest k =
      let (r, args) = system_getargs 1024 k in
      let failed =
        leave inb (codes "could not read argument\n") 3 k >>= λ (s, k1). done (returned s, k1) in
      let run = install args k >>= ask_name in if not (r == 0) then failed else run

  -- The `switch (signum)` of both handlers.
  unfoldable pub signum_text : (signum : ℕ) → List ℕ
  signum_text signum =
      if signum == 0
      then codes "0\n"
      else if signum == 1
      then codes "1\n"
      else if signum == 2
      then codes "2\n"
      else if signum == 3
      then codes "3\n"
      else codes "invalid\n"

  unfoldable pub alarm_sighandler : (signum : ℕ) → Kernel → Outcome Kernel
  unfolding fdputs signum_text
  alarm_sighandler signum k =
      fdputs inb 1 (codes "Alarm signal handler called, signum: ") k
      >>= fdputs inb 1 (signum_text signum)
