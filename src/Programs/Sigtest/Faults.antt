-- ===== src/Programs/Sigtest/Faults.antt =====
-- How syscalls/ece391sigtest.c ends on this kernel.
use octave_os.Base.{
  ℕ, ◌≡◌, ◌∙◌, refl, sym, ap, arith, List, [], false, ◌==◌, if◌then◌else◌, get_or, minus_one,
  Outcome, done, ◌>>=◌, Bool-cases, inl, inr, ◌≢◌, ◌/◌, ◌^◌, none, Option, Bool, true, ◌&&◌,
}
use octave_os.Str.{codes}
use octave_os.Console.{puts}
use octave_os.Kernel.{Kernel, print}
use octave_os.Idt.{exception, exception_text}
use octave_os.Process.{system_getargs, system_set_handler}
use octave_os.Terminal.{line_taken}
use octave_os.Terminal.Line.{reader}
use octave_os.Syscalls.{system_read}
use octave_os.Programs.{leave, before_nul}
use octave_os.Paging.{init_paging, map_video}
use octave_os.Paging.Maps.{not_present}
use octave_os.Keyboard.Line.{line}
use octave_os.Programs.Output.{HasScreen, HasScreen-print, fdputs-text, without_nuls}
use octave_os.Programs.Input.{HasLine, HasLine-print, system_read-line}
use octave_os.Programs.Sigtest.{
  Sigtest, returned, faulted, lets_write, null_store, greet, ask_name, install, sigtest,
}

abbrev question : List ℕ
question = codes "Hi, what's your name? "

-- What is printed about the handlers.
abbrev pub notice : Kernel → List ℕ
notice k =
    if get_or (system_getargs 1024 k).1 0 0 == b'1'
    then codes "Installing signal handlers\n"
    else []

print-nothing : (k : Kernel) → print [] k ≡ k
unfolding puts
print-nothing k = refl

install-notice :
    (inb n buf table_1 : ℕ) (k : Kernel)
    → HasScreen k
    → install inb n buf table_1 (system_getargs 1024 k).1 k ≡ done (print (notice k) k)
unfolding install system_set_handler without_nuls
install-notice inb n buf table_1 k s =
    elim (Bool-cases (get_or (system_getargs 1024 k).1 0 0 == b'1')) [
      | inl one ↦ rw one (
          ap (λ o. o >>= λ k1. done (system_set_handler 3 (system_set_handler 1 k1).1).1)
            (fdputs-text inb (codes "Installing signal handlers\n") k s (omega arith) refl))
      | inr other ↦ rw other (ap done (sym (print-nothing k)))
    ]

getargs-zero : (k : Kernel) → (system_getargs 1024 k).0 ≡ 0
unfolding system_getargs
getargs-zero k = refl

-- The first page of memory as `init_paging` leaves it: the directory's first entry leads to the first
-- table, where its page is not present.
pub record IsNullUnmapped (table_1 : ℕ) (k : Kernel) : Type 0 where
  pub not_big : (k.page_directory 0).ps ≡ 0
  pub first_table : (k.page_directory 0).address_20 ≢ table_1 / 2 ^ 12
  pub absent : (k.page_table_0 0).p ≡ 0

pub init_paging-IsNullUnmapped :
    (table_0 table_1 : ℕ) (k : Kernel)
    → table_0 / 2 ^ 12 ≢ table_1 / 2 ^ 12
    → IsNullUnmapped table_1 (init_paging table_0 k)
unfolding init_paging map_video
init_paging-IsNullUnmapped table_0 table_1 k differ = record {
  not_big = refl;
  first_table = differ;
  absent = refl;
}

null_store-none :
    (table_1 : ℕ) (k : Kernel) → IsNullUnmapped table_1 k → null_store table_1 k ≡ none
unfolding null_store
null_store-none table_1 k u =
    let table : ((k.page_directory 0).address_20 == table_1 / 2 ^ 12) ≡ false =
      ground (arith, u.first_table) in
    rw (table, u.not_big, u.absent)
      (same (lets_write (k.page_directory 0) && lets_write (k.page_table_0 0))
        (not_present (k.page_directory 0)) none)
  where
    same : (s t : Bool) (o : Option ℕ) → (if s then (if t then o else o) else o) ≡ o
    same true true o = refl
    same true false o = refl
    same false t o = refl

ask_name-faults :
    (inb n buf table_1 : ℕ) (k : Kernel)
    → HasScreen k
    → HasLine k
    → IsNullUnmapped table_1 k
    → ask_name inb n buf table_1 k
      ≡ done (faulted, print (codes "page_fault") (line_taken (print question k)))
unfolding ask_name greet exception exception_text without_nuls
ask_name-faults inb n buf table_1 k s l u =
    let k1 = print question k in
    let l1 = HasLine-print question k l in
    let small : ((reader k1).buflen == minus_one) ≡ false = ground (arith, l1.fits) in
    ap (λ o. o >>= λ k1. system_read n 0 buf 1023 k1 >>= λ r. answered r)
      (fdputs-text inb question k s (omega arith) refl)
    ∙ ap (λ o. o >>= λ r. answered r) (system_read-line n buf k1 l1)
    ∙ rw small (
        ap (λ o. greet inb n buf table_1 (before_nul (line (reader k1))) o (line_taken k1))
          (null_store-none table_1 (line_taken k1)
            (record { not_big = u.not_big; first_table = u.first_table; absent = u.absent })))
  where
    answered : ℕ × List ℕ × Kernel → Outcome (Sigtest × Kernel)
    answered (cnt, out, k2) =
        let failed = leave inb (codes "Can't read name from keyboard.\n") 3 k2 >>= λ (r, k3).
        done (returned r, k3) in
        if cnt == minus_one
        then failed
        else greet inb n buf table_1 (before_nul out) (null_store table_1 k2) k2

-- `sigtest` of a process that has its screen open and whose line was entered never greets, where the
-- first page of memory is as `init_paging` leaves it, not present in the first table: whether it has
-- installed its handlers or not, which it says, the store through the null pointer behind the read ends
-- in the kernel's handler of the page fault, which prints its name and loops.
pub sigtest-faults :
    (inb n buf table_1 : ℕ) (k : Kernel)
    → HasScreen k
    → HasLine k
    → IsNullUnmapped table_1 k
    → sigtest inb n buf table_1 k
      ≡ done
          (faulted, print (codes "page_fault") (line_taken (print question (print (notice k) k))))
unfolding sigtest
sigtest-faults inb n buf table_1 k s l u = rw (getargs-zero k) (
    ap (λ o. o >>= ask_name inb n buf table_1) (install-notice inb n buf table_1 k s)
    ∙ ask_name-faults inb n buf table_1 (print (notice k) k) (HasScreen-print (notice k) k s)
        (HasLine-print (notice k) k l)
        (record { not_big = u.not_big; first_table = u.first_table; absent = u.absent }))
