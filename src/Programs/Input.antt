-- ===== src/Programs/Input.antt =====
-- Input of the user programs of syscalls/: what a read of the keyboard comes to when a line was
-- entered.
use mathlib.Core.Path.{ap₂}
use octave_os.Base.{
  ℕ, zero, suc, ◌≤◌, ◌≡◌, refl, ◌∙◌, ap, arith, List, [], ◌∷◌, false, ◌==◌, length, done, nonzero,
}
use octave_os.FileSys.{read_range, rounds}
use octave_os.Kernel.{stdin, Kernel, file_open, current_term, print}
use octave_os.Files.Descriptors.{entry}
use octave_os.Keyboard.Line.{line, length-read_range}
use octave_os.Terminal.{keybufsize, to_copy, term_read, line_taken}
use octave_os.Terminal.Line.{reader}
use octave_os.Syscalls.{with_entry, call_read, system_read}
use octave_os.Programs.{before_nul}
use octave_os.Programs.Output.{HasScreen, puts-SameKeys, without_nuls}

-- Descriptor 0 is the keyboard, and a line was entered on the process's terminal.
pub record HasLine (k : Kernel) : Type 0 where
  pub opened : (entry k 0).flags ≡ file_open
  pub jumps : (entry k 0).file_op_table_ptr ≡ stdin
  pub entered : (reader k).enter_pressed ≡ 0
  pub fits : (reader k).buflen ≤ keybufsize

pub HasLine-print : (cs : List ℕ) (k : Kernel) → HasLine k → HasLine (print cs k)
HasLine-print cs k h =
    let same = puts-SameKeys cs (current_term k) (current_term k) k.screen in
    record {
      opened = h.opened;
      jumps = h.jumps;
      entered = same.enter_pressed ∙ h.entered;
      fits = omega (arith, same.buflen, h.fits);
    }

pub line-print : (cs : List ℕ) (k : Kernel) → line (reader (print cs k)) ≡ line (reader k)
line-print cs k =
    let same = puts-SameKeys cs (current_term k) (current_term k) k.screen in
    ap₂ (λ b m. read_range b 0 m) same.keybuf same.buflen

pub system_read-line :
    (n buf : ℕ) (k : Kernel)
    → HasLine k
    → system_read n 0 buf 1023 k ≡ done ((reader k).buflen, line (reader k), line_taken k)
unfolding system_read with_entry term_read to_copy
system_read-line n buf k h =
    let ready : nonzero (reader k).enter_pressed ≡ false = ap nonzero h.entered in
    let all : to_copy 1023 (reader k).buflen ≡ (reader k).buflen = ground (arith, h.fits) in
    let count : rounds (reader k).buflen ≡ (reader k).buflen = ground (arith, h.fits) in
    let reads : term_read 1023 k ≡ done ((reader k).buflen, line (reader k), line_taken k) =
      rw ready (
        ap₂ (λ m c. done (m, read_range (reader k).keybuf 0 c, line_taken k)) all
          (ap rounds all ∙ count)) in
    let calls : system_read n 0 buf 1023 k
        ≡ call_read (entry k 0).file_op_table_ptr n 0 buf 1023 k =
      rw h.opened refl in
    calls ∙ ap (λ ops. call_read ops n 0 buf 1023 k) h.jumps ∙ reads

pub without_nuls-before_nul : (cs : List ℕ) → without_nuls (before_nul cs) ≡ before_nul cs
unfolding without_nuls before_nul
without_nuls-before_nul [] = refl
without_nuls-before_nul (zero ∷ cs) = refl
without_nuls-before_nul (suc c ∷ cs) =
    let more : (suc c == 0) ≡ false = ground arith in
    rw more (ap (λ s. suc c ∷ s) (without_nuls-before_nul cs))

pub length-before_nul : (cs : List ℕ) → length (before_nul cs) ≤ length cs
unfolding before_nul
length-before_nul [] = omega arith
length-before_nul (zero ∷ cs) = omega arith
length-before_nul (suc c ∷ cs) =
    let more : (suc c == 0) ≡ false = ground arith in rw more (omega (arith, length-before_nul cs))

-- A line without its NULs is short enough for one write.
pub length-line : (k : Kernel) → HasLine k → length (before_nul (line (reader k))) ≤ keybufsize
length-line k h =
    let len = length-read_range (reader k).keybuf 0 (reader k).buflen in
    omega (arith, length-before_nul (line (reader k)), len, h.fits)

-- The process still has its screen behind the read.
pub HasScreen-line_taken : (k : Kernel) → HasScreen k → HasScreen (line_taken k)
HasScreen-line_taken k h = record { opened = h.opened; jumps = h.jumps }
