-- ===== src/Tests/Users.antt =====
-- The user programs, run by a process with an open keyboard and screen, on a directory with itself and
-- the file "hi".
use octave_os.Base.{
  inl, inr, List, get_or, ap, ◌≡◌, ◌≢◌, refl, arith, [], ◌∷◌, done, false, minus_one, if◌then◌else◌,
  ◌==◌, ℕ,
}
use octave_os.Str.{codes, as_bytes, strncmp, strncmp_loop}
use octave_os.FileSys.{Image, read_range, read_dentry_by_name, read_dentry_loop}
use octave_os.FileSys.ReadData.{HasBlocks}
use octave_os.Kernel.{Kernel, print, current_pcb, file_array_size, is_null, pid_to_pcb}
use octave_os.Files.{no_dentry}
use octave_os.Files.Descriptors.{AllOpen}
use octave_os.Process.{zero_pcb, initialize_stdio, system_getargs}
use octave_os.Terminal.{line_taken}
use octave_os.Programs.{before_nul}
use octave_os.Programs.Output.{HasScreen, without_nuls}
use octave_os.Programs.Input.{HasLine}
use octave_os.Programs.Counter.{counter}
use octave_os.Programs.Counter.Counts.{count_text, counter-counts}
use octave_os.Programs.Cat.{cat, c_string}
use octave_os.Programs.Cat.Copies.{printed_length, cat-bytes}
use octave_os.Programs.Ls.{ls}
use octave_os.Programs.Ls.Lists.{directory_text, ls-directory_text}
use octave_os.Programs.Shell.{shell_loop, without_break}
use octave_os.Programs.Shell.Commands.{IsText, asked_in, shell_loop-session}
use octave_os.Programs.Syserr.{all_tests}
use octave_os.Programs.Syserr.Tests.{NoneOpen}
use octave_os.Programs.Syserr.Opens.{HasDirectory}
use octave_os.Programs.Syserr.Passes.{IsTestable, passing_text, all_tests-passes}
use octave_os.Tests.Data.{image, kernel, name_hi}

abbrev two_entries : Image
two_entries = record image {
  dir_count = 2;
  direntries = λ i.
      if i == 0
      then record (image.direntries 0) { filename = as_bytes (codes "."); filetype = 1 }
      else image.direntries i;
}

-- A process behind `initialize_stdio`, whose user has entered the line "0".
abbrev pub user : Kernel
user =
    let td = kernel.screen.terminals 1 in
    record kernel {
      image = two_entries;
      pcbs = λ i. initialize_stdio (record zero_pcb { args = as_bytes name_hi });
      screen = record kernel.screen {
        terminals = λ t. record td { keybuf = as_bytes (b'0' ∷ 10 ∷ []); buflen = 2 };
      };
    }

pub user-HasScreen : HasScreen user
unfolding initialize_stdio
user-HasScreen = record { opened = refl; jumps = refl }

pub user-HasLine : HasLine user
unfolding initialize_stdio
user-HasLine = record { opened = refl; jumps = refl; entered = refl; fits = omega arith }

user_runs : is_null (pid_to_pcb 1) ≡ false
unfolding pid_to_pcb
user_runs = refl

user-NoneOpen : NoneOpen user
unfolding initialize_stdio
user-NoneOpen j lo hi = ground arith

user_some_closed : ¬ AllOpen (current_pcb user).file_array 2 file_array_size
unfolding initialize_stdio
user_some_closed all_open = let e = all_open 2 (omega arith) (omega arith) in omega arith

user-HasDirectory : HasDirectory user
unfolding read_dentry_by_name read_dentry_loop strncmp strncmp_loop
user-HasDirectory = record { found = λ e. omega arith; type = refl; process = user_runs }

user-IsTestable : IsTestable user
unfolding read_dentry_by_name read_dentry_loop strncmp strncmp_loop
user-IsTestable = record {
  directory = user-HasDirectory;
  screen = user-HasScreen;
  none_open = user-NoneOpen;
  no_longer = refl;
  no_shorter = refl;
  no_empty = refl;
}

all_tests-passes_example :
    (k' : Kernel) × (all_tests 5 3 0x8000 (λ i. 0) 0x3000 (λ i k. done (i, k)) user ≡ done (0, k'))
    × (k'.screen ≡ (print passing_text user).screen)
    × NoneOpen k'
all_tests-passes_example =
    all_tests-passes 5 3 0x8000 (λ i. 0) 0x3000 (λ i k. done (i, k)) user user-IsTestable

ls-directory_text_example :
    (k' : Kernel) × (ls 5 3 0x8000 3 user ≡ done (0, k'))
    × (k'.screen ≡ (print (directory_text two_entries 0 2) user).screen)
ls-directory_text_example =
    ls-directory_text 5 3 0x8000 (λ e. omega arith) 3 user user-HasDirectory user-HasScreen
      user_some_closed (omega arith) (omega arith)

found_hi : (read_dentry_by_name two_entries (as_bytes name_hi) no_dentry).0 ≢ minus_one
unfolding read_dentry_by_name read_dentry_loop strncmp strncmp_loop
found_hi e = omega arith

regular_hi : (read_dentry_by_name two_entries (as_bytes name_hi) no_dentry).1.filetype ≡ 2
unfolding read_dentry_by_name read_dentry_loop strncmp strncmp_loop
regular_hi = refl

hi_blocks : HasBlocks two_entries (two_entries.inodes 1) 4096
hi_blocks = record { small = omega arith; listed = omega arith; inside = λ d hd. omega arith }

user_args : c_string (system_getargs 1024 user).1 ≡ done name_hi
unfolding initialize_stdio system_getargs c_string read_range
user_args = refl

cat-bytes_example :
    (k' : Kernel) × (cat 5 3 0x8000 5 user ≡ done (0, k'))
    × (k'.screen ≡ (print (codes "hello") user).screen)
unfolding read_dentry_by_name read_dentry_loop strncmp strncmp_loop printed_length read_range
    without_nuls
cat-bytes_example =
    cat-bytes 5 3 0x8000 (λ e. omega arith) name_hi user found_hi regular_hi user_runs
      user-HasScreen user_some_closed 5 user_args (omega arith) (omega arith) (omega arith)
      hi_blocks

counter-counts_example :
    counter 5 3 0x8000 user
    ≡ done (
      0,
      print (count_text 100 0) (
          line_taken
            (print (codes "Enter the Test Number: (0): 100, (1): 10000, (2): 100000\n") user)),
    )
unfolding before_nul read_range
counter-counts_example =
    counter-counts 5 3 0x8000 b'0' 100 user user-HasScreen user-HasLine refl (inl (refl, refl))

-- The line entered.
abbrev entered : List ℕ → Kernel → Kernel
entered cs k =
    let td = user.screen.terminals 1 in
    record k {
      screen = record k.screen { terminals = λ t. record td { keybuf = as_bytes cs; buflen = 5 } };
    }

entered-HasScreen : (cs : List ℕ) → HasScreen (entered cs user)
unfolding initialize_stdio
entered-HasScreen cs = record { opened = refl; jumps = refl }

entered-HasLine : (cs : List ℕ) → HasLine (entered cs user)
unfolding initialize_stdio
entered-HasLine cs = record { opened = refl; jumps = refl; entered = refl; fits = omega arith }

abbrev grep_line : List ℕ
grep_line = codes "grep\n"

abbrev exit_line : List ℕ
exit_line = codes "exit\n"

shell_loop-session_example :
    shell_loop 5 3 0x8000 (λ c k. done (256, entered exit_line user)) 2 (entered grep_line user)
    ≡ done
        (0, asked_in (print (codes "program terminated by exception\n") (entered exit_line user)))
unfolding before_nul without_break read_range IsText
shell_loop-session_example =
    shell_loop-session 5 3 0x8000 (λ c k. done (256, entered exit_line user)) 0
      (entered grep_line user) (entered exit_line user) 256
      (codes "program terminated by exception\n") (entered-HasScreen grep_line)
      (entered-HasLine grep_line)
      (
        λ e. omega arith,
        omega arith,
        (
          λ e. omega arith,
          omega arith,
          (λ e. omega arith, omega arith, (λ e. omega arith, omega arith, tt)),
        ),
      )
      (λ e. omega (arith, ap (λ l. get_or l 0 0) e)) (λ e. omega arith) refl
      (inr (inl (refl, refl))) (entered-HasScreen exit_line) (entered-HasLine exit_line) refl
