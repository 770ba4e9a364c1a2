-- ===== src/Tests/Shows.antt =====
-- The list of blinking characters, the calls on Linux, the program that faults, and the search.
use octave_os.Base.{
  ◌+◌, ◌<◌, leb, true, ◌↔◌, ◌≤◌, ℕ, ◌≡◌, refl, arith, List, [], ◌∷◌, ◌++◌, map, Option, none, some,
  done, ◌==◌, if◌then◌else◌,
}
use octave_os.Str.{codes}
use octave_os.Kernel.{Kernel, print}
use octave_os.Paging.{init_paging}
use octave_os.Programs.Input.{HasLine}
use octave_os.Programs.Output.{HasScreen}
use octave_os.Process.{initialize_stdio}
use octave_os.Terminal.{line_taken}
use octave_os.Fish.Blink.{BlinkStruct, Blinks, zero_struct, mp1_ioctl_add, mp1_rtc_tasklet}
use octave_os.Fish.Blink.Chain.{
  HasChain, Added, chain_end, chain_next, mp1_ioctl_add-Added, mp1_rtc_tasklet-HasChain,
}
use octave_os.Programs.Emulate.{Linux, Emulated, parse_command, ece391_getargs}
use octave_os.Programs.Emulate.Words.{AreWords, spaced, words, joined, getargs-parse_command}
use octave_os.Programs.Emulate.Names.{
  padded, Lists, lists_end, lists_next, read_names, read_names-padded,
}
use octave_os.Programs.Sigtest.{faulted, sigtest}
use octave_os.Programs.Sigtest.Faults.{notice, init_paging-IsNullUnmapped, sigtest-faults}
use octave_os.Programs.Grep.{matches}
use octave_os.Programs.Grep.Matches.{Occurs, matches-Occurs}
use octave_os.Tests.Users.{user, user-HasLine}

abbrev fish_part : BlinkStruct
fish_part = record zero_struct { location = 540; on_char = 73; off_char = 77; on_length = 7 }

-- One character, at 540, that is on and about to go off.
abbrev blinks : Blinks
blinks = record {
  blink_array = λ i. if i == 0 then record fish_part { countdown = 1; status = 1 } else zero_struct;
  mp1_list_head = 1;
  video = λ a. 0;
}

blinks-HasChain : HasChain blinks (1 ∷ [])
blinks-HasChain = chain_next (λ e. omega arith) (λ e. omega arith) chain_end

mp1_ioctl_add-Added_example : Added fish_part blinks (1 ∷ []) (mp1_ioctl_add fish_part blinks)
mp1_ioctl_add-Added_example =
    mp1_ioctl_add-Added fish_part blinks (1 ∷ []) blinks-HasChain (λ e. omega arith)

mp1_rtc_tasklet-HasChain_example :
    (b : Blinks) × (mp1_rtc_tasklet 2 blinks ≡ done b) × HasChain b (1 ∷ [])
mp1_rtc_tasklet-HasChain_example =
    mp1_rtc_tasklet-HasChain 2 blinks (1 ∷ []) blinks-HasChain (omega arith)

-- "cat", a space, "a", three spaces, "bc".
abbrev arguments : List (ℕ × List ℕ)
arguments = (0, codes "a") ∷ (2, codes "bc") ∷ []

getargs-parse_command_example :
    (parse_command (codes "cat" ++ spaced arguments)
      ≡ (codes "./" ++ codes "cat") ∷ words arguments)
    × (ece391_getargs (words arguments) 10 ≡ (0, joined (words arguments)))
unfolding AreWords words joined
getargs-parse_command_example =
    getargs-parse_command (codes "cat") arguments 10 (refl, (refl, (refl, tt)))
      (λ e. cc, (refl, tt), (λ e. cc, (refl, (refl, tt)), tt)) (omega arith) (omega arith)

next_name : List (List ℕ) → Option (List ℕ × List (List ℕ))
next_name [] = none
next_name (name ∷ names) = some (name, names)

abbrev linux : Linux (List (List ℕ)) (Unit {0})
linux = record {
  opendir = λ s. none;
  readdir = next_name;
  open_null = λ s. (5, s);
  open_file = λ name s. (6, s);
  read_file = λ fd nbytes s. (0, [], s);
  write_file = λ fd bytes nbytes s. (nbytes, s);
  close_file = λ fd s. (0, s);
  open_mem = λ s. (7, s);
  mmap = λ fd s. none;
}

abbrev names : List (List ℕ)
names = codes "." ∷ codes "frame0.txt" ∷ []

abbrev emulated : Emulated (List (List ℕ)) (Unit {0})
emulated = record { dir = some names; dir_fd = 5; mem_fd = 0; system = tt }

linux-Lists : Lists linux names names
unfolding next_name
linux-Lists = lists_next refl (lists_next refl (lists_end refl))

read_names-padded_example : read_names linux 3 5 emulated ≡ done (map padded names)
read_names-padded_example =
    read_names-padded linux 3 5 emulated names names refl refl linux-Lists (omega arith)

-- The process with the page tables as they are set up first.
abbrev paged : Kernel
paged = init_paging 0x402000 user

paged-HasScreen : HasScreen paged
unfolding init_paging initialize_stdio
paged-HasScreen = record { opened = refl; jumps = refl }

paged-HasLine : HasLine paged
unfolding init_paging
paged-HasLine = record {
  opened = user-HasLine.opened;
  jumps = user-HasLine.jumps;
  entered = user-HasLine.entered;
  fits = user-HasLine.fits;
}

sigtest-faults_example :
    sigtest 5 3 0x8000 0x403000 paged
    ≡ done (
      faulted,
      print
          (codes "page_fault")
          (line_taken (print (codes "Hi, what's your name? ") (print (notice paged) paged))),
    )
sigtest-faults_example =
    sigtest-faults 5 3 0x8000 0x403000 paged paged-HasScreen paged-HasLine
      (init_paging-IsNullUnmapped 0x402000 0x403000 user (λ e. omega arith))

-- "xxaaa", in which "aa" is looked for.
abbrev line_bytes : ℕ → ℕ
line_bytes i = if leb 2 i then b'a' else b'x'

matches-Occurs_example :
    (matches line_bytes (λ j. b'a') 2 0 5 ≡ true)
    ↔ ((b'a' < 128) × (i : ℕ) × (0 ≤ i) × (i < 0 + 5) × Occurs line_bytes (λ j. b'a') 2 i)
matches-Occurs_example =
    matches-Occurs line_bytes (λ j. b'a') 1
      (record { no_nul = λ j hj e. omega arith; bytes = λ j. omega arith }) (λ i. ground arith) 0 5
