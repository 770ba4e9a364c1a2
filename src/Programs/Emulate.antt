-- ===== src/Programs/Emulate.antt =====
-- The system calls for programs that run on Linux, syscalls/ece391emulate.c (and fish/).
--
-- Linux is a parameter: the calls on a descriptor, the directory stream, and what becomes of a child
-- process. A string is the bytes before its NUL; the `INT $0x80` of the wrappers is the call itself,
-- with -1 for an error.
use octave_os.Base.{
  ℕ, zero, suc, ◌+◌, ◌-◌, List, [], ◌∷◌, ◌++◌, Option, none, some, Bool, true, not, ◌||◌, ◌&&◌, ltb,
  leb, ◌==◌, if◌then◌else◌, length, minus_one, ltb_signed, take, replicate, min, Outcome, done,
  ◌>>=◌,
}
use octave_os.Str.{codes, as_bytes}
use octave_os.Programs.Support.{ece391_strcmp}
pub mod Words
pub mod Names

-- The bytes at which a word ends: a space or a line break.
abbrev pub is_break : ℕ → Bool
is_break c = (c == 32) || (c == 10)

-- `for (scan = buf + 2; '\0' != *scan && ' ' != *scan && '\n' != *scan; scan++)`: the word, and what
-- `scan` points to.
unfoldable pub scan_word : List ℕ → List ℕ × List ℕ
scan_word [] = ([], [])
scan_word (c ∷ cs) =
    let rest = scan_word cs in if is_break c then ([], c ∷ cs) else (c ∷ rest.0, rest.1)

-- `while (' ' == *scan) scan++`
unfoldable pub skip_blanks : List ℕ → List ℕ
skip_blanks [] = []
skip_blanks (c ∷ cs) = let rest = skip_blanks cs in if c == 32 then rest else c ∷ cs

-- `if ('\0' != *scan) *scan++ = '\0'`
abbrev pub behind : List ℕ → List ℕ
behind [] = []
behind (c ∷ cs) = cs

-- The test for the end of the string or a line break, in front of an argument and those behind it.
unfoldable pub unless_ended : (scan : List ℕ) → (rest : List (List ℕ)) → List (List ℕ)
unless_ended [] rest = []
unless_ended (c ∷ cs) rest = if c == 10 then [] else rest

-- The `while (1)` that parses the arguments. Each round but the last takes a byte or more, so the
-- length of the string is enough fuel.
unfoldable pub parse_arguments : (fuel : ℕ) → List ℕ → List (List ℕ)
unfolding scan_word skip_blanks unless_ended
parse_arguments zero s = []
parse_arguments (suc fuel) s =
    let scan = skip_blanks s in
    unless_ended scan ((scan_word scan).0 ∷ parse_arguments fuel (behind (scan_word scan).1))

-- `args`, the name of the program first.
unfoldable pub parse_command : List ℕ → List (List ℕ)
unfolding parse_arguments
parse_command command =
    let word = scan_word command in
    (codes "./" ++ word.0) ∷ parse_arguments (length word.1) (behind word.1)

-- What `wait` says of the child: WEXITSTATUS or WTERMSIG.
pub data Status : Type 0 where
  exited : ℕ → Status
  terminated : ℕ → Status

-- `execv` of the path and the arguments, up to the end of the process; the child kills itself with
-- signal 9 if the program cannot be started.
unfoldable pub ece391_execute : (run : List ℕ → List (List ℕ) → Status) → List ℕ → ℕ
unfolding parse_command
ece391_execute run command =
    let args = parse_command command in
    let path = codes "./" ++ (scan_word command).0 in
    if ltb 1023 (length command)
    then minus_one
    else elim (run path args) [ exited n ↦ n | terminated n ↦ if n == 9 then minus_one else 256 ]

-- The loop of `ece391_getargs` over the arguments from `idx` on, and its end: the value and the bytes
-- in front of the last NUL that it writes.
unfoldable pub ece391_getargs : List (List ℕ) → (nbytes : ℕ) → ℕ × List ℕ
ece391_getargs [] nbytes = if ltb_signed nbytes 1 then (minus_one, []) else (0, [])
ece391_getargs (arg ∷ []) nbytes =
    if ltb_signed nbytes (length arg)
    then (minus_one, [])
    else if ltb_signed (nbytes - length arg) 1
    then (minus_one, arg)
    else (0, arg)
ece391_getargs (arg ∷ next ∷ args) nbytes =
    let rest = ece391_getargs (next ∷ args) (nbytes - length arg - 1) in
    if ltb_signed nbytes (length arg)
    then (minus_one, [])
    else if ltb_signed (nbytes - length arg) 1
    then (minus_one, arg)
    else (rest.0, arg ++ 32 ∷ rest.1)

-- The copy of a directory entry's name: the value returned and the bytes written. `copied` bytes are
-- written before.
unfoldable pub pad_name : (n : ℕ) → (nbytes copied : ℕ) → ℕ × List ℕ
pad_name zero nbytes copied = (copied, [])
pad_name (suc n) nbytes copied =
    let rest = pad_name n nbytes (copied + 1) in
    if ltb_signed copied nbytes && ltb copied 32 then (rest.0, 0 ∷ rest.1) else (copied, [])

unfoldable pub copy_name : List ℕ → (nbytes copied : ℕ) → ℕ × List ℕ
unfolding pad_name
copy_name [] nbytes copied = pad_name 32 nbytes copied
copy_name (c ∷ cs) nbytes copied =
    let rest = copy_name cs nbytes (copied + 1) in
    if copied + 1 == nbytes
    then (nbytes, c ∷ [])
    else if 32 == copied + 1
    then (32, c ∷ [])
    else (rest.0, c ∷ rest.1)

-- Linux, as far as the file uses it. A call on a descriptor takes and returns Linux's state; an error
-- of `open` is a number above 0xffffc000. `mmap` answers with the address of low memory, if any.
pub record Linux (Dir State : Type 0) : Type 0 where
  pub opendir : State → Option Dir
  pub readdir : Dir → Option (List ℕ × Dir)
  pub open_null : State → ℕ × State
  pub open_file : List ℕ → State → ℕ × State
  pub read_file : (fd nbytes : ℕ) → State → ℕ × List ℕ × State
  pub write_file : (fd : ℕ) → List ℕ → (nbytes : ℕ) → State → ℕ × State
  pub close_file : (fd : ℕ) → State → ℕ × State
  pub open_mem : State → ℕ × State
  pub mmap : (fd : ℕ) → State → Option ℕ

-- The static variables, and Linux's state.
pub record Emulated (Dir State : Type 0) : Type 0 where
  pub dir : Option Dir
  pub dir_fd : ℕ
  pub mem_fd : ℕ
  pub system : State

module _ {Dir State : Type 0} (linux : Linux Dir State) where
  -- Linux's state replaced.
  abbrev pub with_system : State → Emulated Dir State → Emulated Dir State
  with_system s e = record e { system = s }

  unfoldable pub ece391_open : List ℕ → Emulated Dir State → Outcome (ℕ × Emulated Dir State)
  unfolding ece391_strcmp
  ece391_open filename e =
      let null = linux.open_null e.system in
      let file = linux.open_file filename e.system in
      let directory = record e { dir = linux.opendir e.system; dir_fd = null.0; system = null.1 } in
      let rval = if ltb 0xffff_c000 file.0 then minus_one else file.0 in
      ece391_strcmp (length filename + 1) (as_bytes filename) (as_bytes (codes ".")) 0 0 >>= λ c.
      (if c == 0 then done (null.0, directory) else done (rval, with_system file.1 e))

  unfoldable pub ece391_vidmap : Emulated Dir State → ℕ × Option ℕ × Emulated Dir State
  ece391_vidmap e =
      let opened = linux.open_mem e.system in
      let e1 =
        if e.mem_fd == minus_one then record e { mem_fd = opened.0; system = opened.1 } else e in
      elim (linux.mmap e1.mem_fd e1.system) [
        | none ↦ (minus_one, none, e1)
        | some mem_image ↦ (0, some (mem_image + 0xb8000), e1)
      ]

  -- The stream, if the descriptor is the directory's: the test `NULL == dir || dir_fd != fd`.
  abbrev pub stream_of : (fd : ℕ) → Emulated Dir State → Option Dir
  stream_of fd e = if e.dir_fd == fd then e.dir else none

  -- What `readdir` returned, to the buffer.
  unfoldable pub read_entry :
      (nbytes : ℕ) → Option (List ℕ × Dir) → Emulated Dir State → ℕ × List ℕ × Emulated Dir State
  unfolding copy_name
  read_entry nbytes none e = (0, [], e)
  read_entry nbytes (some (name, d)) e =
      let copied = copy_name name nbytes 0 in (copied.0, copied.1, record e { dir = some d })

  unfoldable pub read_stream :
      (fd nbytes : ℕ) → Option Dir → Emulated Dir State → ℕ × List ℕ × Emulated Dir State
  unfolding read_entry
  read_stream fd nbytes none e =
      let (r, out, s) = linux.read_file fd nbytes e.system in (r, out, with_system s e)
  read_stream fd nbytes (some d) e = read_entry nbytes (linux.readdir d) e

  unfoldable pub ece391_read :
      (fd nbytes : ℕ) → Emulated Dir State → ℕ × List ℕ × Emulated Dir State
  unfolding read_stream
  ece391_read fd nbytes e = read_stream fd nbytes (stream_of fd e) e

  unfoldable pub ece391_write :
      (fd : ℕ) → List ℕ → (nbytes : ℕ) → Emulated Dir State → ℕ × Emulated Dir State
  ece391_write fd buf nbytes e =
      let (r, s) = linux.write_file fd buf nbytes e.system in
      elim (stream_of fd e) [ none ↦ (r, with_system s e) | some d ↦ (minus_one, e) ]

  unfoldable pub ece391_close : (fd : ℕ) → Emulated Dir State → ℕ × Emulated Dir State
  ece391_close fd e =
      let (r, s) = linux.close_file fd e.system in
      let (r', s') = linux.close_file e.dir_fd e.system in
      elim (stream_of fd e) [
        | none ↦ (r, with_system s e)
        | some d ↦ (0, record e { dir = none; dir_fd = minus_one; system = s' })
      ]
