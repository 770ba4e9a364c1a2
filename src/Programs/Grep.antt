-- ===== src/Programs/Grep.antt =====
-- `do_one_file` and `main` of syscalls/ece391grep.c.
--
-- The array `data` is a function of the index, and `buf` its address for the kernel. `search` is the
-- string that is looked for. The bytes behind those that were read are what they were before, `stack`
-- at first.
use octave_os.Base.{
  ℕ, zero, suc, ◌+◌, ◌-◌, List, [], ◌∷◌, ◌++◌, Bool, true, false, not, ◌&&◌, ltb, leb, ◌==◌,
  if◌then◌else◌, get_or, length, minus_one, update, Outcome, done, fault, out_of_fuel, ◌>>=◌,
}
use octave_os.Str.{Bytes, sign_extend, codes, as_bytes, text_from}
use octave_os.Kernel.{Kernel}
use octave_os.Process.{system_getargs}
use octave_os.Syscalls.{system_open, system_read, system_close}
use octave_os.Programs.{fdputs, leave, before_nul}
use octave_os.Programs.Cat.{c_string}
use octave_os.Programs.Support.{ece391_strncmp}
pub mod Matches

abbrev pub bufsize : ℕ
bufsize = 1024

-- `while (line_end < last && '\n' != data[line_end])` at `i`, with `n` bytes in front of `last`.
unfoldable pub find_end : Bytes → (i n : ℕ) → ℕ
find_end array i zero = i
find_end array i (suc n) = let rest = find_end array (i + 1) n in if array i == 10 then i else rest

-- The tests of the loop over `check`, with `n` rounds left: whether a round prints the line. `s` has
-- elements with a sign and `data` has not.
unfoldable pub matches : Bytes → (s : Bytes) → (s_len check n : ℕ) → Bool
unfolding ece391_strncmp
matches array s s_len check zero = false
matches array s s_len check (suc n) =
    let rest = matches array s s_len (check + 1) n in
    if (sign_extend (s 0) == array check) && (ece391_strncmp array s check 0 s_len == 0)
    then true
    else rest

-- `ece391_strcpy` down in one array.
unfoldable pub copy_down : (fuel : ℕ) → Bytes → (to from : ℕ) → Outcome Bytes
copy_down zero array to from = fault out_of_fuel
copy_down (suc fuel) array to from =
    let array' = update array to (array from) in
    let rest = copy_down fuel array' (to + 1) (from + 1) in
    if array from == 0 then done array' else rest

-- What is read, from place `a` on.
abbrev pub store : Bytes → (a : ℕ) → List ℕ → Bytes
store array a out i = if leb a i && ltb i (a + length out) then get_or out (i - a) 0 else array i

module _ (inb n buf : ℕ) (search : List ℕ) where
  -- The four `ece391_fdputs` for a line that matches.
  unfoldable pub print_line : (fname : List ℕ) → Bytes → (line_start : ℕ) → Kernel → Outcome Kernel
  unfolding fdputs
  print_line fname array line_start k =
      fdputs inb 1 fname k
      >>= fdputs inb 1 (codes ":")
      >>= fdputs inb 1 (text_from array line_start (bufsize + 1))
      >>= fdputs inb 1 (codes "\n")

  -- A line searched.
  unfoldable pub search_line :
      (fname : List ℕ) → Bytes → (line_start line_end : ℕ) → Kernel → Outcome Kernel
  unfolding print_line matches
  search_line fname array line_start line_end k =
      let found = print_line fname array line_start k in
      if matches array (as_bytes search) (length search) line_start (line_end - line_start)
      then found
      else done k

  -- The inner `while (1)` over the lines, on the number of bytes just read: the array and `last`.
  unfoldable pub search_lines :
      (fuel : ℕ)
      → (fname : List ℕ) → (cnt last line_start : ℕ) → Bytes
      → Kernel
      → Outcome (ℕ × Bytes × Kernel)
  unfolding find_end copy_down search_line
  search_lines zero fname cnt last line_start array k = fault out_of_fuel
  search_lines (suc fuel) fname cnt last line_start array k =
      let line_end = find_end array line_start (last - line_start) in
      let array' = update array line_end 0 in
      let moved = copy_down (bufsize + 1) array' 0 line_start >>= λ array''.
      done (last - line_start, array'', k) in
      let searched = search_line fname array' line_start line_end k >>= λ k'.
      (let rest = search_lines fuel fname cnt last (line_end + 1) array' k' in
        if leb last (line_end + 1) then done (0, array', k') else rest) in
      if not (array line_end == 10) && not (cnt == 0) && not (line_start == 0)
      then moved
      else searched

  -- The outer `while (1)` of `do_one_file`: 0, or -1 where the file could not be read.
  unfoldable pub search_file :
      (fuel fd : ℕ) → (fname : List ℕ) → (last : ℕ) → Bytes → Kernel → Outcome (ℕ × Kernel)
  unfolding search_lines leave
  search_file zero fd fname last array k = fault out_of_fuel
  search_file (suc fuel) fd fname last array k =
      system_read n fd (buf + last) (bufsize - last) k >>= λ (cnt, out, k1).
      (let failed = leave inb (codes "file read failed\n") minus_one k1 in
        let run =
          search_lines (bufsize + 1) fname cnt (last + cnt) 0 (store array last out) k1
          >>= λ (last', array', k2).
              (let rest = search_file fuel fd fname last' array' k2 in
                if cnt == 0 then done (0, k2) else rest) in
        if cnt == minus_one then failed else run)

  unfoldable pub do_one_file :
      (fuel : ℕ) → (stack : Bytes) → (fname : List ℕ) → Kernel → Outcome (ℕ × Kernel)
  unfolding search_file leave
  do_one_file fuel stack fname k =
      let (fd, k1) = system_open inb fname k in
      let failed = leave inb (codes "file open failed\n") minus_one k1 in
      let run = search_file fuel fd fname 0 stack k1 >>= λ (r, k2).
      (let closed = system_close fd k2 >>= λ (c, k3).
      (let not_closed = leave inb (codes "file close failed\n") minus_one k3 in
        if c == minus_one then not_closed else done (0, k3)) in
        if r == minus_one then done (r, k2) else closed) in
      if fd == minus_one then failed else run

  -- The `while` of `main` over the directory.
  unfoldable pub search_files :
      (fuel : ℕ) → (stack : Bytes) → (fd : ℕ) → Kernel → Outcome (ℕ × Kernel)
  unfolding do_one_file leave before_nul
  search_files zero stack fd k = fault out_of_fuel
  search_files (suc fuel) stack fd k = system_read n fd buf 32 k >>= λ (cnt, out, k1).
      (let failed = leave inb (codes "directory entry read failed\n") 3 k1 in
        let skipped = search_files fuel stack fd k1 in
        let searched = do_one_file fuel stack (before_nul out) k1 >>= λ (r, k2).
        (let rest = search_files fuel stack fd k2 in if r == 0 then rest else done (3, k2)) in
        if cnt == 0
        then done (0, k1)
        else if cnt == minus_one
        then failed
        else if get_or out 0 0 == b'.'
        then skipped
        else searched)

unfoldable pub grep : (inb n buf fuel : ℕ) → (stack : Bytes) → Kernel → Outcome (ℕ × Kernel)
unfolding search_files c_string leave
grep inb n buf fuel stack k =
    let (r, args) = system_getargs bufsize k in
    let (fd, k1) = system_open inb (codes ".") k in
    let no_args = leave inb (codes "could not read argument\n") 3 k in
    let no_directory = leave inb (codes "directory open failed\n") 2 k1 in
    let run = c_string args >>= λ search. search_files inb n buf search fuel stack fd k1 in
    if not (r == 0) then no_args else if fd == minus_one then no_directory else run
