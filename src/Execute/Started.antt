-- ===== src/Execute/Started.antt =====
-- How a process starts and ends: `system_execute` and `system_halt` of
-- student-distrib/system_execute.c.
use mathlib.Core.Path.{ap₂}
use octave_os.Base.{
  ℕ, zero, suc, ◌+◌, ◌-◌, ◌<◌, ◌≤◌, ◌≡◌, ◌≢◌, refl, ◌∙◌, ap, sym, inl, inr, List, [], ◌∷◌, true,
  false, arith, Bool, Bool-cases, ◌||◌, ◌==◌, if◌then◌else◌, done, ◌>>=◌, leb_signed, ltb_signed,
  update,
}
use octave_os.Str.{Bytes}
use octave_os.FileSys.{read_range, file_name_size}
use octave_os.Kernel.{Kernel, file_array_size, is_null, pid_to_pcb, current_pcb}
use octave_os.Files.{close_entry, fclose}
use octave_os.Paging.Maps.{setup_paging-processes}
use octave_os.Process.{
  arg_size, resumes_parent, close_files, system_halt, restore_tss, create_pcb, initialize_stdio,
}
use octave_os.Execute.{skip_spaces, copy_word, parse_name, start_child}

skip_spaces_lem :
    (cmd : Bytes) (i s n : ℕ)
    → ((j : ℕ) → i ≤ j → j < i + s → cmd j ≡ 32)
    → cmd (i + s) ≢ 32
    → s < n
    → skip_spaces cmd i n ≡ done (i + s)
unfolding skip_spaces
skip_spaces_lem cmd i s zero spaces next small = absurd (omega arith)
skip_spaces_lem cmd i zero (suc n) spaces next small =
    let here : cmd i ≢ 32 = λ e. next (ap cmd (omega arith) ∙ e) in
    let stop : (cmd i == 32) ≡ false = ground arith in rw stop (ap done (omega arith))
skip_spaces_lem cmd i (suc s) (suc n) spaces next small =
    let here : cmd i ≡ 32 = spaces i (omega arith) (omega arith) in
    let go : (cmd i == 32) ≡ true = ground arith in
    let reach : i + suc s ≡ i + 1 + s = omega arith in
    rw go (
      skip_spaces_lem cmd (i + 1) s n (λ j lo hi. spaces j (omega arith) (omega arith))
        (λ e. next (ap cmd reach ∙ e)) (omega arith)
      ∙ ap done (sym reach))

-- A byte that ends a word.
abbrev pub ends_word : ℕ → Bool
ends_word c = (c == 32) || (c == 0)

copy_word_lem :
    (cmd : Bytes) (i w n room : ℕ)
    → ((j : ℕ) → i ≤ j → j < i + w → ends_word (cmd j) ≡ false)
    → ends_word (cmd (i + w)) ≡ true
    → w < n
    → w ≤ room
    → copy_word cmd i n room ≡ done (i + w, read_range cmd i w)
unfolding copy_word read_range
copy_word_lem cmd i w zero room word next small fits = absurd (omega arith)
copy_word_lem cmd i zero (suc n) zero word next small fits =
    let stop : ends_word (cmd i) ≡ true = ap (λ a. ends_word (cmd a)) (omega arith) ∙ next in
    rw stop (ap (λ a. done (a, [])) (omega arith))
copy_word_lem cmd i zero (suc n) (suc room) word next small fits =
    let stop : ends_word (cmd i) ≡ true = ap (λ a. ends_word (cmd a)) (omega arith) ∙ next in
    rw stop (ap (λ a. done (a, [])) (omega arith))
copy_word_lem cmd i (suc w) (suc n) zero word next small fits = absurd (omega arith)
copy_word_lem cmd i (suc w) (suc n) (suc room) word next small fits =
    let go : ends_word (cmd i) ≡ false = word i (omega arith) (omega arith) in
    let reach : i + suc w ≡ i + 1 + w = omega arith in
    rw
      (
        go,
        copy_word_lem cmd (i + 1) w n room (λ j lo hi. word j (omega arith) (omega arith))
            (ap (λ a. ends_word (cmd a)) (sym reach) ∙ next) (omega arith) (omega arith),
      )
      (ap (λ a. done (a, cmd i ∷ read_range cmd (i + 1) w)) (sym reach))

-- The parse of a command that is `s` spaces, then a word of `w` bytes, neither spaces nor NULs, of
-- which there are from 1 to 32, then a space or a NUL within the 128 bytes: it gives the word, and
-- the place behind it.
pub parse_name-word :
    (cmd : Bytes) (s w : ℕ)
    → ((j : ℕ) → j < s → cmd j ≡ 32)
    → ((j : ℕ) → s ≤ j → j < s + w → ends_word (cmd j) ≡ false)
    → ends_word (cmd (s + w)) ≡ true
    → 0 < w
    → w ≤ file_name_size
    → s + w < arg_size
    → parse_name cmd ≡ done (s + w, read_range cmd s w)
unfolding parse_name
parse_name-word cmd s w spaces word next some_byte fits small =
    let first : ends_word (cmd s) ≡ false = word s (omega arith) (omega arith) in
    let letter : cmd s ≢ 32 = ground arith in
    ap (λ r. r >>= λ i. copy_word cmd i (arg_size - i) file_name_size)
      (skip_spaces_lem cmd 0 s arg_size (λ j lo hi. spaces j (omega arith))
          (λ e. letter (ap cmd (omega arith) ∙ e)) (omega arith)
        ∙ ap done (omega arith))
    ∙ copy_word_lem cmd s w (arg_size - s) file_name_size word next (omega arith) fits

-- What closing files keeps: whose process runs, the free numbers, and in every control block where
-- the parent goes on.
record SameParents (k k' : Kernel) : Type 0 where
  pid : k'.curr_pid ≡ k.curr_pid
  free : k'.free_pid ≡ k.free_pid
  parent : (i : ℕ) → (k'.pcbs i).parent_pid ≡ (k.pcbs i).parent_pid
  ebp : (i : ℕ) → (k'.pcbs i).parent_ebp ≡ (k.pcbs i).parent_ebp
  esp : (i : ℕ) → (k'.pcbs i).parent_esp ≡ (k.pcbs i).parent_esp

fclose-SameParents : (fd : ℕ) (k : Kernel) → SameParents k (fclose fd k).1
unfolding fclose close_entry
fclose-SameParents fd k = elim (Bool-cases (is_null (pid_to_pcb k.curr_pid))) [
  | inl null ↦
      rw null
        (record { pid = refl; free = refl; parent = λ i. refl; ebp = λ i. refl; esp = λ i. refl })
  | inr present ↦ elim (Bool-cases (leb_signed file_array_size fd || ltb_signed fd 2)) [
    | inl bad ↦
        rw (present, bad)
          (record { pid = refl; free = refl; parent = λ i. refl; ebp = λ i. refl; esp = λ i. refl })
    | inr good ↦
        rw (present, good)
          (record {
            pid = refl;
            free = refl;
            parent = λ i. ground arith;
            ebp = λ i. ground arith;
            esp = λ i. ground arith;
          })
  ]
]

close_files-SameParents : (i n : ℕ) (k : Kernel) → SameParents k (close_files i n k)
unfolding close_files
close_files-SameParents i zero k = record {
  pid = refl;
  free = refl;
  parent = λ j. refl;
  ebp = λ j. refl;
  esp = λ j. refl;
}
close_files-SameParents i (suc n) k =
    let first = fclose-SameParents i k in
    let rest = close_files-SameParents (i + 1) n (fclose i k).1 in
    record {
      pid = rest.pid ∙ first.pid;
      free = rest.free ∙ first.free;
      parent = λ j. rest.parent j ∙ first.parent j;
      ebp = λ j. rest.ebp j ∙ first.ebp j;
      esp = λ j. rest.esp j ∙ first.esp j;
    }

-- `system_halt` by a process that is no shell, from what its control block says.
system_halt_lem :
    (k : Kernel)
    → leb_signed k.curr_pid 2 ≡ false
    → let b = current_pcb k in
      ((system_halt k).0 ≡ resumes_parent b.parent_ebp b.parent_esp)
      × ((system_halt k).1.curr_pid ≡ b.parent_pid)
      × ((j : ℕ) → (system_halt k).1.free_pid j ≡ (if k.curr_pid == j then 1 else k.free_pid j))
unfolding system_halt restore_tss
system_halt_lem k high =
    let k0 = record k { free_pid = update k.free_pid k.curr_pid 1 } in
    let k1 = close_files 2 (file_array_size - 2) k0 in
    let c = close_files-SameParents 2 (file_array_size - 2) k0 in
    let p = setup_paging-processes (k1.pcbs k.curr_pid).parent_pid k1 in
    rw high (
      ap₂ resumes_parent (ap (λ f. (f k.curr_pid).parent_ebp) p.0 ∙ c.ebp k.curr_pid)
          (ap (λ f. (f k.curr_pid).parent_esp) p.0 ∙ c.esp k.curr_pid),
      c.parent k.curr_pid,
      λ j. ap (λ f. f j) (p.2 ∙ c.free),
    )

start_child-parent :
    (child ebp esp : ℕ) (args : List ℕ) (k : Kernel)
    → child ≢ k.curr_pid
    → let b = (start_child child ebp esp args k).pcbs child in
      (b.parent_ebp ≡ ebp) × (b.parent_esp ≡ esp) × (b.parent_pid ≡ k.curr_pid)
unfolding start_child create_pcb initialize_stdio
start_child-parent child ebp esp args k ne = (ground arith, ground arith, ground arith)

start_child-free_pid :
    (child ebp esp : ℕ) (args : List ℕ) (k : Kernel) (j : ℕ)
    → ((start_child child ebp esp args k).curr_pid ≡ child)
      × ((start_child child ebp esp args k).free_pid j ≡ (if child == j then 0 else k.free_pid j))
unfolding start_child create_pcb initialize_stdio
start_child-free_pid child ebp esp args k j = (refl, ground arith)

-- `system_halt` by a process that `start_child`, the end of `system_execute`, started and that is no
-- shell, its number being neither the parent's nor below 3: the parent's `system_execute` goes on with the
-- registers that its call saved, the parent is the running process again, and exactly the number of
-- the halting process is free in addition.
pub system_halt-start_child :
    (child ebp esp : ℕ) (args : List ℕ) (k : Kernel)
    → child ≢ k.curr_pid
    → leb_signed child 2 ≡ false
    → let out = system_halt (start_child child ebp esp args k) in
      (out.0 ≡ resumes_parent ebp esp)
      × (out.1.curr_pid ≡ k.curr_pid)
      × ((j : ℕ) → out.1.free_pid j ≡ (if child == j then 1 else k.free_pid j))
system_halt-start_child child ebp esp args k ne high =
    let k1 = start_child child ebp esp args k in
    let now = (start_child-free_pid child ebp esp args k 0).0 in
    let b = start_child-parent child ebp esp args k ne in
    let h = system_halt_lem k1 (ap (λ p. leb_signed p 2) now ∙ high) in
    let at : current_pcb k1 ≡ k1.pcbs child = ap k1.pcbs now in
    (
      h.0 ∙ ap₂ resumes_parent (ap (λ e. e.parent_ebp) at ∙ b.0) (ap (λ e. e.parent_esp) at ∙ b.1),
      h.1 ∙ ap (λ e. e.parent_pid) at ∙ b.2,
      λ j. h.2 j ∙ ground (arith, now, (start_child-free_pid child ebp esp args k j).1),
    )
