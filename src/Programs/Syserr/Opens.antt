-- ===== src/Programs/Syserr/Opens.antt =====
-- The opens of `err_open_lots` of syscalls/ece391syserr.c, on the directory.
-- the descriptors are closed again.
use mathlib.Core.Path.{subst}
use octave_os.Base.{
  ℕ, zero, suc, ◌+◌, ◌-◌, ◌<◌, ◌≤◌, ◌≡◌, ◌≢◌, refl, ◌∙◌, ap, sym, arith, true, false, ◌==◌,
  minus_one, ltb_signed,
}
use octave_os.Str.{codes, as_bytes}
use octave_os.FileSys.{read_dentry_by_name}
use octave_os.Kernel.{
  dir_jump_s, FdEntry, Kernel, file_array_size, file_open, file_not_open, is_null, pid_to_pcb,
  current_pcb, put_entry,
}
use octave_os.Files.{no_dentry, find_fd, free_fd, dopen}
use octave_os.Files.Descriptors.{entry}
use octave_os.Syscalls.{dir_file, system_open}
use octave_os.Programs.Output.{HasScreen}

-- The directory has itself under the name ".".
pub record HasDirectory (k : Kernel) : Type 0 where
  pub found : (read_dentry_by_name k.image (as_bytes (codes ".")) no_dentry).0 ≢ minus_one
  pub type : (read_dentry_by_name k.image (as_bytes (codes ".")) no_dentry).1.filetype ≡ dir_file
  pub process : is_null (pid_to_pcb k.curr_pid) ≡ false

-- What the test leaves alone.
pub record Same (k k' : Kernel) : Type 0 where
  pub image : k'.image ≡ k.image
  pub curr_pid : k'.curr_pid ≡ k.curr_pid
  pub pid_to_term : k'.pid_to_term ≡ k.pid_to_term
  pub screen : k'.screen ≡ k.screen
  pub low : (j : ℕ) → j < 2 → entry k' j ≡ entry k j

pub Same-trans : (k k' k'' : Kernel) → Same k k' → Same k' k'' → Same k k''
Same-trans k k' k'' h g = record {
  image = g.image ∙ h.image;
  curr_pid = g.curr_pid ∙ h.curr_pid;
  pid_to_term = g.pid_to_term ∙ h.pid_to_term;
  screen = g.screen ∙ h.screen;
  low = λ j l. g.low j l ∙ h.low j l;
}

-- The descriptors from `lo` up to `hi` are open on the directory, and the others from 2 on closed.
pub record Between (lo hi : ℕ) (k : Kernel) : Type 0 where
  pub opened : (j : ℕ) → lo ≤ j → j < hi → (entry k j).flags ≡ file_open
  pub jumps : (j : ℕ) → lo ≤ j → j < hi → (entry k j).file_op_table_ptr ≡ dir_jump_s
  pub below : (j : ℕ) → 2 ≤ j → j < lo → (entry k j).flags ≡ file_not_open
  pub above : (j : ℕ) → hi ≤ j → j < file_array_size → (entry k j).flags ≡ file_not_open

find_fd-first :
    (t : ℕ → FdEntry) (i n m : ℕ)
    → ((j : ℕ) → i ≤ j → j < i + m → (t j).flags ≡ file_open)
    → (t (i + m)).flags ≡ file_not_open
    → m < n
    → find_fd t i n ≡ i + m
unfolding find_fd
find_fd-first t i zero m h c small = absurd (omega arith)
find_fd-first t i (suc n) zero h c small =
    let here : (t i).flags ≡ file_not_open = ap (λ j. (t j).flags) (omega arith) ∙ c in
    rw here (omega arith)
find_fd-first t i (suc n) (suc m) h c small =
    let here : (t i).flags ≡ file_open = h i (omega arith) (omega arith) in
    rw here (
      find_fd-first t (i + 1) n m (λ j a b. h j (omega arith) (omega arith))
        (ap (λ j. (t j).flags) (omega arith) ∙ c) (omega arith)
      ∙ omega arith)

find_fd-none :
    (t : ℕ → FdEntry) (i n : ℕ)
    → ((j : ℕ) → i ≤ j → j < i + n → (t j).flags ≡ file_open)
    → find_fd t i n ≡ 0
unfolding find_fd
find_fd-none t i zero h = refl
find_fd-none t i (suc n) h =
    let here : (t i).flags ≡ file_open = h i (omega arith) (omega arith) in
    rw here (find_fd-none t (i + 1) n (λ j a b. h j (omega arith) (omega arith)))

pub system_open-dopen :
    (inb : ℕ) (k : Kernel) → HasDirectory k → system_open inb (codes ".") k ≡ dopen k
unfolding system_open
system_open-dopen inb k d =
    let hit : ((read_dentry_by_name k.image (as_bytes (codes ".")) no_dentry).0 == minus_one)
        ≡ false =
      ground (arith, d.found) in
    rw (hit, d.type) refl

-- The next open, and the one behind the last.
abbrev pub opened_next : ℕ → Kernel → Kernel
opened_next i k =
    put_entry i (record { inode = 0; fpos = 0; flags = file_open; file_op_table_ptr = dir_jump_s })
      k

pub dopen-next :
    (i : ℕ) (k : Kernel)
    → HasDirectory k
    → Between 2 i k
    → 2 ≤ i
    → i < file_array_size
    → dopen k ≡ (i, opened_next i k)
unfolding dopen
dopen-next i k d b lo hi =
    let first : free_fd (current_pcb k) ≡ i =
      find_fd-first (current_pcb k).file_array 2 6 (i - 2) (λ j a l. b.opened j a (omega arith))
        (b.above (2 + (i - 2)) (omega arith) (omega arith)) (omega arith)
      ∙ omega arith in
    let pos : ltb_signed 0 i ≡ true = ground arith in rw d.process (rw first (rw pos refl))

pub dopen-none : (k : Kernel) → HasDirectory k → Between 2 8 k → dopen k ≡ (minus_one, k)
unfolding dopen
dopen-none k d b =
    let none_left : free_fd (current_pcb k) ≡ 0 =
      find_fd-none (current_pcb k).file_array 2 6 (λ j a l. b.opened j a (omega arith)) in
    rw d.process (rw none_left refl)

pub Between-opened_next :
    (i : ℕ) (k : Kernel) → Between 2 i k → 2 ≤ i → Between 2 (i + 1) (opened_next i k)
Between-opened_next i k b lo = record {
  opened = λ j a l. let h = b.opened j in ground arith;
  jumps = λ j a l. let h = b.jumps j in ground arith;
  below = λ j a l. absurd (omega arith);
  above = λ j a l. let h = b.above j in ground arith;
}

pub Same-opened_next : (i : ℕ) (k : Kernel) → 2 ≤ i → Same k (opened_next i k)
Same-opened_next i k lo = record {
  image = refl;
  curr_pid = refl;
  pid_to_term = refl;
  screen = refl;
  low = λ j l. ground arith;
}

pub Same-refl : (k : Kernel) → Same k k
Same-refl k = record {
  image = refl;
  curr_pid = refl;
  pid_to_term = refl;
  screen = refl;
  low = λ j l. refl;
}

pub HasDirectory-Same : (k k' : Kernel) → Same k k' → HasDirectory k → HasDirectory k'
HasDirectory-Same k k' s d = record {
  found =
      subst (λ im. (read_dentry_by_name im (as_bytes (codes ".")) no_dentry).0 ≢ minus_one)
        (sym s.image) d.found;
  type =
      ap (λ im. (read_dentry_by_name im (as_bytes (codes ".")) no_dentry).1.filetype) s.image
      ∙ d.type;
  process = ap (λ p. is_null (pid_to_pcb p)) s.curr_pid ∙ d.process;
}

pub HasScreen-Same : (k k' : Kernel) → Same k k' → HasScreen k → HasScreen k'
HasScreen-Same k k' s h = record {
  opened = ap (λ e. e.flags) (s.low 1 (omega arith)) ∙ h.opened;
  jumps = ap (λ e. e.file_op_table_ptr) (s.low 1 (omega arith)) ∙ h.jumps;
}
