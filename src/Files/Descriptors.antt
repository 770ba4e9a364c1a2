-- ===== src/Files/Descriptors.antt =====
-- The descriptors of a process: what the open functions of student-distrib/filesys.c do to its file
-- array.
use native.Mathlib.Decide.{ℕ_discrete}
use octave_os.Base.{
  ℕ, zero, suc, ◌+◌, ◌<◌, ◌≤◌, ◌≡◌, ◌≢◌, refl, ◌∙◌, ap, ◌⊎◌, inl, inr, List, some, true, false,
  arith, ◌==◌, Bool-cases, minus_one, ltb_signed, leb_signed, ◌||◌,
}
use octave_os.FileSys.{Dentry, read_dentry_by_name}
use octave_os.Str.{as_bytes}
use octave_os.Kernel.{
  Ops, dir_jump_s, file_jump_s, FdEntry, Pcb, Kernel, file_array_size, file_open, file_not_open,
  pid_to_pcb, is_null, current_pcb, put_entry,
}
use octave_os.Files.{find_fd, free_fd, no_dentry, fopen_name, fopen, fclose, dopen, close_entry}

-- A descriptor of the running process.
abbrev pub entry : Kernel → ℕ → FdEntry
entry k fd = (current_pcb k).file_array fd

-- `fd` is the least of the descriptors from `i` up to `last` that is not open.
pub record IsLeastClosed (t : ℕ → FdEntry) (i last fd : ℕ) : Type 0 where
  pub from : i ≤ fd
  pub below : fd < last
  pub was_closed : (t fd).flags ≢ file_open
  pub lower_open : (j : ℕ) → i ≤ j → j < fd → (t j).flags ≡ file_open

abbrev pub AllOpen : (t : ℕ → FdEntry) → (i last : ℕ) → Type 0
AllOpen t i last = (j : ℕ) → i ≤ j → j < last → (t j).flags ≡ file_open

find_fd_lem :
    (t : ℕ → FdEntry) (i n : ℕ)
    → IsLeastClosed t i (i + n) (find_fd t i n) ⊎ ((find_fd t i n ≡ 0) × AllOpen t i (i + n))
unfolding find_fd
find_fd_lem t i zero = inr (refl, λ j hi hj. omega arith)
find_fd_lem t i (suc n) = elim (Bool-cases ((t i).flags == file_open)) [
  | inl is ↦
      let open_at : (t i).flags ≡ file_open = ground arith in
      let at : (q : ℕ) → q ≡ i → (t q).flags ≡ file_open =
        λ q e. ap (λ v. (t v).flags) e ∙ open_at in
      rw is (elim (find_fd_lem t (i + 1) n) [
        | inl l ↦ inl (record {
          from = omega (arith, l.from);
          below = omega (arith, l.below);
          was_closed = l.was_closed;
          lower_open = λ q hi hq. elim (ℕ_discrete q i) [
            | yes e ↦ at q e
            | no ne ↦ l.lower_open q (omega arith) hq
          ];
        })
        | inr (e, all_open) ↦ inr (
          e,
          λ q hi hq. elim (ℕ_discrete q i) [
            | yes e' ↦ at q e'
            | no ne ↦ all_open q (omega arith) (omega arith)
          ],
        )
      ])
  | inr closed ↦
      let ne : (t i).flags ≢ file_open = ground arith in
      rw closed (
        inl (record {
          from = omega arith;
          below = omega arith;
          was_closed = ne;
          lower_open = λ q hi hq. omega arith;
        }))
]

pub free_fd-IsLeastClosed :
    (b : Pcb)
    → ¬ AllOpen b.file_array 2 file_array_size
    → IsLeastClosed b.file_array 2 file_array_size (free_fd b)
free_fd-IsLeastClosed b some_closed = elim (find_fd_lem b.file_array 2 6) [
  | inl l ↦ l
  | inr (e, all_open) ↦ absurd (some_closed all_open)
]

-- What opening a file in `k` comes to when `fd` is returned in `k'`: `fd` was the least closed
-- descriptor from 2 on, it is open at the start of the file with the jump table `ops`, and no other
-- descriptor changed.
pub record Opened (ops : Ops) (inode : ℕ) (k : Kernel) (fd : ℕ) (k' : Kernel) : Type 0 where
  pub least : IsLeastClosed (current_pcb k).file_array 2 file_array_size fd
  pub now :
      entry k' fd ≡ record { file_op_table_ptr = ops; inode = inode; fpos = 0; flags = file_open }
  pub others : (j : ℕ) → j ≢ fd → entry k' j ≡ entry k j

Opened-put_entry :
    (ops : Ops) (inode fd : ℕ) (k : Kernel)
    → IsLeastClosed (current_pcb k).file_array 2 file_array_size fd
    → Opened ops inode k fd (
        put_entry fd
          (record { file_op_table_ptr = ops; inode = inode; fpos = 0; flags = file_open })
          k)
Opened-put_entry ops inode fd k least = record {
  least = least;
  now = ground arith;
  others = λ j ne. ground arith;
}

-- `dopen` by a running process returns the least closed descriptor from 2 on, which is then open on
-- the directory's first entry while no other descriptor changes; where all are open it returns -1
-- and changes nothing.
pub dopen-Opened :
    (k : Kernel)
    → is_null (pid_to_pcb k.curr_pid) ≡ false
    → Opened dir_jump_s 0 k (dopen k).0 (dopen k).1
      ⊎ (AllOpen (current_pcb k).file_array 2 file_array_size × (dopen k ≡ (minus_one, k)))
unfolding dopen
dopen-Opened k h = elim (find_fd_lem (current_pcb k).file_array 2 6) [
  | inl l ↦
      let pos : ltb_signed 0 (free_fd (current_pcb k)) ≡ true = ground (arith, l.from, l.below) in
      rw h (rw pos (inl (Opened-put_entry dir_jump_s 0 (free_fd (current_pcb k)) k l)))
  | inr (e, all_open) ↦
      let no_fd : ltb_signed 0 (free_fd (current_pcb k)) ≡ false = ground arith in
      rw h (rw no_fd (inr (all_open, refl)))
]

module _ (name : List ℕ) (k : Kernel) (h : is_null (pid_to_pcb k.curr_pid) ≡ false) where
  abbrev looked : ℕ × Dentry
  looked = read_dentry_by_name k.image (as_bytes name) no_dentry

  -- `fopen` of a name that the directory has, by a running process, returns the least closed
  -- descriptor from 2 on, which is then open at the start of the file that the directory names while
  -- no other descriptor changes; where all are open it returns -1 and changes nothing.
  pub fopen-Opened :
      (read_dentry_by_name k.image (as_bytes name) no_dentry).0 ≢ minus_one
      → Opened file_jump_s
          (read_dentry_by_name k.image (as_bytes name) no_dentry).1.inode_num
          k
          (fopen (some name) k).0
          (fopen (some name) k).1
        ⊎ (AllOpen (current_pcb k).file_array 2 file_array_size
            × (fopen (some name) k ≡ (minus_one, k)))
  unfolding fopen fopen_name
  fopen-Opened found = elim (find_fd_lem (current_pcb k).file_array 2 6) [
    | inl l ↦
        let pos : ltb_signed 0 (free_fd (current_pcb k)) ≡ true = ground (arith, l.from, l.below) in
        let hit : (looked.0 == minus_one) ≡ false = ground arith in
        rw h (
          rw pos (
            rw hit (
              inl (Opened-put_entry file_jump_s looked.1.inode_num (free_fd (current_pcb k)) k l))))
    | inr (e, all_open) ↦
        let no_fd : ltb_signed 0 (free_fd (current_pcb k)) ≡ false = ground arith in
        rw h (rw no_fd (inr (all_open, refl)))
  ]

-- Closing with `fclose` what an open returned succeeds, and leaves every descriptor as it was before
-- the open but for the contents of the closed one, whose flag is the closed one.
pub fclose-Opened :
    (ops : Ops) (inode fd : ℕ) (k k' : Kernel)
    → Opened ops inode k fd k'
    → is_null (pid_to_pcb k'.curr_pid) ≡ false
    → ((fclose fd k').0 ≡ 0)
      × ((entry (fclose fd k').1 fd).flags ≡ file_not_open)
      × ((j : ℕ) → j ≢ fd → entry (fclose fd k').1 j ≡ entry k j)
unfolding fclose close_entry
fclose-Opened ops inode fd k k' o h =
    let low : (leb_signed file_array_size fd || ltb_signed fd 2) ≡ false =
      ground (arith, o.least.from, o.least.below) in
    rw h (rw low (refl, closed, λ j ne. kept j ne ∙ o.others j ne))
  where
    after : Kernel
    after = put_entry fd (record (entry k' fd) { flags = file_not_open }) k'

    closed : (entry after fd).flags ≡ file_not_open
    closed = ground arith

    kept : (j : ℕ) → j ≢ fd → entry after j ≡ entry k' j
    kept j ne = ground arith
