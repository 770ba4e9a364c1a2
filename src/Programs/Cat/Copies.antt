-- ===== src/Programs/Cat/Copies.antt =====
-- What syscalls/ece391cat.c prints: the file.
use mathlib.Core.Path.{subst}
use octave_os.Base.{
  ℕ, zero, suc, ◌+◌, ◌*◌, ◌/◌, ◌<◌, ◌≤◌, ◌≡◌, ◌≢◌, refl, ◌∙◌, ap, arith, List, some, true, false,
  ltb, ◌==◌, if◌then◌else◌, minus_one, ltb_signed, Outcome, done, Bool-cases, inl, inr, ◌>>=◌,
}
use octave_os.Str.{codes, as_bytes}
use octave_os.FileSys.{block_size, read_dentry_by_name}
use octave_os.FileSys.Blocks.{file_bytes}
use octave_os.FileSys.ReadData.{HasBlocks}
use octave_os.Kernel.{
  file_jump_s, Kernel, file_array_size, file_open, print, is_null, pid_to_pcb, current_pcb,
  put_entry,
}
use octave_os.Files.{no_dentry, free_fd, fopen, fopen_name}
use octave_os.Files.Descriptors.{AllOpen, IsLeastClosed, free_fd-IsLeastClosed}
use octave_os.Syscalls.{reg_file, system_open}
use octave_os.Syscalls.Open.{system_open-fopen}
use octave_os.Programs.{leave}
use octave_os.Programs.Output.{HasScreen, without_nuls}
use octave_os.Process.{system_getargs}
use octave_os.Programs.Cat.{cat_loop, cat_file, cat, c_string}
use octave_os.Programs.Cat.Reads.{ReadsFrom, Reads, finished, another, cat_loop-bytes}

-- How much `cat` prints of a file of at most 4096 bytes: all of it, and of one longer than its buffer
-- whole buffers.
unfoldable pub printed_length : ℕ → ℕ
printed_length size = if ltb 1024 size then (size + 1023) / 1024 * 1024 else size

Reads-buffers :
    (size m p : ℕ)
    → size ≤ p + m * 1024
    → p + m * 1024 ≤ block_size
    → p + m * 1024 < size + 1024
    → Reads 1024 size m p (m * 1024)
Reads-buffers size zero p enough fits last = finished (omega arith)
Reads-buffers size (suc m) p enough fits last =
    let total : 1024 + m * 1024 ≡ suc m * 1024 = omega arith in
    subst (Reads 1024 size (suc m) p) total (
      another (omega arith) (omega arith)
        (Reads-buffers size m (p + 1024) (omega arith) (omega arith) (omega arith)))

-- The reads of a file of at most 4096 bytes.
Reads-printed_length :
    (size : ℕ)
    → size ≤ block_size
    → (m : ℕ) × (m < 5)
      × Reads (if ltb 1024 size then 1024 else size) size m 0 (printed_length size)
unfolding printed_length
Reads-printed_length size small = elim (Bool-cases (ltb 1024 size)) [
  | inl long ↦
      let lt : 1024 < size = ground arith in
      let m = (size + 1023) / 1024 in
      rw long (m, omega arith, Reads-buffers size m 0 (omega arith) (omega arith) (omega arith))
  | inr short ↦ rw short (one size (ground arith))
]
  where
    one : (size : ℕ) → size ≤ 1024 → (m : ℕ) × (m < 5) × Reads size size m 0 size
    one zero le = (0, omega arith, finished (omega arith))
    one (suc size) le =
        let total : suc size + 0 ≡ suc size = omega arith in
        (
          1,
          omega arith,
          subst (Reads (suc size) (suc size) 1 0) total
              (another (omega arith) (omega arith) (finished (omega arith))),
        )

-- `main` from the open of a regular file on.
module _ (inb n buf : ℕ) (ok : buf ≢ 0) (name : List ℕ) (k : Kernel)
    (found : (read_dentry_by_name k.image (as_bytes name) no_dentry).0 ≢ minus_one)
    (regular : (read_dentry_by_name k.image (as_bytes name) no_dentry).1.filetype ≡ reg_file)
    (process : is_null (pid_to_pcb k.curr_pid) ≡ false) (h : HasScreen k)
    (some_closed : ¬ AllOpen (current_pcb k).file_array 2 file_array_size) where
  abbrev inode : ℕ
  inode = (read_dentry_by_name k.image (as_bytes name) no_dentry).1.inode_num

  abbrev fd : ℕ
  fd = free_fd (current_pcb k)

  abbrev opened : Kernel
  opened =
      put_entry fd
        (record { inode = inode; fpos = 0; flags = file_open; file_op_table_ptr = file_jump_s }) k

  least : IsLeastClosed (current_pcb k).file_array 2 file_array_size fd
  least = free_fd-IsLeastClosed (current_pcb k) some_closed

  system_open-file : system_open inb name k ≡ (fd, opened)
  unfolding fopen fopen_name
  system_open-file =
      let pos : ltb_signed 0 fd ≡ true = ground (arith, least.from, least.below) in
      let hit : ((read_dentry_by_name k.image (as_bytes name) no_dentry).0 == minus_one) ≡ false =
        ground arith in
      let opens : fopen (some name) k ≡ (fd, opened) = rw process (rw pos (rw hit refl)) in
      system_open-fopen inb name k found regular ∙ opens

  ReadsFrom-opened : ReadsFrom inode fd 0 opened
  ReadsFrom-opened = record {
    lo = least.from;
    hi = least.below;
    opened = ground arith;
    jumps = ground arith;
    file = ground arith;
    position = ground arith;
    process = process;
    screen = record {
      opened = let o = h.opened in let l = least.from in ground arith;
      jumps = let o = h.jumps in let l = least.from in ground arith;
    };
  }

  -- The part of `main` behind the arguments.
  cat_file-bytes :
      (f : ℕ)
      → 5 ≤ f
      → inode < k.image.inode_count
      → (k.image.inodes inode).length ≤ block_size
      → HasBlocks k.image (k.image.inodes inode) block_size
      → let size = (k.image.inodes inode).length in
        let printed = file_bytes k.image (k.image.inodes inode) 0 (printed_length size) in
        (k' : Kernel) × (cat_file inb n buf f name k ≡ done (0, k'))
        × (k'.screen ≡ (print (without_nuls printed) k).screen)
  unfolding cat_file
  cat_file-bytes f fuel isin small blocks =
      let size = (k.image.inodes inode).length in
      let (m, few, r) = Reads-printed_length size small in
      let valid : (fd == minus_one) ≡ false = ground (arith, least.below) in
      let (k', run, text) =
        cat_loop-bytes inb n buf ok inode m f fd 0 opened (printed_length size) ReadsFrom-opened
          isin blocks r (omega arith) in
      (
        k',
        ap started system_open-file
            ∙ ap
                (λ b.
                  if b
                  then leave inb (codes "file not found\n") 2 opened
                  else cat_loop inb n buf f fd opened)
                valid
            ∙ run,
        text,
      )
    where
      started : ℕ × Kernel → Outcome (ℕ × Kernel)
      started (fd, k1) =
          let failed = leave inb (codes "file not found\n") 2 k1 in
          let copied = cat_loop inb n buf f fd k1 in if fd == minus_one then failed else copied

  -- `cat` whose argument is the name of a regular file of at most 4096 bytes returns 0, and the screen
  -- is that of the kernel before with the bytes of the file, but for its NULs, printed in order: all of
  -- a file of at most 1024 bytes, and exactly these; of a longer one whole buffers of 1024, so up to
  -- 1023 bytes behind its end. The argument has its NUL among the 127 bytes that are copied, the
  -- directory has the name, the inode and its first block are in the image, the running process has its
  -- screen open and a descriptor left, the buffer is not at address 0, and the fuel is at least 5.
  pub cat-bytes :
      (f : ℕ)
      → c_string (system_getargs 1024 k).1 ≡ done name
      → 5 ≤ f
      → inode < k.image.inode_count
      → (k.image.inodes inode).length ≤ block_size
      → HasBlocks k.image (k.image.inodes inode) block_size
      → let size = (k.image.inodes inode).length in
        let printed = file_bytes k.image (k.image.inodes inode) 0 (printed_length size) in
        (k' : Kernel) × (cat inb n buf f k ≡ done (0, k'))
        × (k'.screen ≡ (print (without_nuls printed) k).screen)
  unfolding cat system_getargs
  cat-bytes f args fuel isin small blocks =
      let (k', run, text) = cat_file-bytes f fuel isin small blocks in
      (k', ap (λ o. o >>= λ name. cat_file inb n buf f name k) args ∙ run, text)
