-- ===== src/Syscalls/Guards.antt =====
-- What the system calls on files of student-distrib/system_execute.c do with a descriptor that was
-- opened, through the jump tables.
use mathlib.Core.Path.{ap₂, subst}
use octave_os.Base.{
  ℕ, ◌^◌, ◌<◌, ◌≡◌, ◌≢◌, ◌∙◌, ap, ◌⊎◌, inl, inr, List, true, false, arith, ◌==◌, ◌||◌, leb,
  if◌then◌else◌, ltb_signed, leb_signed, done, ◌>>=◌, add32, update, sym,
}
use octave_os.FileSys.{read_data}
use octave_os.FileSys.Blocks.{file_bytes}
use octave_os.FileSys.ReadData.{HasBlocks, wanted, read_data-file_bytes}
use octave_os.Kernel.{
  Ops, null_ops, stdin, stdout, dir_jump_s, file_jump_s, rtc_jump_s, Kernel, file_array_size,
  file_not_open, pid_to_pcb, is_null, put_entry,
}
use octave_os.Files.{fclose, dclose, close_entry, fread, advance}
use octave_os.Files.Descriptors.{entry, Opened}
use octave_os.Rtc.{rtc_close, put_scale}
use octave_os.Syscalls.{with_entry, system_close, system_read, call_close}

-- What a file's own close does beside closing the descriptor: that of the clock puts the running
-- process's clock back to one interrupt for each round.
unfoldable pub own_close : Ops → Kernel → Kernel
own_close rtc_jump_s k = record k { rtc_scales = update k.rtc_scales k.curr_pid 1 }
own_close ops k = k

-- Descriptor `fd` is closed in `k'`, and the others are as in `k`.
pub record Closed (k : Kernel) (fd : ℕ) (k' : Kernel) : Type 0 where
  pub flag : (entry k' fd).flags ≡ file_not_open
  pub others : (j : ℕ) → j ≢ fd → entry k' j ≡ entry k j

module _ (inode fd : ℕ) (k k' : Kernel) (h : is_null (pid_to_pcb k'.curr_pid) ≡ false) where
  low_fd :
      (ops : Ops)
      → Opened ops inode k fd k'
      → (ltb_signed file_array_size fd || ltb_signed fd 2) ≡ false
  low_fd ops o = ground (arith, o.least.from, o.least.below)

  -- The call behind the tests is that of the jump table.
  system_close-call :
      (ops : Ops) → Opened ops inode k fd k' → system_close fd k' ≡ call_close ops fd k'
  unfolding system_close with_entry
  system_close-call ops o =
      let inside : leb file_array_size fd ≡ false = ground (arith, o.least.below) in
      let opened : ((entry k' fd).flags == file_not_open) ≡ false = ground (arith, o.now) in
      let jumps : (entry k' fd).file_op_table_ptr ≡ ops = ap (λ e. e.file_op_table_ptr) o.now in
      rw (low_fd ops o, inside, opened, jumps)

  abbrev after : Kernel
  after = put_entry fd (record (entry k' fd) { flags = file_not_open }) k'

  Closed-after : (ops : Ops) → Opened ops inode k fd k' → Closed k fd after
  Closed-after ops o = record { flag = ground arith; others = λ j ne. kept j ne ∙ o.others j ne }
    where
      kept : (j : ℕ) → j ≢ fd → entry after j ≡ entry k' j
      kept j ne = ground arith

  -- The two close functions of filesys.c, behind their tests.
  close_entry-after :
      (ops : Ops) (m n : List ℕ) → Opened ops inode k fd k' → close_entry m n fd k' ≡ (0, after)
  unfolding close_entry
  close_entry-after ops m n o = rw h (rw (low ops o))
    where
      low :
          (ops : Ops)
          → Opened ops inode k fd k'
          → (leb_signed file_array_size fd || ltb_signed fd 2) ≡ false
      low ops o = ground (arith, o.least.from, o.least.below)

  -- `system_close` of a descriptor that an open of a directory, a file or the clock returned reaches
  -- that file's own close, which succeeds: the descriptor is closed, the others are as they were before
  -- the open, and of the rest of the kernel nothing changes for a directory or a file, while for the
  -- clock the running process's clock alone is put back to one interrupt for each round. The running
  -- process has a control block.
  pub system_close-Opened :
      (ops : Ops)
      → (ops ≡ dir_jump_s) ⊎ (ops ≡ file_jump_s) ⊎ (ops ≡ rtc_jump_s)
      → Opened ops inode k fd k'
      → (system_close fd k' ≡ done (0, own_close ops after)) × Closed k fd (own_close ops after)
  unfolding fclose dclose rtc_close own_close
  system_close-Opened ops which o = elim which [
    | inl e ↦ reached dir_jump_s e (ap done (close_entry-after ops _ _ o))
    | inr (inl e) ↦ reached file_jump_s e (ap done (close_entry-after ops _ _ o))
    | inr (inr e) ↦ reached rtc_jump_s e (
        ap (λ r. done (if r.0 == 0 then (0, put_scale 1 r.1) else r)) (close_entry-after ops _ _ o))
  ]
    where
      kept : (p : Ops) → Closed k fd after → Closed k fd (own_close p after)
      kept rtc_jump_s c = record { flag = c.flag; others = c.others }
      kept null_ops c = c
      kept stdin c = c
      kept stdout c = c
      kept dir_jump_s c = c
      kept file_jump_s c = c

      reached :
          (p : Ops)
          → ops ≡ p
          → call_close p fd k' ≡ done (0, own_close p after)
          → (system_close fd k' ≡ done (0, own_close ops after)) × Closed k fd (own_close ops after)
      reached p e run = (
        system_close-call ops o
            ∙ ap (λ p. call_close p fd k') e
            ∙ run
            ∙ ap (λ p. done (0, own_close p after)) (sym e),
        kept ops (Closed-after ops o),
      )

  system_read-call :
      (n buf nbytes : ℕ)
      → Opened file_jump_s inode k fd k'
      → system_read n fd buf nbytes k' ≡ fread fd buf nbytes k'
  unfolding system_read with_entry
  system_read-call n buf nbytes o =
      let inside : leb file_array_size fd ≡ false = ground (arith, o.least.below) in
      let opened : ((entry k' fd).flags == file_not_open) ≡ false = ground (arith, o.now) in
      let jumps : (entry k' fd).file_op_table_ptr ≡ file_jump_s =
        ap (λ e. e.file_op_table_ptr) o.now in
      let passes : (ltb_signed file_array_size fd || ltb_signed fd 0 || (fd == 1)) ≡ false =
        ground (arith, o.least.from, o.least.below) in
      rw (passes, inside, opened, jumps)

  fread-call :
      (buf nbytes : ℕ)
      → Opened file_jump_s inode k fd k'
      → buf ≢ 0
      → fread fd buf nbytes k' ≡ read_data k'.image inode 0 nbytes >>= λ q. done (advance fd q k')
  unfolding fread
  fread-call buf nbytes o nz =
      let inside : leb file_array_size fd ≡ false = ground (arith, o.least.below) in
      let buffer : (buf == 0) ≡ false = ground arith in
      let start : (entry k' fd).fpos ≡ 0 = ap (λ e. e.fpos) o.now in
      let at : (entry k' fd).inode ≡ inode = ap (λ e. e.inode) o.now in
      rw (buffer, h, inside)
        (ap₂ (λ i p. read_data k'.image i p nbytes >>= λ q. done (advance fd q k')) at start)

  -- `system_read` of a descriptor that an open of a regular file returned reads the file from its
  -- start, into a buffer that is not at address 0: it returns the smaller of the number of bytes asked
  -- for and the file's length, which is not 0, hands out as many bytes of the file's blocks, in order,
  -- moves the position behind them, and keeps the other descriptors. The inode and the blocks up to
  -- there are in the image, and the number is no negative one.
  pub system_read-file_bytes :
      (n buf nbytes : ℕ)
      → Opened file_jump_s inode k fd k'
      → buf ≢ 0
      → inode < k'.image.inode_count
      → 0 < (k'.image.inodes inode).length
      → wanted (k'.image.inodes inode) nbytes < 2 ^ 31
      → HasBlocks k'.image (k'.image.inodes inode) (wanted (k'.image.inodes inode) nbytes)
      → let w = wanted (k'.image.inodes inode) nbytes in
        let bytes = file_bytes k'.image (k'.image.inodes inode) 0 w in
        (k'' : Kernel) × (system_read n fd buf nbytes k' ≡ done (w, bytes, k''))
        × ((entry k'' fd).fpos ≡ w)
        × ((j : ℕ) → j ≢ fd → entry k'' j ≡ entry k j)
  system_read-file_bytes n buf nbytes o nz isin nonempty small ok =
      let run =
        read_data-file_bytes k'.image inode 0 nbytes isin nonempty (omega arith) (omega arith)
          (subst (HasBlocks k'.image (k'.image.inodes inode)) (omega arith) ok) in
      (
        moved,
        system_read-call n buf nbytes o
            ∙ fread-call buf nbytes o nz
            ∙ ap (λ r. r >>= λ q. done (advance fd q k')) run
            ∙ rw sign,
        position,
        λ j ne. kept j ne ∙ o.others j ne,
      )
    where
      w : ℕ
      w = wanted (k'.image.inodes inode) nbytes

      moved : Kernel
      moved = put_entry fd (record (entry k' fd) { fpos = add32 (entry k' fd).fpos w }) k'

      sign : leb_signed 0 w ≡ true
      sign = ground arith

      position : (entry moved fd).fpos ≡ w
      position = let start : (entry k' fd).fpos ≡ 0 = ap (λ e. e.fpos) o.now in ground arith

      kept : (j : ℕ) → j ≢ fd → entry moved j ≡ entry k' j
      kept j ne = ground arith
