-- ===== src/Programs/Ls/Lists.antt =====
-- What syscalls/ece391ls.c prints: the directory.
use octave_os.Base.{
  ℕ, zero, suc, ◌+◌, ◌^◌, ◌<◌, ◌≤◌, ◌≡◌, ◌≢◌, refl, ◌∙◌, ap, sym, arith, List, [], ◌∷◌, ◌++◌, some,
  true, false, leb, ◌==◌, if◌then◌else◌, length, length-append, minus_one, ltb_signed, leb_signed,
  add32, Outcome, done, ◌>>=◌,
}
use octave_os.Str.{Bytes, codes, as_bytes}
use octave_os.Console.{puts}
use octave_os.FileSys.{Image, Dentry, file_name_size, read_range, read_dentry_by_index, copy_dentry}
use octave_os.Kernel.{
  dir_jump_s, Kernel, file_array_size, file_open, print, is_null, pid_to_pcb, current_pcb,
  put_entry,
}
use octave_os.Files.{free_fd, dopen, dread, dread_entry}
use octave_os.Files.Descriptors.{entry, AllOpen, IsLeastClosed, free_fd-IsLeastClosed}
use octave_os.Syscalls.{call_read, system_read, system_write}
use octave_os.Printf.Pieces.Rendered.{print-append}
use octave_os.Keyboard.Line.{length-read_range}
use octave_os.Programs.{leave}
use octave_os.Programs.Output.{
  HasScreen, system_read-call_read, system_write-print, without_nuls, read_range-as_bytes,
}
use octave_os.Programs.Syserr.Opens.{HasDirectory, system_open-dopen}
use octave_os.Programs.Ls.{ls_loop, ls}

-- The line of an entry: the 32 bytes of its name but for its NULs, and a line break.
abbrev pub entry_line : Dentry → List ℕ
entry_line d = without_nuls (read_range d.filename 0 file_name_size ++ (10 ∷ []))

-- The lines of `m` entries from `i` on.
unfoldable pub directory_text : Image → (i m : ℕ) → List ℕ
directory_text img i zero = []
directory_text img i (suc m) = entry_line (img.direntries i) ++ directory_text img (i + 1) m

-- `fd` is open on the directory, at entry `i`.
record ListsFrom (fd i : ℕ) (k : Kernel) : Type 0 where
  lo : 2 ≤ fd
  hi : fd < file_array_size
  opened : (entry k fd).flags ≡ file_open
  jumps : (entry k fd).file_op_table_ptr ≡ dir_jump_s
  position : (entry k fd).fpos ≡ i
  process : is_null (pid_to_pcb k.curr_pid) ≡ false
  screen : HasScreen k

abbrev moved_on : ℕ → Kernel → Kernel
moved_on fd k = put_entry fd (record (entry k fd) { fpos = add32 (entry k fd).fpos 1 }) k

whole_line :
    (g : Bytes)
    → read_range (as_bytes (read_range g 0 file_name_size ++ (10 ∷ []))) 0 33
      ≡ read_range g 0 file_name_size ++ (10 ∷ [])
whole_line g =
    let cs = read_range g 0 file_name_size ++ (10 ∷ []) in
    let len : length cs ≡ 33 =
      length-append (read_range g 0 file_name_size) (10 ∷ [])
      ∙ omega (arith, length-read_range g 0 file_name_size) in
    ap (read_range (as_bytes cs) 0) (sym len) ∙ read_range-as_bytes cs

-- The directory opened.
abbrev opened_at : ℕ → Kernel → Kernel
opened_at fd k =
    put_entry fd (record { inode = 0; fpos = 0; flags = file_open; file_op_table_ptr = dir_jump_s })
      k

dopen-opened_at :
    (k : Kernel)
    → HasDirectory k
    → IsLeastClosed (current_pcb k).file_array 2 file_array_size (free_fd (current_pcb k))
    → dopen k ≡ (free_fd (current_pcb k), opened_at (free_fd (current_pcb k)) k)
unfolding dopen
dopen-opened_at k d l =
    let pos : ltb_signed 0 (free_fd (current_pcb k)) ≡ true = ground (arith, l.from, l.below) in
    rw d.process (rw pos refl)

ListsFrom-opened_at :
    (fd : ℕ) (k : Kernel)
    → HasDirectory k
    → HasScreen k
    → IsLeastClosed (current_pcb k).file_array 2 file_array_size fd
    → ListsFrom fd 0 (opened_at fd k)
ListsFrom-opened_at fd k d h l = record {
  lo = l.from;
  hi = l.below;
  opened = ground arith;
  jumps = ground arith;
  position = ground arith;
  process = d.process;
  screen = record {
    opened = let o = h.opened in let f = l.from in ground arith;
    jumps = let o = h.jumps in let f = l.from in ground arith;
  };
}

module _ (inb n buf : ℕ) (ok : buf ≢ 0) where
  system_read-dread_entry :
      (fd i nbytes : ℕ) (k : Kernel)
      → ListsFrom fd i k
      → system_read n fd buf nbytes k ≡ done (dread_entry fd k)
  unfolding dread
  system_read-dread_entry fd i nbytes k h =
      let inside : leb file_array_size fd ≡ false = ground (arith, h.hi) in
      let buffer : (buf == 0) ≡ false = ground arith in
      let reads : dread fd buf k ≡ done (dread_entry fd k) =
        rw buffer (rw h.process (rw inside refl)) in
      system_read-call_read n fd buf nbytes k h.lo h.hi h.opened
      ∙ ap (λ ops. call_read ops n fd buf nbytes k) h.jumps
      ∙ reads

  dread_entry-end :
      (fd i : ℕ) (k : Kernel)
      → ListsFrom fd i k
      → i ≡ k.image.dir_count
      → i < 2 ^ 31
      → dread_entry fd k ≡ (0, [], k)
  unfolding dread_entry
  dread_entry-end fd i k h e small =
      let over : leb_signed k.image.dir_count i ≡ true = ground arith in
      rw h.position (rw over refl)

  dread_entry-next :
      (fd i : ℕ) (k : Kernel)
      → ListsFrom fd i k
      → i < k.image.dir_count
      → k.image.dir_count < 2 ^ 31
      → dread_entry fd k
        ≡ (32, read_range (k.image.direntries i).filename 0 file_name_size, moved_on fd k)
  unfolding dread_entry read_dentry_by_index copy_dentry
  dread_entry-next fd i k h lt small =
      let inside : leb_signed k.image.dir_count (entry k fd).fpos ≡ false =
        ground (arith, h.position) in
      let below : leb k.image.dir_count (entry k fd).fpos ≡ false = ground (arith, h.position) in
      rw (inside, below)
        (ap (λ p. (32, read_range (k.image.direntries p).filename 0 file_name_size, moved_on fd k))
          h.position)

  ListsFrom-moved_on :
      (fd i : ℕ) (k : Kernel) (cs : List ℕ)
      → ListsFrom fd i k
      → i < 2 ^ 31
      → ListsFrom fd (i + 1) (print cs (moved_on fd k))
  ListsFrom-moved_on fd i k cs h small = record {
    lo = h.lo;
    hi = h.hi;
    opened = let o = h.opened in ground arith;
    jumps = let o = h.jumps in ground arith;
    position = let o = h.position in ground arith;
    process = h.process;
    screen = record {
      opened = let o = h.screen.opened in let l = h.lo in ground arith;
      jumps = let o = h.screen.jumps in let l = h.lo in ground arith;
    };
  }

  -- The round behind a read.
  abbrev round : (f fd : ℕ) → ℕ × List ℕ × Kernel → Outcome (ℕ × Kernel)
  round f fd (cnt, out, k1) =
      let failed = leave inb (codes "directory entry read failed\n") 3 k1 in
      let written =
        system_write inb 1 (some (as_bytes (out ++ (10 ∷ [])))) (cnt + 1) k1 >>= λ (r, k2).
        (let rest = ls_loop inb n buf f fd k2 in if r == minus_one then done (3, k2) else rest) in
      if cnt == 0 then done (0, k1) else if cnt == minus_one then failed else written

  round-print :
      (f fd : ℕ) (g : Bytes) (k1 : Kernel)
      → HasScreen k1
      → round f fd (32, read_range g 0 file_name_size, k1)
        ≡ ls_loop inb n buf f fd
            (print (without_nuls (read_range g 0 file_name_size ++ (10 ∷ []))) k1)
  round-print f fd g k1 h =
      let cs = read_range g 0 file_name_size ++ (10 ∷ []) in
      ap
        (λ o. o >>= λ (r, k2).
          (let rest = ls_loop inb n buf f fd k2 in if r == minus_one then done (3, k2) else rest))
        (system_write-print inb (as_bytes cs) 33 k1 h (omega arith))
      ∙ ap (λ t. ls_loop inb n buf f fd (print (without_nuls t) k1)) (whole_line g)

  ls_loop-directory_text :
      (m f fd i : ℕ) (k : Kernel)
      → ListsFrom fd i k
      → i + m ≡ k.image.dir_count
      → k.image.dir_count < 2 ^ 31
      → m < f
      → (k' : Kernel) × (ls_loop inb n buf f fd k ≡ done (0, k'))
        × (k'.screen ≡ (print (directory_text k.image i m) k).screen)
  unfolding ls_loop directory_text puts
  ls_loop-directory_text m zero fd i k h e small fuel = absurd (omega arith)
  ls_loop-directory_text zero (suc f) fd i k h e small fuel = (
    k,
    ap (λ o. o >>= λ r. round f fd r)
        (system_read-dread_entry fd i 32 k h
          ∙ ap done (dread_entry-end fd i k h (omega arith) (omega arith))),
    refl,
  )
  ls_loop-directory_text (suc m) (suc f) fd i k h e small fuel =
      let k1 = moved_on fd k in
      let d = k.image.direntries i in
      let k2 = print (entry_line d) k1 in
      let h2 = ListsFrom-moved_on fd i k (entry_line d) h (omega arith) in
      let (k', run, text) =
        ls_loop-directory_text m f fd (i + 1) k2 h2 (omega arith) small (omega arith) in
      (
        k',
        ap (λ o. o >>= λ r. round f fd r)
              (system_read-dread_entry fd i 32 k h
                ∙ ap done (dread_entry-next fd i k h (omega arith) small))
            ∙ round-print f fd d.filename k1
                (record { opened = h2.screen.opened; jumps = h2.screen.jumps })
            ∙ run,
        text
            ∙ sym (
                ap (λ k'. k'.screen)
                  (print-append (entry_line d) (directory_text k.image (i + 1) m) k)),
      )

  -- `ls` prints the directory: it returns 0, and the screen is that of the kernel before with a line
  -- printed for each of the `dir_count` entries, in order, the 32 bytes of the name without NULs. The
  -- running process has its screen open and a descriptor left, "." is a directory, there are fewer
  -- than 2 ^ 31 entries, and the fuel is more than they are. The buffer is not at address 0.
  pub ls-directory_text :
      (f : ℕ) (k : Kernel)
      → HasDirectory k
      → HasScreen k
      → ¬ AllOpen (current_pcb k).file_array 2 file_array_size
      → k.image.dir_count < 2 ^ 31
      → k.image.dir_count < f
      → (k' : Kernel) × (ls inb n buf f k ≡ done (0, k'))
        × (k'.screen ≡ (print (directory_text k.image 0 k.image.dir_count) k).screen)
  unfolding ls
  ls-directory_text f k d h some_closed small fuel =
      let least = free_fd-IsLeastClosed (current_pcb k) some_closed in
      let fd = free_fd (current_pcb k) in
      let k1 = opened_at fd k in
      let valid : (fd == minus_one) ≡ false = ground (arith, least.below) in
      let (k', run, text) =
        ls_loop-directory_text k.image.dir_count f fd 0 k1 (ListsFrom-opened_at fd k d h least)
          (omega arith) small fuel in
      (
        k',
        ap started (system_open-dopen inb k d ∙ dopen-opened_at k d least)
            ∙ ap
                (λ b.
                  if b
                  then leave inb (codes "directory open failed\n") 2 k1
                  else ls_loop inb n buf f fd k1)
                valid
            ∙ run,
        text,
      )
    where
      started : ℕ × Kernel → Outcome (ℕ × Kernel)
      started (fd, k1) =
          let failed = leave inb (codes "directory open failed\n") 2 k1 in
          let listed = ls_loop inb n buf f fd k1 in if fd == minus_one then failed else listed
