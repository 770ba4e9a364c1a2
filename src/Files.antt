-- ===== src/Files.antt =====
-- The file functions on descriptors of student-distrib/filesys.c: `fopen`, `fread`, `fclose`,
-- `fwrite`, `dopen`, `dread`, `dclose`, `dwrite`.
--
-- A `filename` is the bytes before its NUL, and `none` for a null pointer; a buffer to read into is
-- its address, and what goes into it is returned. An open returns its value and the kernel, a read
-- its value, the bytes written to the buffer and the kernel.
pub mod Descriptors
use octave_os.Base.{
  ℕ, zero, suc, ◌+◌, ◌-◌, List, [], ◌∷◌, ◌++◌, Option, none, some, Bool, true, false, not, ◌||◌,
  leb, ◌==◌, if◌then◌else◌, add32, minus_one, ltb_signed, leb_signed, Outcome, done, fault,
  out_of_bounds, ◌>>=◌,
}
use octave_os.Str.{Bytes, codes, as_bytes}
use octave_os.FileSys.{
  Dentry, file_name_size, read_dentry_by_name, read_dentry_by_index, read_data, read_range,
}
use octave_os.Kernel.{
  null_ops, dir_jump_s, file_jump_s, FdEntry, Pcb, Kernel, file_array_size, file_open,
  file_not_open, pid_to_pcb, is_null, current_pcb, put_entry, print,
}

-- `for (i = 2; i < FILE_ARRAY_SIZE; ++i)` of the three open functions, at `i` with `n` rounds left:
-- the first entry that is not open, and 0 if every one is.
unfoldable pub find_fd : (ℕ → FdEntry) → ℕ → ℕ → ℕ
find_fd t i zero = 0
find_fd t i (suc n) =
    let rest = find_fd t (i + 1) n in if not ((t i).flags == file_open) then i else rest

abbrev pub free_fd : Pcb → ℕ
free_fd b = find_fd b.file_array 2 (file_array_size - 2)

-- What a local `dentry_t` holds before it is written.
abbrev pub no_dentry : Dentry
no_dentry = record { filename = λ i. 0; filetype = 0; inode_num = 0; reserved = λ i. 0 }

unfoldable pub not_read_message : List ℕ → List ℕ
not_read_message name = codes "did not read dentry correctly\n" ++ name ++ (10 ∷ [])

-- The part of `fopen` behind the null checks.
unfoldable pub fopen_name : List ℕ → Kernel → ℕ × Kernel
unfolding not_read_message
fopen_name name k =
    let fd = free_fd (current_pcb k) in
    let (found, dentry) = read_dentry_by_name k.image (as_bytes name) no_dentry in
    if ltb_signed 0 fd
    then (if found == minus_one then (minus_one, print (not_read_message name) k) else (
      fd,
      put_entry fd
          (record {
            inode = dentry.inode_num;
            fpos = 0;
            flags = file_open;
            file_op_table_ptr = file_jump_s;
          })
          k,
    ))
    else (minus_one, k)

unfoldable pub fopen : Option (List ℕ) → Kernel → ℕ × Kernel
unfolding fopen_name
fopen none k = (minus_one, k)
fopen (some name) k = if is_null (pid_to_pcb k.curr_pid) then (minus_one, k) else fopen_name name k

-- `fpos += retval` where the read succeeded.
abbrev pub advance : ℕ → ℕ × List ℕ → Kernel → ℕ × List ℕ × Kernel
advance fd (retval, out) k =
    let e = (current_pcb k).file_array fd in
    (
      retval,
      out,
      (if leb_signed 0 retval then put_entry fd (record e { fpos = add32 e.fpos retval }) k else k),
    )

unfoldable pub fread : (fd buf nbytes : ℕ) → Kernel → Outcome (ℕ × List ℕ × Kernel)
fread fd buf nbytes k =
    let e = (current_pcb k).file_array fd in
    if (buf == 0) || is_null (pid_to_pcb k.curr_pid)
    then done (minus_one, [], k)
    else if leb file_array_size fd
    then fault out_of_bounds
    else read_data k.image e.inode e.fpos nbytes >>= λ r. done (advance fd r k)

-- `fclose` and `dclose`, which differ in their messages.
unfoldable pub close_entry : (null_message fd_message : List ℕ) → ℕ → Kernel → ℕ × Kernel
close_entry null_message fd_message fd k =
    let e = (current_pcb k).file_array fd in
    if is_null (pid_to_pcb k.curr_pid)
    then (minus_one, print null_message k)
    else if leb_signed file_array_size fd || ltb_signed fd 2
    then (minus_one, print fd_message k)
    else (0, put_entry fd (record e { flags = file_not_open }) k)

unfoldable pub fclose : ℕ → Kernel → ℕ × Kernel
unfolding close_entry
fclose fd k =
    close_entry (codes "Passed in null ptr to fclose") (codes "Passed in invalid fd to fclose") fd k

unfoldable pub fwrite : ℕ → Kernel → ℕ × Kernel
fwrite fd k = (minus_one, k)

unfoldable pub dclose : ℕ → Kernel → ℕ × Kernel
unfolding close_entry
dclose fd k =
    close_entry (codes "Passed in null ptr to dclose") (codes "Passed in invalid fd to dclose") fd k

unfoldable pub dwrite : ℕ → Kernel → ℕ × Kernel
dwrite fd k = (minus_one, k)

-- The name that `dopen` is given is ignored.
unfoldable pub dopen : Kernel → ℕ × Kernel
dopen k =
    let fd = free_fd (current_pcb k) in
    if is_null (pid_to_pcb k.curr_pid)
    then (minus_one, print (codes "Null pcb") k)
    else if ltb_signed 0 fd
    then (
      fd,
      put_entry fd
          (record { inode = 0; fpos = 0; flags = file_open; file_op_table_ptr = dir_jump_s }) k,
    )
    else (minus_one, k)

-- The part of `dread` behind the null checks. All 32 bytes of the name are copied, whatever
-- `nbytes` is.
unfoldable pub dread_entry : ℕ → Kernel → ℕ × List ℕ × Kernel
dread_entry fd k =
    let e = (current_pcb k).file_array fd in
    let (found, dentry) = read_dentry_by_index k.image e.fpos no_dentry in
    if leb_signed k.image.dir_count e.fpos
    then (0, [], k)
    else if found == minus_one
    then (minus_one, [], k)
    else (
      file_name_size,
      read_range dentry.filename 0 file_name_size,
      put_entry fd (record e { fpos = add32 e.fpos 1 }) k,
    )

unfoldable pub dread : (fd buf : ℕ) → Kernel → Outcome (ℕ × List ℕ × Kernel)
unfolding dread_entry
dread fd buf k =
    if (buf == 0) || is_null (pid_to_pcb k.curr_pid)
    then done (minus_one, [], k)
    else if leb file_array_size fd
    then fault out_of_bounds
    else done (dread_entry fd k)
