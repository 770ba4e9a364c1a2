-- ===== src/Tests/FileSystem.antt =====
-- The file system and the system calls on files, on the image of `Data`.
use octave_os.Base.{
  ℕ, false, ◌≤◌, ◌≡◌, ◌≢◌, refl, ◌⊎◌, ◌↔◌, inl, inr, [], ◌∷◌, arith, done, minus_one, if◌then◌else◌,
  ◌==◌,
}
use octave_os.Str.{Bytes, as_bytes, strncmp, strncmp_loop, text}
use octave_os.Str.Compare.{strncmp-eq_iff}
use octave_os.FileSys.{read_range, read_data, read_dentry_by_name, read_dentry_loop, rounds}
use octave_os.FileSys.ReadData.{HasBlocks, read_data-file_bytes}
use octave_os.FileSys.Directory.{Looked, read_dentry_by_name-Looked}
use octave_os.Kernel.{
  Kernel, file_jump_s, current_pcb, file_array_size, is_null, pid_to_pcb, put_entry, file_open,
}
use octave_os.Files.{no_dentry}
use octave_os.Files.Descriptors.{entry, Opened, AllOpen}
use octave_os.Syscalls.{system_close, system_read, system_open}
use octave_os.Syscalls.Guards.{Closed, own_close, system_close-Opened, system_read-file_bytes}
use octave_os.Syscalls.Open.{system_open-Opened}
use octave_os.Tests.Data.{image, kernel, name_hi, hello}

abbrev hi_bytes : Bytes
hi_bytes j = if j == 0 then 104 else if j == 1 then 105 else 0

hello_blocks : (stop : ℕ) → stop ≤ 10 → HasBlocks image (image.inodes 1) stop
hello_blocks stop h = record {
  small = omega arith;
  listed = omega arith;
  inside = λ d hd. omega arith;
}

read_data-file_bytes_example : read_data image 1 0 3 ≡ done (3, 104 ∷ 101 ∷ 108 ∷ [])
unfolding read_range
read_data-file_bytes_example =
    read_data-file_bytes image 1 0 3 (omega arith) (omega arith) (omega arith) (inl (omega arith))
      (hello_blocks 3 (omega arith))

read_dentry_by_name-Looked_example :
    Looked image hi_bytes no_dentry 0 (rounds 1) (read_dentry_by_name image hi_bytes no_dentry)
read_dentry_by_name-Looked_example =
    read_dentry_by_name-Looked image hi_bytes no_dentry (λ i. ground arith) (λ i j. ground arith)

strncmp-eq_iff_example : (strncmp hi_bytes hi_bytes 32 ≡ 0) ↔ (text hi_bytes 32 ≡ text hi_bytes 32)
strncmp-eq_iff_example = strncmp-eq_iff hi_bytes hi_bytes 32 (λ i. ground arith) (λ i. ground arith)

runs : is_null (pid_to_pcb 1) ≡ false
unfolding pid_to_pcb
runs = refl

found_hi : (read_dentry_by_name image (as_bytes name_hi) no_dentry).0 ≡ 0
unfolding read_dentry_by_name read_dentry_loop strncmp strncmp_loop
found_hi = refl

-- The file opened, at descriptor 2.
abbrev opened : Kernel
opened =
    put_entry 2 (record { file_op_table_ptr = file_jump_s; inode = 1; fpos = 0; flags = file_open })
      kernel

opened-Opened : Opened file_jump_s 1 kernel 2 opened
opened-Opened = record {
  least = record {
    from = omega arith;
    below = omega arith;
    was_closed = λ e. omega arith;
    lower_open = λ j lo hi. omega arith;
  };
  now = refl;
  others = λ j ne. ground arith;
}

-- The kernel after the descriptor is closed again.
abbrev closed : Kernel
closed = put_entry 2 (record (entry opened 2) { flags = 0 }) opened

system_close-Opened_example : (system_close 2 opened ≡ done (0, closed)) × Closed kernel 2 closed
unfolding own_close
system_close-Opened_example =
    system_close-Opened 1 2 kernel opened runs file_jump_s (inr (inl refl)) opened-Opened

system_read-file_bytes_example :
    (k : Kernel) × (system_read 0 2 4096 9 opened ≡ done (5, hello, k))
    × ((entry k 2).fpos ≡ 5)
    × ((j : ℕ) → j ≢ 2 → entry k j ≡ entry kernel j)
unfolding read_range
system_read-file_bytes_example =
    system_read-file_bytes 1 2 kernel opened runs 0 4096 9 opened-Opened (λ e. omega arith)
      (omega arith) (omega arith) (omega arith) (hello_blocks 5 (omega arith))

regular_hi : (read_dentry_by_name image (as_bytes name_hi) no_dentry).1.filetype ≡ 2
unfolding read_dentry_by_name read_dentry_loop strncmp strncmp_loop
regular_hi = refl

system_open-Opened_example :
    Opened file_jump_s
      (read_dentry_by_name image (as_bytes name_hi) no_dentry).1.inode_num
      kernel
      (system_open 0 name_hi kernel).0
      (system_open 0 name_hi kernel).1
    ⊎ (AllOpen (current_pcb kernel).file_array 2 file_array_size
        × (system_open 0 name_hi kernel ≡ (minus_one, kernel)))
system_open-Opened_example =
    system_open-Opened 0 name_hi kernel (λ e. omega (arith, found_hi)) regular_hi runs
