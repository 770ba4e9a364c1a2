-- ===== src/Syscalls.antt =====
-- The system calls on files of student-distrib/system_execute.c: `system_open`, `system_close`,
-- `system_read` and `system_write`, with the jump tables through which they reach a file's own
-- functions (system_execute.c, filesys.c, rtc.c).
--
-- A buffer to read into is its address, and what goes into it is returned; a buffer to write is
-- `none` for a null pointer. `inb` is what the clock's port answers, `n` the number of the clock's
-- interrupts during the call.
pub mod Guards
pub mod Open
use octave_os.Base.{
  ℕ, zero, suc, ◌+◌, List, [], Option, none, some, Bool, ◌||◌, leb, ◌==◌, if◌then◌else◌, minus_one,
  ltb_signed, Outcome, done, fault, out_of_bounds, null_call, ◌>>=◌,
}
use octave_os.Str.{Bytes, as_bytes}
use octave_os.FileSys.{read_dentry_by_name}
use octave_os.Kernel.{
  Ops, null_ops, stdin, stdout, dir_jump_s, file_jump_s, rtc_jump_s, FdEntry, Kernel,
  file_array_size, file_not_open, current_pcb,
}
use octave_os.Files.{no_dentry, fopen, fread, fclose, fwrite, dopen, dread, dclose, dwrite}
use octave_os.Rtc.{rtc_open, rtc_close, rtc_read, rtc_write}
use octave_os.Terminal.{term_open, term_close, term_read, term_write}

abbrev pub rtc_file : ℕ
rtc_file = 0

abbrev pub dir_file : ℕ
dir_file = 1

abbrev pub reg_file : ℕ
reg_file = 2

unfoldable pub system_open : (inb : ℕ) → List ℕ → Kernel → ℕ × Kernel
system_open inb filename k =
    let (found, dentry) = read_dentry_by_name k.image (as_bytes filename) no_dentry in
    let type = dentry.filetype in
    if found == minus_one
    then (minus_one, k)
    else if type == rtc_file
    then rtc_open inb filename k
    else if type == dir_file
    then dopen k
    else if type == reg_file
    then fopen (some filename) k
    else (minus_one, k)

-- `file_op_table_ptr->close(fd)`
abbrev pub call_close : Ops → (fd : ℕ) → Kernel → Outcome (ℕ × Kernel)
call_close null_ops fd k = fault null_call
call_close stdin fd k = done (term_close k)
call_close stdout fd k = done (term_close k)
call_close dir_jump_s fd k = done (dclose fd k)
call_close file_jump_s fd k = done (fclose fd k)
call_close rtc_jump_s fd k = done (rtc_close fd k)

-- A call that writes nothing to the buffer.
abbrev pub without_bytes : ℕ × Kernel → ℕ × List ℕ × Kernel
without_bytes (r, k) = (r, [], k)

-- `file_op_table_ptr->read(fd, buf, nbytes)`
abbrev pub call_read : Ops → (n fd buf nbytes : ℕ) → Kernel → Outcome (ℕ × List ℕ × Kernel)
call_read null_ops n fd buf nbytes k = fault null_call
call_read stdin n fd buf nbytes k = term_read nbytes k
call_read stdout n fd buf nbytes k = done (without_bytes (term_open k))
call_read dir_jump_s n fd buf nbytes k = dread fd buf k
call_read file_jump_s n fd buf nbytes k = fread fd buf nbytes k
call_read rtc_jump_s n fd buf nbytes k = rtc_read n k >>= λ r. done (without_bytes r)

-- `file_op_table_ptr->write(fd, buf, nbytes)`
abbrev pub call_write :
    Ops → (inb fd : ℕ) → Option Bytes → (nbytes : ℕ) → Kernel → Outcome (ℕ × Kernel)
call_write null_ops inb fd buf nbytes k = fault null_call
call_write stdin inb fd buf nbytes k = done (term_open k)
call_write stdout inb fd buf nbytes k = term_write buf nbytes k
call_write dir_jump_s inb fd buf nbytes k = done (dwrite fd k)
call_write file_jump_s inb fd buf nbytes k = done (fwrite fd k)
call_write rtc_jump_s inb fd buf nbytes k = rtc_write inb buf k

-- The end of the three calls: `file_array[fd]` is read, which is out of bounds for 8, the number of
-- entries, that the tests before let through; -1 if the descriptor is not open.
unfoldable pub with_entry : {A : Type 0} → (failed : A) → ℕ → (Ops → Outcome A) → Kernel → Outcome A
with_entry failed fd run k =
    let e = (current_pcb k).file_array fd in
    if leb file_array_size fd
    then fault out_of_bounds
    else if e.flags == file_not_open
    then done failed
    else run e.file_op_table_ptr

unfoldable pub system_close : (fd : ℕ) → Kernel → Outcome (ℕ × Kernel)
unfolding with_entry
system_close fd k =
    if ltb_signed file_array_size fd || ltb_signed fd 2
    then done (minus_one, k)
    else with_entry (minus_one, k) fd (λ ops. call_close ops fd k) k

unfoldable pub system_read : (n fd buf nbytes : ℕ) → Kernel → Outcome (ℕ × List ℕ × Kernel)
unfolding with_entry
system_read n fd buf nbytes k =
    if ltb_signed file_array_size fd || ltb_signed fd 0 || (fd == 1)
    then done (minus_one, [], k)
    else with_entry (minus_one, [], k) fd (λ ops. call_read ops n fd buf nbytes k) k

unfoldable pub system_write :
    (inb fd : ℕ) → Option Bytes → (nbytes : ℕ) → Kernel → Outcome (ℕ × Kernel)
unfolding with_entry
system_write inb fd buf nbytes k =
    if ltb_signed file_array_size fd || ltb_signed fd 0 || (fd == 0)
    then done (minus_one, k)
    else with_entry (minus_one, k) fd (λ ops. call_write ops inb fd buf nbytes k) k
