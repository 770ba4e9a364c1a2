-- ===== src/Process.antt =====
-- The processes of student-distrib/system_execute.c: their control blocks and numbers, `system_halt`
-- and `system_getargs`. `system_execute` is in `Execute`.
pub mod Pids
use octave_os.Base.{
  ℕ, zero, suc, ◌+◌, ◌-◌, ◌*◌, ◌/◌, ◌%◌, ◌^◌, List, [], ◌∷◌, Bool, ltb, leb, ◌==◌, if◌then◌else◌,
  nonzero, sub32, minus_one, word_mod, ltb_signed, leb_signed, update, Outcome, done, fault, waits,
  min,
}
use octave_os.Str.{Bytes}
use octave_os.FileSys.{read_range, rounds}
use octave_os.Screen.{put_terminal}
use octave_os.Kernel.{
  null_ops, stdin, stdout, FdEntry, Pcb, Kernel, max_pid, file_array_size, file_open, eight_mb,
  eight_kb, current_pcb, current_term,
}
use octave_os.Files.{fclose}
use octave_os.Paging.{setup_paging}

abbrev pub arg_size : ℕ
arg_size = 128

abbrev pub kernel_ds : ℕ
kernel_ds = 0x0018

-- A control block cleared by `memset`.
abbrev pub zero_pcb : Pcb
zero_pcb = record {
  file_array = λ i. record { file_op_table_ptr = null_ops; inode = 0; fpos = 0; flags = 0 };
  my_pid = 0;
  parent_pid = 0;
  parent_esp = 0;
  parent_ebp = 0;
  esp0 = 0;
  ss0 = 0;
  args = λ i. 0;
  my_k_esp = 0;
  my_k_ebp = 0;
}

-- The loop of `init_processes`: the numbers below MAX_PID are free and their blocks cleared.
unfoldable pub init_processes : Kernel → Kernel
init_processes k = record k {
  free_pid = λ i. if ltb i max_pid then 1 else k.free_pid i;
  pcbs = λ i. if ltb i max_pid then zero_pcb else k.pcbs i;
}

-- The loop of `find_free_process` at `i`, with `n` rounds left.
unfoldable pub find_free : (ℕ → ℕ) → ℕ → ℕ → ℕ
find_free free i zero = minus_one
find_free free i (suc n) =
    let rest = find_free free (i + 1) n in if nonzero (free i) then i else rest

unfoldable pub find_free_process : Kernel → ℕ
unfolding find_free
find_free_process k = find_free k.free_pid 0 max_pid

unfoldable pub pid_to_ksb : (pid : ℕ) → ℕ
pid_to_ksb pid = sub32 (eight_mb - 4) (eight_kb * pid % word_mod)

-- The block of a process replaced.
abbrev pub put_pcb : (pid : ℕ) → Pcb → Kernel → Kernel
put_pcb pid b k = record k { pcbs = update k.pcbs pid b }

unfoldable pub create_pcb : (parent_pid child_pid : ℕ) → Kernel → Kernel
create_pcb parent_pid child_pid k =
    put_pcb child_pid
      (record (k.pcbs child_pid) {
        my_pid = child_pid;
        parent_pid = parent_pid;
        esp0 = k.tss_esp0;
        ss0 = k.tss_ss0;
      })
      k

unfoldable pub restore_tss : (child_pid : ℕ) → Kernel → Kernel
restore_tss child_pid k = record k { tss_esp0 = (k.pcbs child_pid).parent_esp; tss_ss0 = kernel_ds }

unfoldable pub initialize_stdio : Pcb → Pcb
initialize_stdio b =
    let input : FdEntry = record {
      file_op_table_ptr = stdin;
      inode = 0;
      fpos = 0;
      flags = file_open;
    } in
    let output : FdEntry = record {
      file_op_table_ptr = stdout;
      inode = 0;
      fpos = 0;
      flags = file_open;
    } in
    record b { file_array = update (update b.file_array 0 input) 1 output }

-- `for (i = 2; i < FILE_ARRAY_SIZE; i++) fclose(i)`, at `i` with `n` rounds left.
unfoldable pub close_files : (i n : ℕ) → Kernel → Kernel
close_files i zero k = k
close_files i (suc n) k = close_files (i + 1) n (fclose i k).1

-- The end of `system_halt`: either the parent's `system_execute` goes on, or, for one of the three
-- shells, the kernel spins until the next process is scheduled.
pub data Halted : Type 0 where
  resumes_parent : (ebp esp : ℕ) → Halted
  spins : Halted

unfoldable pub system_halt : Kernel → Halted × Kernel
unfolding close_files restore_tss
system_halt k =
    let pid = k.curr_pid in
    let k1 =
      close_files 2 (file_array_size - 2) (record k { free_pid = update k.free_pid pid 1 }) in
    let parent = (k1.pcbs pid).parent_pid in
    let k2 = restore_tss pid (setup_paging parent k1) in
    let t = k2.pid_to_term pid in
    let td = record (k2.screen.terminals t) { top_pid = parent } in
    let k3 = record k2 { screen = put_terminal t td k2.screen; curr_pid = parent } in
    if leb_signed pid 2
    then (spins, record k3 { restart_shell = 1 })
    else (resumes_parent (k3.pcbs pid).parent_ebp (k3.pcbs pid).parent_esp, k3)

-- The bytes that go into the user's buffer: those below `nbytes`, the last of the 128 left out.
unfoldable pub system_getargs : (nbytes : ℕ) → Kernel → ℕ × List ℕ
system_getargs nbytes k =
    (0, read_range (current_pcb k).args 0 (min (rounds nbytes) (arg_size - 1)))

unfoldable pub system_set_handler : (signum : ℕ) → Kernel → ℕ × Kernel
system_set_handler signum k = (0, k)

unfoldable pub system_sigreturn : Kernel → ℕ × Kernel
system_sigreturn k = (0, k)
