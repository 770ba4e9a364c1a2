-- ===== src/Execute.antt =====
-- `system_execute` of student-distrib/system_execute.c.
--
-- The command is the bytes before its NUL. `stack` is what the local array `executable` holds before
-- it is written, and `ebp` and `esp` are the registers that the call saves. A word of the command that
-- does not fit `file_name`, and a command without a NUL in `cmd_holder`, lead out of an array.
pub mod Started
use octave_os.Base.{
  ℕ, zero, suc, ◌+◌, ◌-◌, ◌*◌, ◌^◌, ◌%◌, List, [], ◌∷◌, some, Bool, not, ◌||◌, ◌&&◌, ◌==◌,
  if◌then◌else◌, get_or, leb, minus_one, ltb_signed, update, Outcome, done, fault, out_of_bounds,
  ◌>>=◌,
}
use octave_os.Str.{Bytes, codes, as_bytes, strncmp, strncpy}
use octave_os.FileSys.{file_name_size, read_data}
use octave_os.Screen.{put_terminal, poke}
use octave_os.Kernel.{Pcb, Kernel, current_pcb, print}
use octave_os.Files.{fopen, fread, fclose}
use octave_os.Paging.{program_address, setup_paging}
use octave_os.Process.{
  arg_size, kernel_ds, find_free_process, create_pcb, initialize_stdio, pid_to_ksb, put_pcb,
}

abbrev pub exec_size : ℕ
exec_size = 40

abbrev pub max_shells : ℕ
max_shells = 5

-- `strncpy` of the command into the cleared `cmd_holder`.
abbrev pub cmd_holder : List ℕ → Bytes
cmd_holder command = strncpy (λ i. 0) (as_bytes command) arg_size

-- `while (cmd_holder[cmd_idx] == ' ')` at `i`, with `n` bytes of the array left.
unfoldable pub skip_spaces : Bytes → (i n : ℕ) → Outcome ℕ
skip_spaces cmd i zero = fault out_of_bounds
skip_spaces cmd i (suc n) =
    let rest = skip_spaces cmd (i + 1) n in if cmd i == 32 then rest else done i

-- The loop that copies a word to `file_name`, of which `room` bytes are left: where it stops, and
-- the word.
unfoldable pub copy_word : Bytes → (i n room : ℕ) → Outcome (ℕ × List ℕ)
copy_word cmd i zero room = fault out_of_bounds
copy_word cmd i (suc n) zero =
    if (cmd i == 32) || (cmd i == 0) then done (i, []) else fault out_of_bounds
copy_word cmd i (suc n) (suc room) =
    let rest = copy_word cmd (i + 1) n room >>= λ r. done (r.0, cmd i ∷ r.1) in
    if (cmd i == 32) || (cmd i == 0) then done (i, []) else rest

-- The two loops.
unfoldable pub parse_name : Bytes → Outcome (ℕ × List ℕ)
unfolding skip_spaces copy_word
parse_name cmd = skip_spaces cmd 0 arg_size >>= λ i. copy_word cmd i (arg_size - i) file_name_size

-- The loop that sets the arguments: every byte up to the NUL that is no space.
unfoldable pub copy_args : Bytes → (i n : ℕ) → Outcome (List ℕ)
copy_args cmd i zero = fault out_of_bounds
copy_args cmd i (suc n) =
    let rest = copy_args cmd (i + 1) n in
    if cmd i == 0 then done [] else if cmd i == 32 then rest else rest >>= λ cs. done (cmd i ∷ cs)

-- The four bytes at the start of an executable.
unfoldable pub is_executable : Bytes → Bool
is_executable b = (b 0 == 0x7f) && (b 1 == 0x45) && (b 2 == 0x4c) && (b 3 == 0x46)

-- Bytes 24 to 27, the lowest first.
abbrev pub entry_point : Bytes → ℕ
entry_point b = ((b 27 * 2 ^ 8 + b 26) * 2 ^ 8 + b 25) * 2 ^ 8 + b 24

-- How the call ends: it returns, or the new program is entered.
pub data Executed : Type 0 where
  returns : ℕ → Executed
  enters : (entry_point : ℕ) → Executed

-- The file is opened, its first bytes read, and the file closed: the descriptor, what `fread`
-- returned and the array `executable`.
unfoldable pub read_header : (stack : Bytes) → (fd : ℕ) → Kernel → Outcome (ℕ × Bytes × Kernel)
read_header stack fd k = fread fd 1 exec_size k >>= λ (fdata, out, k').
    done (fdata, (λ i. get_or out i (stack i)), (fclose fd k').1)

-- Bytes written to memory from an address on.
unfoldable pub write_bytes : (address : ℕ) → List ℕ → Bytes → Bytes
write_bytes a [] mem = mem
write_bytes a (c ∷ cs) mem = write_bytes (a + 1) cs (poke mem a c)

-- The program's place, `0x08048000` in its own addresses.
abbrev pub load_address : (pid : ℕ) → ℕ
load_address pid = program_address pid + 0x48000

-- The terminal and the paging of the new process, before its file is loaded.
abbrev pub map_child : (child : ℕ) → Kernel → Kernel
map_child child k =
    let t = k.screen.curr_term in
    let td = record (k.screen.terminals t) { top_pid = child } in
    setup_paging child (record k { screen = put_terminal t td k.screen })

-- The control blocks of both processes and the switch to the new one.
unfoldable pub start_child : (child ebp esp : ℕ) → (args : List ℕ) → Kernel → Kernel
start_child child ebp esp args k =
    let parent = k.curr_pid in
    let k1 = create_pcb parent child k in
    let k2 =
      put_pcb child
        (record (initialize_stdio (k1.pcbs child)) { parent_ebp = ebp; parent_esp = esp }) k1 in
    let k3 = put_pcb parent (record (k2.pcbs parent) { my_k_ebp = ebp; my_k_esp = esp }) k2 in
    let k4 = put_pcb child (record (k3.pcbs child) { args = as_bytes args }) k3 in
    record k4 {
      tss_esp0 = pid_to_ksb child;
      tss_ss0 = kernel_ds;
      curr_pid = child;
      free_pid = update k4.free_pid child 0;
    }

-- The load of an executable and the start of the process.
unfoldable pub load_child :
    (child ebp esp fd : ℕ)
    → Bytes
    → (cmd_idx : ℕ) → (cmd : Bytes) → Kernel
    → Outcome (Executed × Kernel)
unfolding write_bytes copy_args start_child
load_child child ebp esp fd b cmd_idx cmd k =
    let k1 = map_child child k in
    let inode = ((current_pcb k1).file_array fd).inode in
    read_data k1.image inode 0 (k1.image.inodes inode).length >>= λ (copied, program).
    let mem = write_bytes (load_address child) program k1.screen.mem in
    let k2 = record k1 { screen = record k1.screen { mem = mem } } in
    let start = copy_args cmd cmd_idx (arg_size - cmd_idx) >>= λ args.
    done (enters (entry_point b), start_child child ebp esp args k2) in
    if copied == minus_one then done (returns minus_one, k2) else start

-- The file that the command names.
unfoldable pub run_file :
    (stack : Bytes)
    → (child ebp esp : ℕ) → (cmd : Bytes) → (cmd_idx : ℕ) → (name : List ℕ) → Kernel
    → Outcome (Executed × Kernel)
unfolding read_header load_child is_executable
run_file stack child ebp esp cmd cmd_idx name k =
    let (fd, k1) = fopen (some name) k in
    let loaded = read_header stack fd k1 >>= λ (fdata, b, k2).
    (if fdata == minus_one
      then done (returns minus_one, k2)
      else if not (is_executable b)
      then done (returns minus_one, k2)
      else load_child child ebp esp fd b cmd_idx cmd k2) in
    if fd == minus_one then done (returns minus_one, k1) else loaded

unfoldable pub system_execute :
    (stack : Bytes) → (ebp esp : ℕ) → (command : List ℕ) → Kernel → Outcome (Executed × Kernel)
unfolding parse_name run_file
system_execute stack ebp esp command k =
    let child = find_free_process k in
    let cmd = cmd_holder command in
    let k1 = record k { pid_to_term = update k.pid_to_term child k.screen.curr_term } in
    let run = parse_name cmd >>= λ (cmd_idx, name).
    (if ltb_signed max_shells k1.curr_pid
        && (strncmp (as_bytes name) (as_bytes (codes "shell")) max_shells == 0)
      then done (returns minus_one, print (codes "max shells opened\n") k1)
      else run_file stack child ebp esp cmd cmd_idx name k1) in
    if child == minus_one
    then done (returns minus_one, print (codes "No free processes\n") k)
    else run
