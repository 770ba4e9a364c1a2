-- ===== src/Kernel.antt =====
-- The kernel's global state: process control blocks and file arrays (`pcb_t` of
-- student-distrib/system_execute.h, `fd_array_t` of filesys.h), the terminals and the memory, the
-- paging structures, and the globals of rtc.c, schedule.c, pit.c and i8259.c.
--
-- An array of the kernel is a function of the index; the element behind an index outside it is an
-- unknown of the state, and where the code reads or writes through such an index without a test, the
-- operation faults. A process is its number, -1 the kernel's own control block.
use octave_os.Base.{
  ℕ, ◌+◌, ◌*◌, ◌%◌, ◌^◌, List, ◌++◌, Bool, false, ◌==◌, if◌then◌else◌, sub32, minus_one, word_mod,
  update, ◌/◌,
}
use octave_os.Str.{Bytes}
use octave_os.FileSys.{Image}
use octave_os.Screen.{Screen}
use octave_os.Console.{putc, puts}
use octave_os.Pic.{Pic}

-- The jump tables: those of `system_execute.c`, `filesys.c` and `rtc.c`, and a pointer never set.
pub data Ops : Type 0 where
  null_ops : Ops
  stdin : Ops
  stdout : Ops
  dir_jump_s : Ops
  file_jump_s : Ops
  rtc_jump_s : Ops

-- `fd_array_t`
pub record FdEntry : Type 0 where
  pub file_op_table_ptr : Ops
  pub inode : ℕ
  pub fpos : ℕ
  pub flags : ℕ

pub record Pcb : Type 0 where
  pub file_array : ℕ → FdEntry
  pub my_pid : ℕ
  pub parent_pid : ℕ
  pub parent_esp : ℕ
  pub parent_ebp : ℕ
  pub esp0 : ℕ
  pub ss0 : ℕ
  pub args : Bytes
  pub my_k_esp : ℕ
  pub my_k_ebp : ℕ

-- An entry of the page directory (`ps`) or of a page table (`pat` in its place).
pub record PageEntry : Type 0 where
  pub p : ℕ
  pub r_w : ℕ
  pub u_s : ℕ
  pub pwt : ℕ
  pub pcd : ℕ
  pub a : ℕ
  pub d : ℕ
  pub ps : ℕ
  pub g : ℕ
  pub avl : ℕ
  pub address_20 : ℕ

pub record Kernel : Type 0 where
  pub image : Image
  pub curr_pid : ℕ
  pub restart_shell : ℕ
  pub free_pid : ℕ → ℕ
  pub pcbs : ℕ → Pcb
  pub pid_to_term : ℕ → ℕ
  pub screen : Screen
  pub rtc_count : ℕ
  pub rtc_scales : ℕ → ℕ
  pub process_flags : ℕ → ℕ
  pub page_directory : ℕ → PageEntry
  pub page_table_0 : ℕ → PageEntry
  pub page_table_1 : ℕ → PageEntry
  pub tss_esp0 : ℕ
  pub tss_ss0 : ℕ
  pub schedule_counter : ℕ
  pub pit_count : ℕ
  pub shells_done : ℕ
  pub pic : Pic

abbrev pub max_pid : ℕ
max_pid = 6

abbrev pub file_array_size : ℕ
file_array_size = 8

abbrev pub file_open : ℕ
file_open = 1

abbrev pub file_not_open : ℕ
file_not_open = 0

abbrev pub eight_mb : ℕ
eight_mb = 0x800000

abbrev pub eight_kb : ℕ
eight_kb = eight_mb / 2 ^ 10

-- `pid_to_pcb`: where a process keeps its control block, or the kernel's own for -1.
pub data PcbPointer : Type 0 where
  kernel_pcb : PcbPointer
  at_address : ℕ → PcbPointer

unfoldable pub pid_to_pcb : ℕ → PcbPointer
pid_to_pcb pid =
    if pid == minus_one
    then kernel_pcb
    else at_address (sub32 eight_mb (eight_kb * (1 + pid) % word_mod))

-- The test `!pcb`.
abbrev pub is_null : PcbPointer → Bool
is_null kernel_pcb = false
is_null (at_address a) = a == 0

-- The control block that `pid_to_pcb(curr_pid)` points at, and that block replaced.
abbrev pub current_pcb : Kernel → Pcb
current_pcb k = k.pcbs k.curr_pid

abbrev pub put_current : Pcb → Kernel → Kernel
put_current b k = record k { pcbs = update k.pcbs k.curr_pid b }

-- `file_array[fd]` of the running process replaced.
abbrev pub put_entry : ℕ → FdEntry → Kernel → Kernel
put_entry fd e k =
    let b = current_pcb k in put_current (record b { file_array = update b.file_array fd e }) k

-- The terminal of the running process, and a character or a text printed there.
abbrev pub current_term : Kernel → ℕ
current_term k = k.pid_to_term k.curr_pid

abbrev pub put_char : ℕ → Kernel → Kernel
put_char c k = record k { screen = putc c (current_term k) k.screen }

-- `printf` of a text without conversions, and `puts`: a `putc` for each byte.
abbrev pub print : List ℕ → Kernel → Kernel
print cs k = record k { screen = puts cs (current_term k) k.screen }

abbrev pub outb : List (ℕ × ℕ) → Kernel → Kernel
outb outs k = record k { screen = record k.screen { ports = k.screen.ports ++ outs } }
