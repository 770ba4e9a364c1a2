-- ===== src/Boot.antt =====
-- The start of the kernel, `entry` of student-distrib/kernel.c.
--
-- What the boot loader left, the structures of multiboot.h and the file system's image, is read from
-- the memory that `entry` finds, at addresses modulo 2 ^ 32: nothing that `entry` prints goes there.
-- The segment registers and the interrupt flag are numbers of the machine. The addresses that the
-- linker chooses, what the clock's ports answer, and the registers that `system_execute` saves are
-- the `Platform`.
pub mod Segments
pub mod Multiboot
pub mod Described
pub mod Booted
use octave_os.Base.{
  ℕ, ◌*◌, ◌/◌, ◌%◌, ◌^◌, List, [], ◌∷◌, ◌++◌, ◌==◌, if◌then◌else◌, minus_one, ◌+◌, update, Outcome,
  done, fault, out_of_bounds, ltb, ◌>>=◌, word_mod, not, ◌-◌,
}
use octave_os.Str.{Bytes, codes}
use octave_os.FileSys.{Dentry, Inode, Image, block_size, file_name_size}
use octave_os.Screen.{Screen}
use octave_os.Console.{clear}
use octave_os.Pic.{i8259_init}
use octave_os.Idt.{Idt, Handler, set_idt}
use octave_os.Printf.{word}
use octave_os.Kernel.{Kernel, current_term, outb}
use octave_os.Terminal.{max_term, term_init}
use octave_os.Keyboard.{init_keyboard}
use octave_os.Rtc.{init_rtc}
use octave_os.Schedule.{pit_init, init_scheduler}
use octave_os.Paging.{init_paging}
use octave_os.Process.{kernel_ds, init_processes}
use octave_os.Execute.{Executed, system_execute}
use octave_os.Boot.Segments.{SegDesc, ldt_entry, tss_entry, set_params}
use octave_os.Boot.Multiboot.{say, load32, from, MultibootInfo, multiboot_info, describe}

pub record Machine : Type 0 where
  pub kernel : Kernel
  pub idt : Idt
  pub ldt_desc_ptr : SegDesc
  pub tss_desc_ptr : SegDesc
  pub ldtr : ℕ
  pub tr : ℕ
  pub ldt_segment_selector : ℕ
  pub interrupt_flag : ℕ

pub record Platform : Type 0 where
  pub handlers : Handler → ℕ
  pub ldt : ℕ
  pub tss : ℕ
  pub table_0 : ℕ
  pub inb_b : ℕ
  pub inb_a : ℕ
  pub ebp : ℕ
  pub esp : ℕ
  pub stack : Bytes

abbrev pub kernel_tss : ℕ
kernel_tss = 0x0030

abbrev pub kernel_ldt : ℕ
kernel_ldt = 0x0038

-- `ldt_bottom - ldt - 1` and `tss_bottom - tss - 1` of x86_desc.S.
abbrev pub ldt_size : ℕ
ldt_size = 4 * 8 - 1

abbrev pub tss_size : ℕ
tss_size = 104 - 1

abbrev pub multiboot_bootloader_magic : ℕ
multiboot_bootloader_magic = 0x2badb002

-- The structures of filesys.h where they lie in memory: a `boot_block_t`, 64 bytes and then an entry
-- of 64 bytes for each file, a block for each inode, and the data blocks.
unfoldable pub dentry_at : Bytes → (a : ℕ) → Dentry
dentry_at mem a = record {
  filename = from mem a;
  filetype = load32 mem (a + 32);
  inode_num = load32 mem (a + 36);
  reserved = from mem (a + 40);
}

unfoldable pub inode_at : Bytes → (a : ℕ) → Inode
inode_at mem a = record {
  length = load32 mem a;
  data_block_num = λ i. load32 mem (a + 4 * (1 + i));
}

unfoldable pub image_at : Bytes → (a : ℕ) → Image
unfolding dentry_at inode_at
image_at mem a = record {
  dir_count = load32 mem a;
  inode_count = load32 mem (a + 4);
  data_count = load32 mem (a + 8);
  direntries = λ i. dentry_at mem (a + 64 * (1 + i));
  inodes = λ i. inode_at mem (a + block_size * (i + 1));
  bytes = from mem (a + block_size * (load32 mem (a + 4) + 1));
}

-- The block that `f_init` is given is kept, unless it is the null pointer.
unfoldable pub f_init : Bytes → (boot_block_ptr : ℕ) → Kernel → ℕ × Kernel
unfolding image_at
f_init mem a k = if a == 0 then (minus_one, k) else (0, record k { image = image_at mem a })

-- The two segments' descriptors are set and loaded, and the fields of the TSS.
unfoldable pub load_segments : Platform → Machine → Machine
load_segments p m = record m {
  ldt_desc_ptr = set_params p.ldt ldt_size ldt_entry;
  ldtr = kernel_ldt;
  tss_desc_ptr = set_params p.tss tss_size tss_entry;
  ldt_segment_selector = kernel_ldt;
  kernel = record m.kernel { tss_ss0 = kernel_ds; tss_esp0 = 0x800000 };
  tr = kernel_tss;
}

unfoldable pub init_pic : Kernel → Kernel
init_pic k = let (pic, outs) = i8259_init k.pic in outb outs (record k { pic = pic })

-- The initialisations from `set_idt` to `init_scheduler`.
unfoldable pub init_devices : Platform → (boot : Bytes) → (mod_start : ℕ) → Machine → Machine
unfolding init_pic f_init
init_devices p boot mod_start m =
    let k1 = init_keyboard (init_pic m.kernel) in
    let k2 = pit_init (init_rtc p.inb_b p.inb_a k1) in
    let k3 = init_paging p.table_0 (f_init boot mod_start k2).1 in
    record m { idt = set_idt p.handlers m.idt; kernel = init_scheduler k3 }

-- `clear` without a running process.
abbrev pub clear_first : Kernel → Kernel
clear_first k = record k { screen = clear 0 k.screen }

-- The first lines of `entry`.
unfoldable pub start_console : Kernel → Kernel
start_console k =
    let s = record k.screen { curr_term = 0 } in
    clear_first (record k { curr_pid = minus_one; screen = term_init s })

-- The end of `entry`, which spins once the first shell could not be started.
pub data Ended : Type 0 where
  bad_magic : Ended
  both_bits : Ended
  executed : Executed → Ended

-- From `printf("Enabling Interrupts\n")` on.
unfoldable pub run_shell : Platform → Machine → Outcome (Ended × Machine)
run_shell p m = say p.stack (codes "Enabling Interrupts\n") [] m.kernel >>= λ k.
    system_execute p.stack p.ebp p.esp (codes "shell") (init_processes (clear_first k))
    >>= λ (e, k'). done (executed e, record m { kernel = k'; interrupt_flag = 1 })

-- Everything that is printed before the first process runs goes to the terminal that stands in front
-- of `pid_to_term`, `pid_to_term[-1]`. Unless that word happens to be the number of a terminal, the
-- first character is written through a structure outside of `terminals`. `fuel` bounds the walk over
-- the memory map.
unfoldable pub entry : Platform → (fuel magic addr : ℕ) → Machine → Outcome (Ended × Machine)
unfolding start_console load_segments init_devices run_shell
entry p fuel magic addr m =
    let boot = m.kernel.screen.mem in
    let mbi = multiboot_info boot addr in
    let k1 = start_console m.kernel in
    let refuse = say p.stack (codes "Invalid magic number: 0x%#x\n") (word magic ∷ []) k1 >>= λ k.
    done (bad_magic, record m { kernel = k }) in
    let go = describe p.stack boot fuel mbi k1 >>= λ (both, k).
    (let m1 = record m { kernel = k } in
      let start = load32 boot mbi.mods_addr in
      let rest = run_shell p (init_devices p boot start (load_segments p m1)) in
      if both then done (both_bits, m1) else rest) in
    let run = if not (magic == multiboot_bootloader_magic) then refuse else go in
    if ltb (current_term k1) max_term then run else fault out_of_bounds
