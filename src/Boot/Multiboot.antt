-- ===== src/Boot/Multiboot.antt =====
-- The structures of student-distrib/multiboot.h, and the part of `entry` of kernel.c that prints them.
use octave_os.Base.{
  ℕ, zero, suc, ◌+◌, ◌*◌, ◌%◌, ◌^◌, List, [], ◌∷◌, Bool, not, true, false, ◌&&◌, ltb, ◌==◌,
  if◌then◌else◌, bit_and, add32, Outcome, done, fault, out_of_fuel, ◌>>=◌, word_mod,
}
use octave_os.Str.{Bytes, codes, sign_extend, text_from}
use octave_os.Kernel.{Kernel}
use octave_os.Printf.{Argument, word, string, printf}

-- A pointer into the memory, and the `uint32_t` at an address, its lowest byte first.
abbrev pub from : Bytes → (a : ℕ) → Bytes
from mem a i = mem ((a + i) % word_mod)

unfoldable pub load32 : Bytes → (a : ℕ) → ℕ
load32 mem a = from mem a 0 + 256 * from mem a 1 + 65536 * from mem a 2 + 16777216 * from mem a 3

pub record ElfSectionHeaderTable : Type 0 where
  pub num : ℕ
  pub size : ℕ
  pub addr : ℕ
  pub shndx : ℕ

pub record MultibootInfo : Type 0 where
  pub flags : ℕ
  pub mem_lower : ℕ
  pub mem_upper : ℕ
  pub boot_device : ℕ
  pub cmdline : ℕ
  pub mods_count : ℕ
  pub mods_addr : ℕ
  pub elf_sec : ElfSectionHeaderTable
  pub mmap_length : ℕ
  pub mmap_addr : ℕ

pub record MemoryMap : Type 0 where
  pub size : ℕ
  pub base_addr_low : ℕ
  pub base_addr_high : ℕ
  pub length_low : ℕ
  pub length_high : ℕ
  pub type : ℕ

unfoldable pub multiboot_info : Bytes → (a : ℕ) → MultibootInfo
multiboot_info mem a = record {
  flags = load32 mem a;
  mem_lower = load32 mem (a + 4);
  mem_upper = load32 mem (a + 8);
  boot_device = load32 mem (a + 12);
  cmdline = load32 mem (a + 16);
  mods_count = load32 mem (a + 20);
  mods_addr = load32 mem (a + 24);
  elf_sec = record {
    num = load32 mem (a + 28);
    size = load32 mem (a + 32);
    addr = load32 mem (a + 36);
    shndx = load32 mem (a + 40);
  };
  mmap_length = load32 mem (a + 44);
  mmap_addr = load32 mem (a + 48);
}

unfoldable pub memory_map : Bytes → (a : ℕ) → MemoryMap
memory_map mem a = record {
  size = load32 mem a;
  base_addr_low = load32 mem (a + 4);
  base_addr_high = load32 mem (a + 8);
  length_low = load32 mem (a + 12);
  length_high = load32 mem (a + 16);
  type = load32 mem (a + 20);
}

-- CHECK_FLAG
abbrev pub check_flag : (flags bit : ℕ) → Bool
check_flag flags bit = not (bit_and flags (2 ^ bit) == 0)

-- A part that is printed only if a flag is set.
abbrev pub when : Bool → (Kernel → Outcome Kernel) → Kernel → Outcome Kernel
when b f k = if b then f k else done k

-- `*((char*)(mod->mod_start+i))`, an `int`.
abbrev pub module_byte : Bytes → (mod_start i : ℕ) → ℕ
module_byte mem mod_start i = sign_extend (from mem mod_start i)

-- The next entry of the memory map: `size` does not count itself.
abbrev pub next_map : Bytes → (mmap : ℕ) → ℕ
next_map mem mmap = (mmap + load32 mem mmap + 4) % word_mod

module _ (stack : Bytes) where
  -- A `printf` whose value is not used.
  unfoldable pub say : List ℕ → List Argument → Kernel → Outcome Kernel
  say format args k = printf stack format args k >>= λ (n, k'). done k'

  -- `for (i = 0; i < 16; i++)`, with `n` rounds left.
  unfoldable pub print_bytes : Bytes → (mod_start i n : ℕ) → Kernel → Outcome Kernel
  unfolding say
  print_bytes mem start i zero k = done k
  print_bytes mem start i (suc n) k =
      say (codes "0x%x ") (word (module_byte mem start i) ∷ []) k
      >>= print_bytes mem start (i + 1) n

  -- The body of the loop over the modules; `mod` is the address of a `module_t`.
  unfoldable pub print_module : Bytes → (mod_count mod_ptr : ℕ) → Kernel → Outcome Kernel
  unfolding say print_bytes
  print_module mem count ptr k =
      let start = load32 mem ptr in
      let end_ = load32 mem (ptr + 4) in
      say (codes "Module %d loaded at address: 0x%#x\n") (word count ∷ word start ∷ []) k >>= λ k1.
      say (codes "Module %d ends at address: 0x%#x\n") (word count ∷ word end_ ∷ []) k1 >>= λ k2.
      say (codes "First few bytes of module:\n") [] k2 >>= λ k3.
      print_bytes mem start 0 16 k3 >>= say (codes "\n") []

  -- `while (mod_count < mbi->mods_count)`, with `n` modules left.
  unfoldable pub print_modules : Bytes → (mod_count mod_ptr n : ℕ) → Kernel → Outcome Kernel
  unfolding print_module
  print_modules mem count ptr zero k = done k
  print_modules mem count ptr (suc n) k =
      print_module mem count ptr k >>= print_modules mem (add32 count 1) (add32 ptr 16) n

  unfoldable pub print_map : MemoryMap → Kernel → Outcome Kernel
  unfolding say
  print_map e =
      say (codes "    size = 0x%x, base_addr = 0x%#x%#x\n    type = 0x%x,  length    = 0x%#x%#x\n")
        (word e.size
          ∷ word e.base_addr_high
          ∷ word e.base_addr_low
          ∷ word e.type
          ∷ word e.length_high
          ∷ word e.length_low
          ∷ [])

  -- The loop over the memory map, up to the address `stop`.
  unfoldable pub print_maps : Bytes → (fuel stop mmap : ℕ) → Kernel → Outcome Kernel
  unfolding print_map
  print_maps mem zero stop mmap k = fault out_of_fuel
  print_maps mem (suc fuel) stop mmap k =
      let next =
        print_map (memory_map mem mmap) k >>= print_maps mem fuel stop (next_map mem mmap) in
      if ltb mmap stop then next else done k

  unfoldable pub print_flags : MultibootInfo → Kernel → Outcome Kernel
  unfolding say
  print_flags mbi = say (codes "flags = 0x%#x\n") (word mbi.flags ∷ [])

  unfoldable pub print_mem : MultibootInfo → Kernel → Outcome Kernel
  unfolding say
  print_mem mbi =
      say (codes "mem_lower = %uKB, mem_upper = %uKB\n")
        (word mbi.mem_lower ∷ word mbi.mem_upper ∷ [])

  unfoldable pub print_boot_device : MultibootInfo → Kernel → Outcome Kernel
  unfolding say
  print_boot_device mbi = say (codes "boot_device = 0x%#x\n") (word mbi.boot_device ∷ [])

  unfoldable pub print_cmdline : Bytes → MultibootInfo → Kernel → Outcome Kernel
  unfolding say
  print_cmdline mem mbi =
      say (codes "cmdline = %s\n") (string (text_from (from mem mbi.cmdline) 0 word_mod) ∷ [])

  -- The lines in front of the modules.
  unfoldable pub print_head : Bytes → MultibootInfo → Kernel → Outcome Kernel
  unfolding print_flags print_mem print_boot_device print_cmdline
  print_head mem mbi k =
      print_flags mbi k
      >>= when (check_flag mbi.flags 0) (print_mem mbi)
      >>= when (check_flag mbi.flags 1) (print_boot_device mbi)
      >>= when (check_flag mbi.flags 2) (print_cmdline mem mbi)

  unfoldable pub print_elf : ElfSectionHeaderTable → Kernel → Outcome Kernel
  unfolding say
  print_elf elf_sec =
      say (codes "elf_sec: num = %u, size = 0x%#x, addr = 0x%#x, shndx = 0x%#x\n")
        (word elf_sec.num ∷ word elf_sec.size ∷ word elf_sec.addr ∷ word elf_sec.shndx ∷ [])

  unfoldable pub print_mmap : Bytes → (fuel : ℕ) → MultibootInfo → Kernel → Outcome Kernel
  unfolding say print_maps
  print_mmap mem fuel mbi k =
      say (codes "mmap_addr = 0x%#x, mmap_length = 0x%x\n")
        (word mbi.mmap_addr ∷ word mbi.mmap_length ∷ []) k
      >>= print_maps mem fuel (add32 mbi.mmap_addr mbi.mmap_length) mbi.mmap_addr

  -- What follows the modules, and whether bits 4 and 5 are both set, where `entry` returns.
  unfoldable pub describe_rest :
      Bytes → (fuel : ℕ) → MultibootInfo → Kernel → Outcome (Bool × Kernel)
  unfolding say print_elf print_mmap
  describe_rest mem fuel mbi k =
      let both = say (codes "Both bits 4 and 5 are set.\n") [] k >>= λ k1. done (true, k1) in
      let rest =
        when (check_flag mbi.flags 5) (print_elf mbi.elf_sec) k
        >>= when (check_flag mbi.flags 6) (print_mmap mem fuel mbi)
        >>= λ k1. done (false, k1) in
      if check_flag mbi.flags 4 && check_flag mbi.flags 5 then both else rest

  -- Everything that `entry` prints of the structures.
  unfoldable pub describe : Bytes → (fuel : ℕ) → MultibootInfo → Kernel → Outcome (Bool × Kernel)
  unfolding print_head print_modules describe_rest
  describe mem fuel mbi k =
      print_head mem mbi k
      >>= when (check_flag mbi.flags 3) (print_modules mem 0 mbi.mods_addr mbi.mods_count)
      >>= describe_rest mem fuel mbi
