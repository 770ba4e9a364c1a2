-- ===== src/Boot/Described.antt =====
-- What `entry` of student-distrib/kernel.c prints of the boot loader's structures, as pieces of text.
pub mod Prints
pub mod Lines
pub mod Loops
use octave_os.Base.{
  ℕ, zero, suc, ◌+◌, ◌%◌, ◌^◌, ◌<◌, ◌≤◌, ◌≡◌, refl, sym, ap, ◌∙◌, arith, List, [], ◌∷◌, ◌++◌, map,
  Bool, true, false, not, ◌&&◌, ltb, ◌==◌, if◌then◌else◌, length, word_mod, Outcome, done, ◌>>=◌,
  Bool-cases, inl, inr, add32,
}
use mathlib.Core.List.{append_assoc}
use octave_os.Str.{Bytes, codes, text_from, sign_extend}
use octave_os.Kernel.{Kernel, print}
use octave_os.Printf.{Argument, printf}
use octave_os.Printf.Pieces.{
  Piece, literal, hexadecimal, aligned, unsigned, signed, text_of, formats, arguments, texts,
  format_of, arguments_of, text_printed, IsPiece, ArePieces,
}
use octave_os.Printf.Pieces.Rendered.{printf-texts, print-append}
use octave_os.Boot.Multiboot.{
  from, load32, MultibootInfo, ElfSectionHeaderTable, MemoryMap, multiboot_info, memory_map,
  check_flag, say, when, module_byte, print_bytes, print_module, print_modules, print_map, next_map,
  print_maps, print_head, print_elf, print_mmap, describe_rest, describe,
}

-- Every byte of the memory is a byte.
abbrev pub AreBytes : Bytes → Type 0
AreBytes mem = (a : ℕ) → mem a < 256

abbrev pub lits : List ℕ → List Piece
lits = map literal

-- The lines, each a list of pieces of text and numbers.
unfoldable pub flags_pieces : MultibootInfo → List Piece
flags_pieces mbi = lits (codes "flags = 0x") ++ aligned mbi.flags ∷ lits (codes "\n")

unfoldable pub mem_pieces : MultibootInfo → List Piece
mem_pieces mbi =
    lits (codes "mem_lower = ")
    ++ unsigned mbi.mem_lower ∷ lits (codes "KB, mem_upper = ")
    ++ unsigned mbi.mem_upper ∷ lits (codes "KB\n")

unfoldable pub boot_device_pieces : MultibootInfo → List Piece
boot_device_pieces mbi =
    lits (codes "boot_device = 0x") ++ aligned mbi.boot_device ∷ lits (codes "\n")

unfoldable pub cmdline_pieces : Bytes → MultibootInfo → List Piece
cmdline_pieces mem mbi =
    lits (codes "cmdline = ")
    ++ text_of (text_from (from mem mbi.cmdline) 0 word_mod) ∷ lits (codes "\n")

unfoldable pub head_pieces : Bytes → MultibootInfo → List Piece
unfolding flags_pieces mem_pieces boot_device_pieces cmdline_pieces
head_pieces mem mbi =
    ((flags_pieces mbi ++ (if check_flag mbi.flags 0 then mem_pieces mbi else []))
      ++ (if check_flag mbi.flags 1 then boot_device_pieces mbi else []))
    ++ (if check_flag mbi.flags 2 then cmdline_pieces mem mbi else [])

unfoldable pub byte_pieces : Bytes → (mod_start i n : ℕ) → List Piece
byte_pieces mem start i zero = []
byte_pieces mem start i (suc n) =
    (lits (codes "0x") ++ hexadecimal (module_byte mem start i) ∷ lits (codes " "))
    ++ byte_pieces mem start (i + 1) n

-- A line with the number of a module and an address.
abbrev pub address_pieces : (mod_count : ℕ) → (text : List ℕ) → (address : ℕ) → List Piece
address_pieces count text address =
    lits (codes "Module ") ++ signed count ∷ lits text ++ aligned address ∷ lits (codes "\n")

unfoldable pub module_pieces : Bytes → (mod_count mod_ptr : ℕ) → List Piece
module_pieces mem count ptr =
    address_pieces count (codes " loaded at address: 0x") (load32 mem ptr)
    ++ address_pieces count (codes " ends at address: 0x") (load32 mem (ptr + 4))
    ++ lits (codes "First few bytes of module:\n")
    ++ byte_pieces mem (load32 mem ptr) 0 16
    ++ lits (codes "\n")

unfoldable pub modules_pieces : Bytes → (mod_count mod_ptr n : ℕ) → List Piece
unfolding module_pieces
modules_pieces mem count ptr zero = []
modules_pieces mem count ptr (suc n) =
    module_pieces mem count ptr ++ modules_pieces mem (add32 count 1) (add32 ptr 16) n

unfoldable pub elf_pieces : ElfSectionHeaderTable → List Piece
elf_pieces elf_sec =
    lits (codes "elf_sec: num = ")
    ++ unsigned elf_sec.num ∷ lits (codes ", size = 0x")
    ++ aligned elf_sec.size ∷ lits (codes ", addr = 0x")
    ++ aligned elf_sec.addr ∷ lits (codes ", shndx = 0x")
    ++ aligned elf_sec.shndx ∷ lits (codes "\n")

unfoldable pub map_pieces : MemoryMap → List Piece
map_pieces e =
    lits (codes "    size = 0x")
    ++ hexadecimal e.size ∷ lits (codes ", base_addr = 0x")
    ++ aligned e.base_addr_high ∷ aligned e.base_addr_low ∷ lits (codes "\n    type = 0x")
    ++ hexadecimal e.type ∷ lits (codes ",  length    = 0x")
    ++ aligned e.length_high ∷ aligned e.length_low ∷ lits (codes "\n")

unfoldable pub maps_pieces : List MemoryMap → List Piece
unfolding map_pieces
maps_pieces [] = []
maps_pieces (e ∷ es) = map_pieces e ++ maps_pieces es

-- The entries of the memory map from an address on, each `size + 4` bytes behind the one before, up
-- to the first address that is not below `stop`.
pub data HasMap (mem : Bytes) (stop : ℕ) : ℕ → List MemoryMap → Type 0 where
  map_end : {mmap : ℕ} → stop ≤ mmap → HasMap mem stop mmap []
  map_entry :
      {mmap : ℕ} {es : List MemoryMap}
      → mmap < stop
      → HasMap mem stop (next_map mem mmap) es
      → HasMap mem stop mmap (memory_map mem mmap ∷ es)

-- The entries for `print_mmap`.
abbrev pub HasMemoryMap : Bytes → MultibootInfo → List MemoryMap → Type 0
HasMemoryMap mem mbi es = HasMap mem (add32 mbi.mmap_addr mbi.mmap_length) mbi.mmap_addr es

unfoldable pub mmap_pieces : MultibootInfo → List MemoryMap → List Piece
unfolding maps_pieces
mmap_pieces mbi es =
    (lits (codes "mmap_addr = 0x")
      ++ aligned mbi.mmap_addr ∷ lits (codes ", mmap_length = 0x")
      ++ hexadecimal mbi.mmap_length ∷ lits (codes "\n"))
    ++ maps_pieces es

-- What the boot loader left, in words: up to the modules, and behind them.
unfoldable pub front_pieces : Bytes → MultibootInfo → List Piece
unfolding head_pieces modules_pieces
front_pieces mem mbi =
    head_pieces mem mbi
    ++ (if check_flag mbi.flags 3 then modules_pieces mem 0 mbi.mods_addr mbi.mods_count else [])

unfoldable pub back_pieces : MultibootInfo → List MemoryMap → List Piece
unfolding elf_pieces mmap_pieces
back_pieces mbi es =
    (if check_flag mbi.flags 5 then elf_pieces mbi.elf_sec else [])
    ++ (if check_flag mbi.flags 6 then mmap_pieces mbi es else [])

-- Bits 4 and 5 exclude each other.
abbrev pub both_set : MultibootInfo → Bool
both_set mbi = check_flag mbi.flags 4 && check_flag mbi.flags 5
