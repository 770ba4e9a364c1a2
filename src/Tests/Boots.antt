-- ===== src/Tests/Boots.antt =====
-- The start of the kernel, with the boot loader's structures at 4096: bits 3 and 6 are set, a module
-- stands at 0x100000, and the memory map has one entry.
use octave_os.Base.{
  ℕ, zero, suc, ◌-◌, ◌<◌, ◌≡◌, refl, inl, arith, List, [], ◌∷◌, ◌++◌, get_or, ltb, if◌then◌else◌,
  Bool, true, false, done,
}
use octave_os.Str.{Bytes, codes}
use octave_os.Kernel.{print}
use octave_os.Printf.Pieces.{texts, aligned}
use octave_os.Boot.{
  Machine, Platform, multiboot_bootloader_magic, bad_magic, start_console, run_shell,
}
use octave_os.Boot
use octave_os.Boot.Segments.{ldt_entry}
use octave_os.Boot.Multiboot.{MemoryMap, multiboot_info, memory_map, describe, load32}
use octave_os.Boot.Described.{AreBytes, lits, HasMap, map_end, map_entry, front_pieces, back_pieces}
use octave_os.Boot.Described.Loops.{describe-pieces}
use octave_os.Boot.Booted.{IsBooted, entry-IsBooted, entry-refusal}
use octave_os.Tests.Data.{kernel}

abbrev no_word : List ℕ
no_word = 0 ∷ 0 ∷ 0 ∷ 0 ∷ []

abbrev byte_word : ℕ → List ℕ
byte_word n = n ∷ 0 ∷ 0 ∷ 0 ∷ []

-- `multiboot_info_t`, a `module_t` and a `memory_map_t`.
abbrev structures : List ℕ
structures =
    byte_word 0x48
    ++ no_word
    ++ no_word
    ++ no_word
    ++ no_word
    ++ byte_word 1
    ++ (52 ∷ 16 ∷ 0 ∷ 0 ∷ [])
    ++ no_word
    ++ no_word
    ++ no_word
    ++ no_word
    ++ byte_word 24
    ++ (68 ∷ 16 ∷ 0 ∷ 0 ∷ [])
    ++ (0 ∷ 0 ∷ 16 ∷ 0 ∷ [])
    ++ (0 ∷ 16 ∷ 16 ∷ 0 ∷ [])
    ++ no_word
    ++ no_word
    ++ byte_word 20
    ++ no_word
    ++ no_word
    ++ no_word
    ++ byte_word 255
    ++ byte_word 1

abbrev memory : Bytes
memory a = if ltb a 4096 then 0 else get_or structures (a - 4096) 0

all_bytes : List ℕ → Bool
all_bytes [] = true
all_bytes (c ∷ cs) = let rest = all_bytes cs in if ltb c 256 then rest else false

get_or-lt : (cs : List ℕ) (i : ℕ) → all_bytes cs ≡ true → get_or cs i 0 < 256
unfolding all_bytes
get_or-lt [] i h = omega arith
get_or-lt (c ∷ cs) zero h = ground arith
get_or-lt (c ∷ cs) (suc i) h = get_or-lt cs i (ground arith)

structures-all_bytes : all_bytes structures ≡ true
unfolding all_bytes
structures-all_bytes = refl

memory-AreBytes : AreBytes memory
memory-AreBytes a = let h = get_or-lt structures (a - 4096) structures-all_bytes in ground arith

abbrev machine : Machine
machine = record {
  kernel = record kernel { screen = record kernel.screen { mem = memory }; pid_to_term = λ i. 0 };
  idt = λ vec. record {
    offset_15_00 = 0;
    seg_selector = 0;
    reserved4 = 0;
    reserved3 = 0;
    reserved2 = 0;
    reserved1 = 0;
    size = 0;
    reserved0 = 0;
    dpl = 0;
    present = 0;
    offset_31_16 = 0;
  };
  ldt_desc_ptr = ldt_entry;
  tss_desc_ptr = ldt_entry;
  ldtr = 0;
  tr = 0;
  ldt_segment_selector = 0;
  interrupt_flag = 0;
}

abbrev platform : Platform
platform = record {
  handlers = λ h. 0x400000;
  ldt = 0x401000;
  tss = 0x402000;
  table_0 = 0x403000;
  inb_b = 0;
  inb_a = 0;
  ebp = 0;
  esp = 0;
  stack = λ i. 0;
}

abbrev entries : List MemoryMap
entries = memory_map memory 0x1044 ∷ []

has_map : HasMap memory 0x105c 0x1044 entries
unfolding load32
has_map = map_entry (omega arith) (map_end (omega arith))

entry-refusal_example :
    Boot.entry platform 1 7 4096 machine
    ≡ done (
      bad_magic,
      record machine {
        kernel =
            print
              (texts (lits (codes "Invalid magic number: 0x") ++ aligned 7 ∷ lits (codes "\n")))
              (start_console machine.kernel);
      },
    )
entry-refusal_example =
    entry-refusal platform machine 1 4096 memory-AreBytes 7 (omega arith) (omega arith)
      (inl (λ e. omega arith))

describe-pieces_example :
    describe (λ i. 0) memory 2 (multiboot_info memory 4096) kernel
    ≡ done (
      false,
      print
          (texts (
            front_pieces memory (multiboot_info memory 4096)
            ++ back_pieces (multiboot_info memory 4096) entries))
          kernel,
    )
unfolding multiboot_info load32
describe-pieces_example =
    describe-pieces (λ i. 0) memory memory-AreBytes 4096 2 entries kernel refl (λ set. has_map)
      (omega arith)

entry-IsBooted_example :
    (b : Machine) × (Boot.entry platform 2 multiboot_bootloader_magic 4096 machine
      ≡ run_shell platform b)
    × IsBooted platform memory 0x100000 b
unfolding multiboot_info load32
entry-IsBooted_example =
    entry-IsBooted platform machine 2 4096 memory-AreBytes entries
      (record { master_byte = omega arith; slave_byte = omega arith }) (λ h e. omega arith)
      (omega arith) (omega arith) refl (λ set. has_map) (omega arith) (λ e. omega arith)
      (omega arith)
