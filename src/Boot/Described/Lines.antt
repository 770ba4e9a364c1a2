-- ===== src/Boot/Described/Lines.antt =====
-- Each line that `entry` of student-distrib/kernel.c prints of the boot loader's structures.
use octave_os.Base.{ℕ, zero, suc, ◌+◌, ◌%◌, ◌^◌, ◌<◌, refl, arith, [], ◌∷◌, ◌++◌, word_mod}
use octave_os.Str.{Bytes, codes, text_from}
use octave_os.Printf.Pieces.{
  hexadecimal, text_of, formats, arguments, texts, format_of, arguments_of, IsPiece,
}
use octave_os.Boot.Described.{
  AreBytes, flags_pieces, mem_pieces, boot_device_pieces, cmdline_pieces, lits, byte_pieces,
  elf_pieces, map_pieces,
}
use octave_os.Console.{puts}
use octave_os.Boot.Multiboot.{
  from, load32, MultibootInfo, multiboot_info, memory_map, module_byte, print_bytes, print_map,
  print_flags, print_mem, print_boot_device, print_cmdline, print_elf,
}
use octave_os.Boot.Described.Prints.{
  no_percent, load32-lt, Prints, Prints-seq, Prints-none, Prints-say, ArePieces-lits_end,
  then_piece,
}

module _ (stack : Bytes) (mem : Bytes) (bytes : AreBytes mem) where
  pub word_at : (a : ℕ) → load32 mem a < 2 ^ 32
  word_at a = load32-lt mem a bytes

  pub print_elf-Prints :
      (a : ℕ)
      → Prints
          (print_elf stack (multiboot_info mem a).elf_sec)
          (elf_pieces (multiboot_info mem a).elf_sec)
  unfolding print_elf elf_pieces multiboot_info formats format_of arguments arguments_of IsPiece
      no_percent
  print_elf-Prints a = Prints-say stack _ _ (elf_pieces (multiboot_info mem a).elf_sec) refl refl (
      then_piece (codes "elf_sec: num = ") _ _ refl (word_at (a + 28)) (
        then_piece (codes ", size = 0x") _ _ refl (word_at (a + 32)) (
          then_piece (codes ", addr = 0x") _ _ refl (word_at (a + 36)) (
            then_piece (codes ", shndx = 0x") _ _ refl (word_at (a + 40))
              (ArePieces-lits_end (codes "\n") refl)))))

  pub print_map-Prints :
      (a : ℕ) → Prints (print_map stack (memory_map mem a)) (map_pieces (memory_map mem a))
  unfolding print_map map_pieces memory_map formats format_of arguments arguments_of IsPiece
      no_percent
  print_map-Prints a = Prints-say stack _ _ (map_pieces (memory_map mem a)) refl refl (
      then_piece (codes "    size = 0x") _ _ refl (word_at a) (
        then_piece (codes ", base_addr = 0x") _ _ refl (word_at (a + 8)) (
          then_piece [] _ _ refl (word_at (a + 4)) (
            then_piece (codes "\n    type = 0x") _ _ refl (word_at (a + 20)) (
              then_piece (codes ",  length    = 0x") _ _ refl (word_at (a + 16)) (
                then_piece [] _ _ refl (word_at (a + 12))
                  (ArePieces-lits_end (codes "\n") refl)))))))

  pub module_byte-lt : (start i : ℕ) → module_byte mem start i < 2 ^ 32
  module_byte-lt start i =
      let h = bytes ((start + i) % word_mod) in let c = mem ((start + i) % word_mod) in ground arith

  pub print_bytes-Prints :
      (start i n : ℕ) → Prints (print_bytes stack mem start i n) (byte_pieces mem start i n)
  unfolding print_bytes byte_pieces texts puts formats format_of arguments arguments_of IsPiece
      no_percent
  print_bytes-Prints start i zero = Prints-none
  print_bytes-Prints start i (suc n) =
      Prints-seq _ _ (lits (codes "0x") ++ hexadecimal (module_byte mem start i) ∷ lits (codes " "))
        (byte_pieces mem start (i + 1) n)
        (Prints-say stack _ _ _ refl refl (
          then_piece (codes "0x") (hexadecimal (module_byte mem start i)) _ refl
            (module_byte-lt start i) (ArePieces-lits_end (codes " ") refl)))
        (print_bytes-Prints start (i + 1) n)

  pub print_flags-Prints :
      (a : ℕ)
      → Prints (print_flags stack (multiboot_info mem a)) (flags_pieces (multiboot_info mem a))
  unfolding print_flags flags_pieces multiboot_info formats format_of arguments arguments_of IsPiece
      no_percent
  print_flags-Prints a =
      Prints-say stack _ _ (flags_pieces (multiboot_info mem a)) refl refl (
        then_piece (codes "flags = 0x") _ _ refl (word_at a) (ArePieces-lits_end (codes "\n") refl))

  pub print_mem-Prints :
      (a : ℕ) → Prints (print_mem stack (multiboot_info mem a)) (mem_pieces (multiboot_info mem a))
  unfolding print_mem mem_pieces multiboot_info formats format_of arguments arguments_of IsPiece
      no_percent
  print_mem-Prints a = Prints-say stack _ _ (mem_pieces (multiboot_info mem a)) refl refl (
      then_piece (codes "mem_lower = ") _ _ refl (word_at (a + 4)) (
        then_piece (codes "KB, mem_upper = ") _ _ refl (word_at (a + 8))
          (ArePieces-lits_end (codes "KB\n") refl)))

  pub print_boot_device-Prints :
      (a : ℕ)
      → Prints
          (print_boot_device stack (multiboot_info mem a))
          (boot_device_pieces (multiboot_info mem a))
  unfolding print_boot_device boot_device_pieces multiboot_info formats format_of arguments
      arguments_of IsPiece no_percent
  print_boot_device-Prints a =
      Prints-say stack _ _ (boot_device_pieces (multiboot_info mem a)) refl refl (
        then_piece (codes "boot_device = 0x") _ _ refl (word_at (a + 12))
          (ArePieces-lits_end (codes "\n") refl))

  pub print_cmdline-Prints :
      (mbi : MultibootInfo) → Prints (print_cmdline stack mem mbi) (cmdline_pieces mem mbi)
  unfolding print_cmdline cmdline_pieces formats format_of arguments arguments_of IsPiece no_percent
  print_cmdline-Prints mbi = Prints-say stack _ _ (cmdline_pieces mem mbi) refl refl (
      then_piece (codes "cmdline = ") (text_of (text_from (from mem mbi.cmdline) 0 word_mod)) _ refl
        tt (ArePieces-lits_end (codes "\n") refl))
