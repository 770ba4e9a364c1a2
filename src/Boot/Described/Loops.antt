-- ===== src/Boot/Described/Loops.antt =====
-- The lines that `entry` of student-distrib/kernel.c prints of the boot loader's structures, together.
use octave_os.Base.{
  ℕ, zero, suc, ◌+◌, ◌^◌, ◌<◌, ◌≡◌, refl, sym, ap, ◌∙◌, arith, List, [], ◌∷◌, ◌++◌, true, false,
  ltb, length, done, ◌>>=◌, add32,
}
use octave_os.Str.{Bytes, codes}
use octave_os.Kernel.{Kernel, print}
use octave_os.Printf.Pieces.{
  hexadecimal, aligned, signed, formats, arguments, texts, format_of, arguments_of, IsPiece,
}
use octave_os.Boot.Described.{
  AreBytes, address_pieces, mem_pieces, boot_device_pieces, cmdline_pieces, lits, head_pieces,
  byte_pieces, module_pieces, modules_pieces, elf_pieces, map_pieces, maps_pieces, mmap_pieces,
  front_pieces, back_pieces, both_set, HasMap, map_end, map_entry, HasMemoryMap,
}
use octave_os.Boot.Multiboot.{
  when, load32, MemoryMap, multiboot_info, memory_map, check_flag, print_module, print_modules,
  next_map, print_maps, print_head, print_mem, print_boot_device, print_cmdline, print_elf,
  print_mmap, describe_rest, describe,
}
use octave_os.Boot.Described.Prints.{
  no_percent, Prints, print-texts_append, Prints-seq, Prints-none, Prints-when, Prints-if,
  Prints-say, ArePieces-lits_end, then_piece,
}
use octave_os.Boot.Described.Lines.{
  word_at, print_elf-Prints, print_map-Prints, print_bytes-Prints, print_flags-Prints,
  print_mem-Prints, print_boot_device-Prints, print_cmdline-Prints,
}

module _ (stack : Bytes) (mem : Bytes) (bytes : AreBytes mem) where
  print_module-Prints :
      (count ptr : ℕ)
      → count < 2 ^ 32
      → Prints (print_module stack mem count ptr) (module_pieces mem count ptr)
  unfolding print_module module_pieces formats format_of arguments arguments_of IsPiece no_percent
  print_module-Prints count ptr small =
      let start = load32 mem ptr in
      let end_ = load32 mem (ptr + 4) in
      Prints-seq _ _ (address_pieces count (codes " loaded at address: 0x") start) _
        (Prints-say stack _ _ _ refl refl (
          then_piece (codes "Module ") (signed count) _ refl small (
            then_piece (codes " loaded at address: 0x") (aligned start) _ refl
              (word_at stack mem bytes ptr) (ArePieces-lits_end (codes "\n") refl))))
        (Prints-seq _ _ (address_pieces count (codes " ends at address: 0x") end_) _
          (Prints-say stack _ _ _ refl refl (
            then_piece (codes "Module ") (signed count) _ refl small (
              then_piece (codes " ends at address: 0x") (aligned end_) _ refl
                (word_at stack mem bytes (ptr + 4)) (ArePieces-lits_end (codes "\n") refl))))
          (Prints-seq _ _ (lits (codes "First few bytes of module:\n")) _
            (Prints-say stack _ _ (lits (codes "First few bytes of module:\n")) refl refl
              (ArePieces-lits_end (codes "First few bytes of module:\n") refl))
            (Prints-seq _ _ (byte_pieces mem start 0 16) (lits (codes "\n"))
              (print_bytes-Prints stack mem bytes start 0 16)
              (Prints-say stack _ _ (lits (codes "\n")) refl refl
                (ArePieces-lits_end (codes "\n") refl)))))

  print_modules-Prints :
      (count ptr n : ℕ)
      → count < 2 ^ 32
      → Prints (print_modules stack mem count ptr n) (modules_pieces mem count ptr n)
  unfolding print_modules modules_pieces
  print_modules-Prints count ptr zero small = Prints-none
  print_modules-Prints count ptr (suc n) small =
      Prints-seq _ _ (module_pieces mem count ptr) _ (print_module-Prints count ptr small)
        (print_modules-Prints (add32 count 1) (add32 ptr 16) n (omega arith))

  print_maps-Prints :
      (fuel stop mmap : ℕ) (es : List MemoryMap)
      → HasMap mem stop mmap es
      → length es < fuel
      → Prints (print_maps stack mem fuel stop mmap) (maps_pieces es)
  unfolding print_maps maps_pieces
  print_maps-Prints zero stop mmap es h enough k = absurd (omega arith)
  print_maps-Prints (suc fuel) stop mmap [] (map_end past) enough k =
      let out : ltb mmap stop ≡ false = ground arith in rw out (Prints-none k)
  print_maps-Prints (suc fuel) stop mmap (e ∷ es) (map_entry inside h) enough k =
      let more : ltb mmap stop ≡ true = ground arith in
      rw more (
        Prints-seq _ _ (map_pieces (memory_map mem mmap)) _ (print_map-Prints stack mem bytes mmap)
          (print_maps-Prints fuel stop (next_map mem mmap) es h (omega arith)) k)

  print_head-Prints :
      (a : ℕ)
      → Prints
          (print_head stack mem (multiboot_info mem a))
          (head_pieces mem (multiboot_info mem a))
  unfolding print_head head_pieces
  print_head-Prints a =
      let mbi = multiboot_info mem a in
      Prints-seq _ _ _ _
        (Prints-seq _ _ _ _
          (Prints-seq _ _ _ _ (print_flags-Prints stack mem bytes a) (
            Prints-when (check_flag mbi.flags 0) (print_mem stack mbi) (mem_pieces mbi)
              (print_mem-Prints stack mem bytes a)))
          (Prints-when (check_flag mbi.flags 1) (print_boot_device stack mbi)
            (boot_device_pieces mbi) (print_boot_device-Prints stack mem bytes a)))
        (Prints-when (check_flag mbi.flags 2) (print_cmdline stack mem mbi) (cmdline_pieces mem mbi)
          (print_cmdline-Prints stack mem bytes mbi))

  print_mmap-Prints :
      (a fuel : ℕ) (es : List MemoryMap)
      → HasMemoryMap mem (multiboot_info mem a) es
      → length es < fuel
      → Prints
          (print_mmap stack mem fuel (multiboot_info mem a))
          (mmap_pieces (multiboot_info mem a) es)
  unfolding print_mmap mmap_pieces multiboot_info formats format_of arguments arguments_of IsPiece
      no_percent
  print_mmap-Prints a fuel es h enough =
      let mbi = multiboot_info mem a in
      let line =
        lits (codes "mmap_addr = 0x")
        ++ aligned mbi.mmap_addr ∷ lits (codes ", mmap_length = 0x")
        ++ hexadecimal mbi.mmap_length ∷ lits (codes "\n") in
      Prints-seq _ _ line _
        (Prints-say stack _ _ line refl refl (
          then_piece (codes "mmap_addr = 0x") (aligned mbi.mmap_addr) _ refl
            (word_at stack mem bytes (a + 48))
            (then_piece (codes ", mmap_length = 0x") (hexadecimal mbi.mmap_length) _ refl
              (word_at stack mem bytes (a + 44)) (ArePieces-lits_end (codes "\n") refl))))
        (print_maps-Prints fuel (add32 mbi.mmap_addr mbi.mmap_length) mbi.mmap_addr es h enough)

  describe_rest-back_pieces :
      (a fuel : ℕ) (es : List MemoryMap) (k : Kernel)
      → both_set (multiboot_info mem a) ≡ false
      → (check_flag (multiboot_info mem a).flags 6 ≡ true
          → HasMemoryMap mem (multiboot_info mem a) es)
      → length es < fuel
      → describe_rest stack mem fuel (multiboot_info mem a) k
        ≡ done (false, print (texts (back_pieces (multiboot_info mem a) es)) k)
  unfolding describe_rest back_pieces
  describe_rest-back_pieces a fuel es k not_both h enough =
      let mbi = multiboot_info mem a in
      let back =
        Prints-seq _ _ _ _
          (Prints-when (check_flag mbi.flags 5) (print_elf stack mbi.elf_sec)
            (elf_pieces mbi.elf_sec) (print_elf-Prints stack mem bytes a))
          (Prints-if (check_flag mbi.flags 6) (print_mmap stack mem fuel mbi) (mmap_pieces mbi es)
            (λ set. print_mmap-Prints a fuel es (h set) enough)) in
      rw not_both (ap (λ o. o >>= λ k1. done (false, k1)) (back k))

  front-Prints :
      (a : ℕ)
      → Prints
          (λ k.
            print_head stack mem (multiboot_info mem a) k
            >>= when (check_flag (multiboot_info mem a).flags 3) (
                print_modules stack mem 0
                  (multiboot_info mem a).mods_addr
                  (multiboot_info mem a).mods_count))
          (front_pieces mem (multiboot_info mem a))
  unfolding front_pieces
  front-Prints a =
      let mbi = multiboot_info mem a in
      Prints-seq _ _ _ _ (print_head-Prints a) (
        Prints-when (check_flag mbi.flags 3)
          (print_modules stack mem 0 mbi.mods_addr mbi.mods_count)
          (modules_pieces mem 0 mbi.mods_addr mbi.mods_count)
          (print_modules-Prints 0 mbi.mods_addr mbi.mods_count (omega arith)))

  -- With both bits set it says so behind the modules.
  pub describe-both_set :
      (a fuel : ℕ) (k : Kernel)
      → both_set (multiboot_info mem a) ≡ true
      → describe stack mem fuel (multiboot_info mem a) k
        ≡ done (
          true,
          print
              (texts (
                front_pieces mem (multiboot_info mem a)
                ++ lits (codes "Both bits 4 and 5 are set.\n")))
              k,
        )
  unfolding describe describe_rest formats format_of arguments arguments_of no_percent
  describe-both_set a fuel k both =
      let mbi = multiboot_info mem a in
      let line = lits (codes "Both bits 4 and 5 are set.\n") in
      ap (λ o. o >>= describe_rest stack mem fuel mbi) (front-Prints a k)
      ∙ rw both (
          ap (λ o. o >>= λ k1. done (true, k1))
            (Prints-say stack _ _ line refl refl
              (ArePieces-lits_end (codes "Both bits 4 and 5 are set.\n") refl)
              (print (texts (front_pieces mem mbi)) k)))
      ∙ ap (λ k'. done (true, k')) (sym (print-texts_append (front_pieces mem mbi) line k))

  -- What `entry` prints of the boot loader's structures, where bits 4 and 5 are not both set: the walk
  -- over the memory map, which is there if bit 6 is set, ends, and a line is printed for each structure
  -- whose bit is set, with the numbers found in the memory at address `a`. The map's entries are fewer
  -- than the fuel.
  pub describe-pieces :
      (a fuel : ℕ) (es : List MemoryMap) (k : Kernel)
      → both_set (multiboot_info mem a) ≡ false
      → (check_flag (multiboot_info mem a).flags 6 ≡ true
          → HasMemoryMap mem (multiboot_info mem a) es)
      → length es < fuel
      → describe stack mem fuel (multiboot_info mem a) k
        ≡ done (
          false,
          print
              (texts
                (front_pieces mem (multiboot_info mem a) ++ back_pieces (multiboot_info mem a) es))
              k,
        )
  unfolding describe
  describe-pieces a fuel es k not_both h enough =
      let mbi = multiboot_info mem a in
      ap (λ o. o >>= describe_rest stack mem fuel mbi) (front-Prints a k)
      ∙ describe_rest-back_pieces a fuel es (print (texts (front_pieces mem mbi)) k) not_both h
          enough
      ∙ ap (λ k'. done (false, k'))
          (sym (print-texts_append (front_pieces mem mbi) (back_pieces mbi es) k))
