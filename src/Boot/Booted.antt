-- ===== src/Boot/Booted.antt =====
-- What `entry` of student-distrib/kernel.c has set up when it starts the first shell, and where it
-- stops before.
use octave_os.Base.{
  Bool, Bool-cases, ==_iff, Outcome, ◌⊎◌, inl, inr, ◌^◌, ℕ, ◌<◌, ◌≡◌, ◌≢◌, refl, sym, ap, ◌∙◌,
  arith, List, ◌∷◌, ◌++◌, length, none, ◌==◌, false, true, if◌then◌else◌, word_mod, minus_one, done,
  ◌>>=◌, ltb,
}
use octave_os.Str.{Bytes, codes}
use octave_os.Screen.{Screen, update_cursor}
use octave_os.Console.{clear}
use octave_os.Console.Pages.{SamePages, puts-SamePages, clear-SamePages}
use octave_os.Kernel.{Kernel, print}
use octave_os.Pic.{Pic, enable_irq, i8259_init}
use octave_os.Pic.Masks
use octave_os.Pic.Masks.{masked, masked-enable_irq, AreBytes-enable_irq}
use octave_os.Idt.{Handler, num_vec, vectors}
use octave_os.Idt.Gates.{IsGate, handler_of, set_idt-IsGate}
use octave_os.Terminal.{max_term, init_terminals, term_init}
use octave_os.Terminal.Switch.{HasPages, page_of}
use octave_os.Keyboard.{init_keyboard}
use octave_os.Rtc.{init_rtc}
use octave_os.Schedule.{pit_init, init_scheduler}
use octave_os.Paging.{init_paging}
use octave_os.Process.{kernel_ds}
use octave_os.Boot.{
  Machine, Platform, Ended, bad_magic, both_bits, kernel_ldt, kernel_tss, ldt_size, tss_size,
  multiboot_bootloader_magic, image_at, f_init, load_segments, init_pic, init_devices,
  start_console, run_shell, entry,
}
use octave_os.Boot.Segments.{base, limit, access, base-set_params, ldt_entry, tss_entry}
use octave_os.Boot.Multiboot.{load32, check_flag, multiboot_info, MemoryMap, MultibootInfo}
use octave_os.Boot.Described.{AreBytes, lits, front_pieces, back_pieces, both_set, HasMemoryMap}
use octave_os.Boot.Described.Loops.{describe-pieces, describe-both_set}
use octave_os.Printf.Pieces.{
  Piece, aligned, formats, format_of, arguments, arguments_of, IsPiece, texts,
}
use octave_os.Boot.Described.Prints.{no_percent, Prints-say, then_piece, ArePieces-lits_end}

-- Everything but the file system's image and the console, after the initialisations.
pub record IsBooted (p : Platform) (boot : Bytes) (start : ℕ) (m : Machine) : Type 0 where
  pub gates :
      (vec : ℕ) → vec < num_vec → IsGate p.handlers vec (handler_of none vectors vec) (m.idt vec)
  pub timer : masked m.kernel.pic 0 ≡ 0
  pub keyboard : masked m.kernel.pic 1 ≡ 0
  pub slave : masked m.kernel.pic 2 ≡ 0
  pub clock : masked m.kernel.pic 8 ≡ 0
  pub files : m.kernel.image ≡ image_at boot start
  pub pages : HasPages m.kernel.screen
  pub no_process : m.kernel.curr_pid ≡ minus_one
  pub counters :
      (m.kernel.schedule_counter ≡ 2) × (m.kernel.pit_count ≡ 0) × (m.kernel.shells_done ≡ 0)
  pub ldt_found :
      (base m.ldt_desc_ptr ≡ p.ldt) × (limit m.ldt_desc_ptr ≡ ldt_size) × (m.ldtr ≡ kernel_ldt)
  pub tss_found :
      (base m.tss_desc_ptr ≡ p.tss)
      × (limit m.tss_desc_ptr ≡ tss_size)
      × (access m.tss_desc_ptr ≡ 0x89)
      × (m.tr ≡ kernel_tss)
  pub kernel_stack : (m.kernel.tss_ss0 ≡ kernel_ds) × (m.kernel.tss_esp0 ≡ 0x800000)

-- The pages after `term_init`.
HasPages-term_init : (s : Screen) → s.curr_term ≡ 0 → HasPages (term_init s)
unfolding term_init init_terminals update_cursor
HasPages-term_init s h = record { shown = ground arith; pages = λ t ht. ground arith }

HasPages-same : (s s' : Screen) → ((t : ℕ) → SamePages t s s') → HasPages s → HasPages s'
HasPages-same s s' same ok = record {
  shown = let h = (same 0).shown in let o = ok.shown in ground arith;
  pages = λ t ht. (same t).page ∙ ok.pages t ht ∙ ap (λ c. page_of c t) (sym (same t).shown);
}

start_console-HasPages : (k : Kernel) → HasPages (start_console k).screen
unfolding start_console
start_console-HasPages k =
    let s = term_init (record k.screen { curr_term = 0 }) in
    HasPages-same s (clear 0 s) (λ t. clear-SamePages t 0 s)
      (HasPages-term_init (record k.screen { curr_term = 0 }) refl)

abbrev pub lines_on : Pic → Pic
lines_on pic = (enable_irq 0 (enable_irq 8 (enable_irq 1 (enable_irq 2 pic).0).0).0).0

lines_on-masked :
    (pic : Pic) (j : ℕ)
    → Masks.AreBytes pic
    → j < 16
    → masked (lines_on pic) j ≡ (
        if 0 == j
        then 0
        else if 8 == j
        then 0
        else if 1 == j
        then 0
        else if 2 == j
        then 0
        else masked pic j)
lines_on-masked pic j bytes hj =
    let p1 = (enable_irq 2 pic).0 in
    let b1 = AreBytes-enable_irq 2 pic bytes (omega arith) in
    let p2 = (enable_irq 1 p1).0 in
    let b2 = AreBytes-enable_irq 1 p1 b1 (omega arith) in
    let p3 = (enable_irq 8 p2).0 in
    let b3 = AreBytes-enable_irq 8 p2 b2 (omega arith) in
    let e0 = masked-enable_irq 2 j pic bytes (omega arith) hj in
    let e1 = masked-enable_irq 1 j p1 b1 (omega arith) hj in
    let e2 = masked-enable_irq 8 j p2 b2 (omega arith) hj in
    let e3 = masked-enable_irq 0 j p3 b3 (omega arith) hj in
    e3
    ∙ ap (λ v. if 0 == j then 0 else v)
        (e2 ∙ ap (λ v. if 8 == j then 0 else v) (e1 ∙ ap (λ v. if 1 == j then 0 else v) e0))

-- The initialisations, on a machine without a running process.
init_devices-IsBooted :
    (p : Platform) (boot : Bytes) (start : ℕ) (m : Machine)
    → ((h : Handler) → p.handlers h ≢ 0)
    → p.ldt < word_mod
    → p.tss < word_mod
    → start ≢ 0
    → Masks.AreBytes m.kernel.pic
    → HasPages m.kernel.screen
    → m.kernel.curr_pid ≡ minus_one
    → IsBooted p boot start (init_devices p boot start (load_segments p m))
unfolding init_devices load_segments init_pic i8259_init init_keyboard init_rtc pit_init init_paging
    f_init init_scheduler
init_devices-IsBooted p boot start m handlers ldt tss some_start bytes ok none_runs =
    let given : (start == 0) ≡ false = ground arith in
    let ldt_set = base-set_params p.ldt ldt_size ldt_entry ldt (omega arith) in
    let tss_set = base-set_params p.tss tss_size tss_entry tss (omega arith) in
    rw given (record {
      gates = λ vec small. set_idt-IsGate p.handlers handlers m.idt vec small;
      timer = lines_on-masked m.kernel.pic 0 bytes (omega arith);
      keyboard = lines_on-masked m.kernel.pic 1 bytes (omega arith);
      slave = lines_on-masked m.kernel.pic 2 bytes (omega arith);
      clock = lines_on-masked m.kernel.pic 8 bytes (omega arith);
      files = refl;
      pages = record { shown = ok.shown; pages = ok.pages };
      no_process = none_runs;
      counters = (refl, refl, refl);
      ldt_found = (ldt_set.0, ldt_set.1, refl);
      tss_found = (tss_set.0, tss_set.1, tss_set.2, refl);
      kernel_stack = (refl, refl);
    })

print-pages : (cs : List ℕ) (k : Kernel) → HasPages k.screen → HasPages (print cs k).screen
print-pages cs k ok =
    HasPages-same k.screen (print cs k).screen (λ t. puts-SamePages t cs _ k.screen) ok

module _ (p : Platform) (m : Machine) (fuel addr : ℕ) (bytes : AreBytes m.kernel.screen.mem) where
  -- The memory as the boot loader left it, and its structures.
  abbrev boot : Bytes
  boot = m.kernel.screen.mem

  abbrev mbi : MultibootInfo
  mbi = multiboot_info boot addr

  -- What `entry` does behind the part that prints.
  abbrev after : Bool × Kernel → Outcome (Ended × Machine)
  after (both, k) =
      let m1 = record m { kernel = k } in
      let start = load32 boot mbi.mods_addr in
      let rest = run_shell p (init_devices p boot start (load_segments p m1)) in
      if both then done (both_bits, m1) else rest

  -- `entry` with the boot loader's magic number, a memory map that ends within the fuel, and not both
  -- of the bits 4 and 5, on masks that are bytes: it goes on to the start of the first shell on a
  -- machine that is set up. There the interrupt table has its gates, the timer, the keyboard, the
  -- clock and the second controller's line are unmasked, the files are those of the first module's
  -- image, each terminal has its page, no process runs, the counters of the scheduler and the timer
  -- are at their first values, and the two descriptors lead to the LDT and the TSS. The first module
  -- and the handlers are not at address 0, and the word in front of `pid_to_term`, which `entry` reads
  -- for the terminal to print on while no process runs, is the number of a terminal.
  pub entry-IsBooted :
      (es : List MemoryMap)
      → Masks.AreBytes m.kernel.pic
      → ((h : Handler) → p.handlers h ≢ 0)
      → p.ldt < word_mod
      → p.tss < word_mod
      → both_set mbi ≡ false
      → (check_flag mbi.flags 6 ≡ true → HasMemoryMap boot mbi es)
      → length es < fuel
      → load32 boot mbi.mods_addr ≢ 0
      → m.kernel.pid_to_term minus_one < max_term
      → (b : Machine) × (entry p fuel multiboot_bootloader_magic addr m ≡ run_shell p b)
        × IsBooted p boot (load32 boot mbi.mods_addr) b
  unfolding entry
  entry-IsBooted es masks handlers ldt tss not_both has_map enough some_module term =
      let on_term : ltb (m.kernel.pid_to_term minus_one) max_term ≡ true = ground arith in
      let k = start_console m.kernel in
      let k1 = print (texts (front_pieces boot mbi ++ back_pieces mbi es)) k in
      let m1 = record m { kernel = k1 } in
      let start = load32 boot mbi.mods_addr in
      (
        init_devices p boot start (load_segments p m1),
        rw on_term (
            ap (λ o. o >>= after)
              (describe-pieces p.stack boot bytes addr fuel es k not_both has_map enough)),
        init_devices-IsBooted p boot start m1 handlers ldt tss some_module masks
            (print-pages _ k (start_console-HasPages m.kernel)) refl,
      )

  -- What `entry` says where it stops early.
  abbrev refusal : (magic : ℕ) → Ended × List Piece
  refusal magic =
      if magic == multiboot_bootloader_magic
      then (both_bits, front_pieces boot mbi ++ lits (codes "Both bits 4 and 5 are set.\n"))
      else (bad_magic, lits (codes "Invalid magic number: 0x") ++ aligned magic ∷ lits (codes "\n"))

  -- With another magic number, or both of the bits 4 and 5 set, `entry` returns after a line that says
  -- so, behind those for the structures up to the modules in the second case. It has noted that no
  -- process runs, set up the terminals and cleared the screen first, as `start_console` says, and
  -- nothing else of the machine has changed. The word in front of `pid_to_term`, which it reads for the
  -- terminal to print on while no process runs, is the number of a terminal.
  pub entry-refusal :
      (magic : ℕ)
      → magic < 2 ^ 32
      → m.kernel.pid_to_term minus_one < max_term
      → (magic ≢ multiboot_bootloader_magic) ⊎ (both_set mbi ≡ true)
      → entry p fuel magic addr m
        ≡ done (
          (refusal magic).0,
          record m { kernel = print (texts (refusal magic).1) (start_console m.kernel) },
        )
  unfolding entry formats format_of arguments arguments_of IsPiece no_percent
  entry-refusal magic small term why =
      let on_term : ltb (m.kernel.pid_to_term minus_one) max_term ≡ true = ground arith in
      elim (Bool-cases (magic == multiboot_bootloader_magic)) [
        | inl good ↦
            let both : both_set mbi ≡ true = elim why [
              | inl ne ↦ absurd (ne ((==_iff magic multiboot_bootloader_magic).0 good))
              | inr b ↦ b
            ] in
            rw (good, on_term)
              (ap (λ o. o >>= after)
                (describe-both_set p.stack boot bytes addr fuel (start_console m.kernel) both))
        | inr bad ↦
            let line =
              lits (codes "Invalid magic number: 0x") ++ aligned magic ∷ lits (codes "\n") in
            rw (bad, on_term)
              (ap (λ o. o >>= λ k. done (bad_magic, record m { kernel = k }))
                (Prints-say p.stack _ _ line refl refl
                  (then_piece (codes "Invalid magic number: 0x") (aligned magic) _ refl small
                    (ArePieces-lits_end (codes "\n") refl))
                  (start_console m.kernel)))
      ]
