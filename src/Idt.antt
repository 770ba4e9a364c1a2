-- ===== src/Idt.antt =====
-- The interrupt descriptor table of student-distrib/idt/idt.c, and its exception handlers.
--
-- The linkages are those of idt_link.S and `system_handler` of system_execute_linkage.S. Where the
-- linker places them is given by `address`.
pub mod Gates
use octave_os.Base.{ℕ, zero, suc, ◌+◌, ◌/◌, ◌%◌, ◌^◌, List, [], ◌∷◌, ◌==◌, if◌then◌else◌, update}
use octave_os.Str.{codes}
use octave_os.Kernel.{Kernel, print}

-- `idt_desc_t`
pub record IdtDesc : Type 0 where
  pub offset_15_00 : ℕ
  pub seg_selector : ℕ
  pub reserved4 : ℕ
  pub reserved3 : ℕ
  pub reserved2 : ℕ
  pub reserved1 : ℕ
  pub size : ℕ
  pub reserved0 : ℕ
  pub dpl : ℕ
  pub present : ℕ
  pub offset_31_16 : ℕ

abbrev pub Idt : Type 0
Idt = ℕ → IdtDesc

abbrev pub kernel_cs : ℕ
kernel_cs = 0x10

abbrev pub num_vec : ℕ
num_vec = 256

-- The functions whose linkages the table holds.
pub data Handler : Type 0 where
  div_error : Handler
  debug : Handler
  non_maskable_int : Handler
  breakpoint : Handler
  overflow : Handler
  bound_range_exceeded : Handler
  invalid_opcode : Handler
  device_not_available : Handler
  double_fault : Handler
  coprocessor_segment_overrun : Handler
  invalid_tss : Handler
  segment_not_present : Handler
  stack_segment_fault : Handler
  gen_protection_fault : Handler
  page_fault : Handler
  assertion_failure : Handler
  floating_point_error : Handler
  alignment_check : Handler
  machine_check : Handler
  simd_floating_point : Handler
  pit_handler : Handler
  keyboard_handler : Handler
  rtc_handler : Handler
  system_handler : Handler

-- The two branches on the vector.
abbrev with_privilege : ℕ → IdtDesc → IdtDesc
with_privilege vec d =
    if vec == 0x80
    then record d { seg_selector = kernel_cs; dpl = 3; reserved3 = 1 }
    else record d { seg_selector = kernel_cs; dpl = 0; reserved3 = 0 }

-- The two branches on the address; a null pointer is 0.
abbrev with_offset : ℕ → IdtDesc → IdtDesc
with_offset func d = if func == 0 then record d { size = 1; present = 0 } else record d {
  size = 1;
  present = 1;
  offset_15_00 = func % 2 ^ 16;
  offset_31_16 = func / 2 ^ 16;
}

unfoldable pub set_idt_desc : (vec func : ℕ) → Idt → Idt
set_idt_desc vec func idt =
    let d = with_offset func (with_privilege vec (idt vec)) in
    update idt vec (record d { reserved0 = 0; reserved1 = 1; reserved2 = 1; reserved4 = 0 })

-- `for (i = 0; i < NUM_VEC; ++i)`, at `i` with `n` rounds left.
unfoldable pub clear_idt : (n i : ℕ) → Idt → Idt
unfolding set_idt_desc
clear_idt zero i idt = idt
clear_idt (suc n) i idt = clear_idt n (i + 1) (set_idt_desc i 0 idt)

-- The vectors that `set_idt` fills, in its order.
abbrev pub vectors : List (ℕ × Handler)
vectors =
    (0, div_error)
    ∷ (1, debug)
    ∷ (2, non_maskable_int)
    ∷ (3, breakpoint)
    ∷ (4, overflow)
    ∷ (5, bound_range_exceeded)
    ∷ (6, invalid_opcode)
    ∷ (7, device_not_available)
    ∷ (8, double_fault)
    ∷ (9, coprocessor_segment_overrun)
    ∷ (0xa, invalid_tss)
    ∷ (0xb, segment_not_present)
    ∷ (0xc, stack_segment_fault)
    ∷ (0xd, gen_protection_fault)
    ∷ (0xe, page_fault)
    ∷ (0xf, assertion_failure)
    ∷ (0x10, floating_point_error)
    ∷ (0x11, alignment_check)
    ∷ (0x12, machine_check)
    ∷ (0x13, simd_floating_point)
    ∷ (0x20, pit_handler)
    ∷ (0x21, keyboard_handler)
    ∷ (0x28, rtc_handler)
    ∷ (0x80, system_handler)
    ∷ []

-- A `set_idt_desc` for each.
unfoldable pub fill_idt : (address : Handler → ℕ) → List (ℕ × Handler) → Idt → Idt
unfolding set_idt_desc
fill_idt address [] idt = idt
fill_idt address ((vec, h) ∷ rest) idt = fill_idt address rest (set_idt_desc vec (address h) idt)

unfoldable pub set_idt : (address : Handler → ℕ) → Idt → Idt
unfolding clear_idt fill_idt
set_idt address idt = fill_idt address vectors (clear_idt num_vec 0 idt)

-- What the handler of an exception prints before it loops for ever, and nothing for the handlers of
-- the other interrupts.
unfoldable pub exception_text : Handler → List ℕ
exception_text div_error = codes "div0"
exception_text debug = codes "debug"
exception_text non_maskable_int = codes "NMI"
exception_text breakpoint = codes "bkpt"
exception_text overflow = codes "overflow"
exception_text bound_range_exceeded = codes "bound_range_exceeded"
exception_text invalid_opcode = codes "invalid_opcode"
exception_text device_not_available = codes "device_not_available"
exception_text double_fault = codes "double_fault"
exception_text coprocessor_segment_overrun = codes "coprocessor_segment_overrun"
exception_text invalid_tss = codes "invalid_tss"
exception_text segment_not_present = codes "segment_not_present"
exception_text stack_segment_fault = codes "stack_segment_fault"
exception_text gen_protection_fault = codes "gen_protection_fault"
exception_text page_fault = codes "page_fault"
exception_text assertion_failure = codes "assertion_failure"
exception_text floating_point_error = codes "floating_point_error"
exception_text alignment_check = codes "alignment_check"
exception_text machine_check = codes "machine_check"
exception_text simd_floating_point = codes "SIMD_floating_point"
exception_text pit_handler = []
exception_text keyboard_handler = []
exception_text rtc_handler = []
exception_text system_handler = []

-- The kernel in which the handler of an exception loops.
unfoldable pub exception : Handler → Kernel → Kernel
unfolding exception_text
exception h k = print (exception_text h) k
