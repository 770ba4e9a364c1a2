-- ===== src/Boot/Segments.antt =====
-- The descriptors of segments of student-distrib/x86_desc.h, and the two that `entry` of kernel.c
-- sets up.
use octave_os.Base.{ℕ, ◌+◌, ◌*◌, ◌/◌, ◌%◌, ◌^◌, ◌≡◌, ◌<◌, arith, word_mod}

-- `seg_desc_t`
pub record SegDesc : Type 0 where
  pub seg_lim_15_00 : ℕ
  pub base_15_00 : ℕ
  pub base_23_16 : ℕ
  pub type : ℕ
  pub sys : ℕ
  pub dpl : ℕ
  pub present : ℕ
  pub seg_lim_19_16 : ℕ
  pub avail : ℕ
  pub reserved : ℕ
  pub opsize : ℕ
  pub granularity : ℕ
  pub base_31_24 : ℕ

-- `the_ldt_desc` and `the_tss_desc` before the address and the limit are set. The fields that the
-- code sets only by the macros are 0 here, and all of them are set again.
abbrev pub ldt_entry : SegDesc
ldt_entry = record {
  seg_lim_15_00 = 0;
  base_15_00 = 0;
  base_23_16 = 0;
  type = 0x2;
  sys = 0x0;
  dpl = 0x0;
  present = 0x1;
  seg_lim_19_16 = 0;
  avail = 0x0;
  reserved = 0x0;
  opsize = 0x1;
  granularity = 0x0;
  base_31_24 = 0;
}

abbrev pub tss_entry : SegDesc
tss_entry = record {
  seg_lim_15_00 = 104 % 2 ^ 16;
  base_15_00 = 0;
  base_23_16 = 0;
  type = 0x9;
  sys = 0x0;
  dpl = 0x0;
  present = 0x1;
  seg_lim_19_16 = 0;
  avail = 0x0;
  reserved = 0x0;
  opsize = 0x0;
  granularity = 0x0;
  base_31_24 = 0;
}

-- SET_LDT_PARAMS and SET_TSS_PARAMS, which are the same.
unfoldable pub set_params : (addr lim : ℕ) → SegDesc → SegDesc
set_params addr lim str = record str {
  base_31_24 = addr / 2 ^ 24 % 2 ^ 8;
  base_23_16 = addr / 2 ^ 16 % 2 ^ 8;
  base_15_00 = addr % 2 ^ 16;
  seg_lim_19_16 = lim / 2 ^ 16 % 2 ^ 4;
  seg_lim_15_00 = lim % 2 ^ 16;
}

-- The address and the limit that the processor reads out of a descriptor.
abbrev pub base : SegDesc → ℕ
base d = d.base_31_24 * 2 ^ 24 + d.base_23_16 * 2 ^ 16 + d.base_15_00

abbrev pub limit : SegDesc → ℕ
limit d = d.seg_lim_19_16 * 2 ^ 16 + d.seg_lim_15_00

-- The byte of a descriptor that holds its type, privilege and presence.
abbrev pub access : SegDesc → ℕ
access d = 0x80 * d.present + 0x20 * d.dpl + 0x10 * d.sys + d.type

pub base-set_params :
    (addr lim : ℕ) (d : SegDesc)
    → addr < word_mod
    → lim < 2 ^ 20
    → (base (set_params addr lim d) ≡ addr)
      × (limit (set_params addr lim d) ≡ lim)
      × (access (set_params addr lim d) ≡ access d)
unfolding set_params
base-set_params addr lim d ha hl = (omega arith, omega arith, omega arith)
