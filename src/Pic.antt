-- ===== src/Pic.antt =====
-- The interrupt controller of student-distrib/i8259.c: the two masks and the commands sent.
--
-- Each operation returns the new masks and the `outb`s in order, as value and port. Of a shift only
-- the low byte is kept, as in the `unsigned char` it is stored in.
pub mod Masks
use octave_os.Base.{ℕ, ◌+◌, ◌-◌, ◌%◌, ◌^◌, List, [], ◌∷◌, ◌++◌, ltb, if◌then◌else◌, bit_and, bit_or}

pub record Pic : Type 0 where
  pub master_mask : ℕ
  pub slave_mask : ℕ
  pub set_mask : ℕ

abbrev pub max_pic : ℕ
max_pic = 8

abbrev pub slave_irq : ℕ
slave_irq = 2

abbrev pub master_cmd : ℕ
master_cmd = 0x20

abbrev pub slave_cmd : ℕ
slave_cmd = 0xa0

abbrev pub master_data : ℕ
master_data = master_cmd + 1

abbrev pub slave_data : ℕ
slave_data = slave_cmd + 1

abbrev pub eoi : ℕ
eoi = 0x60

abbrev pub Outs : Type 0
Outs = List (ℕ × ℕ)

unfoldable pub enable_irq : ℕ → Pic → Pic × Outs
enable_irq irq_num pic =
    if ltb irq_num max_pic
    then (let set_mask = 2 ^ irq_num % 256 in
        let mask = bit_and pic.master_mask (255 - set_mask) in
        (record pic { set_mask = set_mask; master_mask = mask }, (mask, master_data) ∷ []))
    else (let set_mask = 2 ^ (irq_num - max_pic) % 256 in
        let mask = bit_and pic.slave_mask (255 - set_mask) in
        (record pic { set_mask = set_mask; slave_mask = mask }, (mask, slave_data) ∷ []))

unfoldable pub disable_irq : ℕ → Pic → Pic × Outs
disable_irq irq_num pic =
    if ltb irq_num max_pic
    then (let set_mask = 2 ^ irq_num % 256 in
        let mask = bit_or pic.master_mask set_mask in
        (record pic { set_mask = set_mask; master_mask = mask }, (mask, master_data) ∷ []))
    else (let set_mask = 2 ^ (irq_num - max_pic) % 256 in
        let mask = bit_or pic.slave_mask set_mask in
        (record pic { set_mask = set_mask; slave_mask = mask }, (mask, slave_data) ∷ []))

-- The slave's interrupts are acknowledged at both controllers.
unfoldable pub send_eoi : ℕ → Outs
send_eoi irq_num =
    if ltb irq_num max_pic
    then (bit_or eoi irq_num % 256, master_cmd) ∷ []
    else (bit_or eoi (irq_num - max_pic) % 256, slave_cmd) ∷ (bit_or eoi slave_irq, master_cmd) ∷ []

-- The four control words of each controller, both masks, and the slave's line unmasked.
unfoldable pub i8259_init : Pic → Pic × Outs
unfolding enable_irq
i8259_init pic =
    let (pic', outs) = enable_irq slave_irq pic in
    (
      pic',
      ((0x11, master_cmd)
            ∷ (0x11, slave_cmd)
            ∷ (0x20, master_data)
            ∷ (0x28, slave_data)
            ∷ (0x04, master_data)
            ∷ (0x02, slave_data)
            ∷ (0x01, master_data)
            ∷ (0x01, slave_data)
            ∷ (pic.master_mask, master_data)
            ∷ (pic.slave_mask, slave_data)
            ∷ [])
          ++ outs,
    )
