-- ===== src/Tests/Devices.antt =====
-- The clock and the interrupt controllers, on the kernel of `Data`.
use octave_os.Base.{ℕ, ◌≡◌, refl, arith, done, some, if◌then◌else◌, ◌==◌}
use octave_os.Str.{Bytes}
use octave_os.Kernel.{Kernel, outb}
use octave_os.Pic.Masks.{AreBytes}
use octave_os.Rtc.{rtc_read, rtc_write, set_rate, put_scale}
use octave_os.Rtc.Handler.{rtc_read_ends}
use octave_os.Rtc.Write.{rtc_write-power}
use octave_os.Tests.Data.{kernel, pic}

rtc_read_ends_example : (k : Kernel) × (rtc_read 2 kernel ≡ done (0, k))
rtc_read_ends_example =
    rtc_read_ends 2 kernel (λ i hi. omega arith) (omega arith) (omega arith) (omega arith)

-- Four bytes whose first is `n`.
abbrev int32_bytes : ℕ → Bytes
int32_bytes n i = if i == 0 then n else 0

rtc_write-power_example :
    rtc_write 5 (some (int32_bytes 8)) kernel ≡ done (0, outb (set_rate 5 2) (put_scale 1 kernel))
rtc_write-power_example =
    rtc_write-power 5 (int32_bytes 8) kernel 3 (omega arith) (omega arith) refl

pic-AreBytes : AreBytes pic
pic-AreBytes = record { master_byte = omega arith; slave_byte = omega arith }
