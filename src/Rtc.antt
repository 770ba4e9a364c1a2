-- ===== src/Rtc.antt =====
-- The real-time clock of student-distrib/rtc.c: `init_rtc`, the interrupt handler, and the functions
-- on descriptors. The byte that `inb` reads from the device is a parameter. `cli` and `sti` are not
-- modelled: no interrupt comes between the steps of one function, but in the wait of `rtc_read`.
pub mod Handler
pub mod Write
use octave_os.Base.{
  ℕ, zero, suc, ◌+◌, ◌-◌, ◌/◌, ◌%◌, ◌^◌, List, [], ◌∷◌, ◌++◌, Option, none, some, Bool, true, false,
  not, ◌||◌, leb, ◌==◌, if◌then◌else◌, nonzero, add32, sub32, minus_one, ltb_signed, leb_signed,
  rem_signed, div_signed, update, bit_and, bit_or, Outcome, done, fault, out_of_bounds,
  divide_error, waits, out_of_fuel, ◌>>=◌, ◌*◌,
}
use octave_os.Str.{Bytes, codes, as_bytes}
use octave_os.FileSys.{read_dentry_by_name}
use octave_os.Pic.{send_eoi, enable_irq}
use octave_os.Kernel.{
  rtc_jump_s, FdEntry, Pcb, Kernel, max_pid, file_array_size, file_open, file_not_open, pid_to_pcb,
  is_null, current_pcb, put_entry, print, outb,
}
use octave_os.Files.{free_fd, no_dentry, close_entry}

abbrev pub rtc_irq : ℕ
rtc_irq = 8

abbrev pub rtc_port : ℕ
rtc_port = 0x70

abbrev pub rtc_data : ℕ
rtc_data = 0x71

abbrev pub highest_rate : ℕ
highest_rate = 15

abbrev pub lowest_freq : ℕ
lowest_freq = 2

abbrev pub highest_freq : ℕ
highest_freq = 1024

-- Register A is selected, read, selected and written: its low half becomes `rate`.
abbrev pub set_rate : (inb rate : ℕ) → List (ℕ × ℕ)
set_rate inb rate =
    (0x8a, rtc_port) ∷ (0x8a, rtc_port) ∷ (bit_or (bit_and inb 0xf0) rate, rtc_data) ∷ []

-- `for (i = 0; i < MAX_PID; i++) rtc_scales[i] = 1`, at `i` with `n` rounds left.
unfoldable pub reset_scales : (ℕ → ℕ) → ℕ → ℕ → ℕ → ℕ
reset_scales scales i zero = scales
reset_scales scales i (suc n) = reset_scales (update scales i 1) (i + 1) n

unfoldable pub init_rtc : (inb_b inb_a : ℕ) → Kernel → Kernel
unfolding reset_scales enable_irq
init_rtc inb_b inb_a k =
    let (pic, outs) = enable_irq rtc_irq k.pic in
    outb
      (((0x8b, rtc_port) ∷ (0x8b, rtc_port) ∷ (bit_or inb_b 0x40, rtc_data) ∷ [])
        ++ (set_rate inb_a highest_rate ++ outs))
      (record k { rtc_count = 0; rtc_scales = reset_scales k.rtc_scales 0 max_pid; pic = pic })

-- The loop of `rtc_handler`, at `i` with `n` rounds left: a process is woken where its scale divides
-- the count. A scale of 0 divides by zero.
unfoldable pub wake : (count : ℕ) → (ℕ → ℕ) → (ℕ → ℕ) → ℕ → ℕ → Outcome (ℕ → ℕ)
wake count scales flags i zero = done flags
wake count scales flags i (suc n) =
    let flags' = if rem_signed count (scales i) == 0 then update flags i 1 else flags in
    let rest = wake count scales flags' (i + 1) n in
    if scales i == 0 then fault divide_error else rest

-- The count and the flags that an interrupt leaves. Register C is selected, so that the next
-- interrupt can come, and the interrupt is acknowledged.
abbrev pub ticked : (count : ℕ) → (ℕ → ℕ) → Kernel → Kernel
ticked count flags k =
    outb ((0x8c, rtc_port) ∷ send_eoi rtc_irq)
      (record k { rtc_count = count; process_flags = flags })

unfoldable pub rtc_handler : Kernel → Outcome Kernel
rtc_handler k =
    let count = add32 k.rtc_count 1 in
    wake count k.rtc_scales k.process_flags 0 max_pid >>= λ flags. done (ticked count flags k)

-- If no descriptor is free, the clock's rate is set and 0 returned.
unfoldable pub rtc_open : (inb : ℕ) → List ℕ → Kernel → ℕ × Kernel
rtc_open inb name k =
    let fd = free_fd (current_pcb k) in
    let (found, dentry) = read_dentry_by_name k.image (as_bytes name) no_dentry in
    if ltb_signed 0 fd
    then (if found == minus_one
        then (minus_one, print (codes "did not read dentry correctly\n") k)
        else (
          fd,
          put_entry fd
              (record { file_op_table_ptr = rtc_jump_s; inode = 0; fpos = 0; flags = file_open }) k,
        ))
    else (0, outb (set_rate inb 0x0f) k)

-- `rtc_scales[curr_pid] = v`
abbrev pub put_scale : ℕ → Kernel → Kernel
put_scale v k = record k { rtc_scales = update k.rtc_scales k.curr_pid v }

-- After the descriptor is closed, as `fclose` closes it, the process is woken at every interrupt.
unfoldable pub rtc_close : ℕ → Kernel → ℕ × Kernel
unfolding close_entry
rtc_close fd k =
    let (r, k') =
      close_entry (codes "Passed in null ptr to pcb_close")
        (codes "Passed in invalid fd to pcb_close") fd k in
    if r == 0 then (0, put_scale 1 k') else (r, k')

-- `while (process_flags[curr_pid] == 0)`, with `n` interrupts of the clock coming during the wait.
unfoldable pub rtc_wait : (n : ℕ) → Kernel → Outcome (ℕ × Kernel)
rtc_wait zero k = if nonzero (k.process_flags k.curr_pid) then done (0, k) else fault waits
rtc_wait (suc n) k =
    let next = rtc_handler k >>= rtc_wait n in
    if nonzero (k.process_flags k.curr_pid) then done (0, k) else next

unfoldable pub rtc_read : (n : ℕ) → Kernel → Outcome (ℕ × Kernel)
unfolding rtc_wait
rtc_read n k = rtc_wait n (record k { process_flags = update k.process_flags k.curr_pid 0 })

-- `while (freq != 1) { freq /= 2; count++; }`
unfoldable pub count_halvings : (fuel freq count : ℕ) → Outcome ℕ
count_halvings zero freq count = fault out_of_fuel
count_halvings (suc f) freq count =
    let rest = count_halvings f (div_signed freq 2) ((count + 1) % 256) in
    if freq == 1 then done count else rest

-- The rounds of the halving loop for a frequency of at most 1024, and the test that ends it.
abbrev pub halving_fuel : ℕ
halving_fuel = 11

-- The rate of a frequency: `HIGHEST_RATE - count + 1` as a `char`, and its low four bits.
unfoldable pub rate_of : (count : ℕ) → ℕ
rate_of count = bit_and ((highest_rate + 257 - count) % 256) highest_rate

unfoldable pub set_scale : (count : ℕ) → Kernel → Kernel
set_scale count k = if rate_of count == 0 then k else put_scale (highest_rate / rate_of count) k

unfoldable pub is_valid_freq : ℕ → Bool
is_valid_freq freq = not (
    (freq == 0)
    || ltb_signed freq lowest_freq
    || ltb_signed highest_freq freq
    || not (bit_and freq (sub32 freq 1) == 0))

-- `*(int32_t*) buf`, from its four bytes.
abbrev pub read_int32 : Bytes → ℕ
read_int32 b = b 0 + 256 * b 1 + 65536 * b 2 + 16777216 * b 3

-- `rtc_write` on the frequency that the buffer holds.
unfoldable pub rtc_write_freq : (inb freq : ℕ) → Kernel → Outcome (ℕ × Kernel)
rtc_write_freq inb freq k =
    let run = count_halvings halving_fuel freq 0 >>= λ count.
    done (0, outb (set_rate inb lowest_freq) (set_scale count k)) in
    if is_valid_freq freq then run else done (minus_one, k)

unfoldable pub rtc_write : (inb : ℕ) → Option Bytes → Kernel → Outcome (ℕ × Kernel)
rtc_write inb none k = done (minus_one, k)
rtc_write inb (some buf) k = rtc_write_freq inb (read_int32 buf) k
