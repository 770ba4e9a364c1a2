-- ===== src/Fish.antt =====
-- The animation of fish/: fish.c, with the list of blinking characters of blink.S in `Blink`.
--
-- The program runs on the kernel as those of syscalls/ do. `inb` is what the clock's port answers,
-- `n` the number of the clock's interrupts during a read, `buf` the address of a local variable, and
-- `screen_start` that of `vmem_base_addr`.
pub mod Blink
use octave_os.Base.{
  ℕ, zero, suc, ◌+◌, ◌*◌, ◌%◌, ◌^◌, List, [], ◌∷◌, Option, none, some, Bool, not, ◌&&◌, ◌||◌, ltb,
  ◌==◌, if◌then◌else◌, get_or, minus_one, ltb_signed, Outcome, done, fault, out_of_fuel, ◌>>=◌,
}
use octave_os.Str.{codes, as_bytes}
use octave_os.Kernel.{Kernel}
use octave_os.Paging.{system_vidmap}
use octave_os.Syscalls.{system_open, system_read, system_write, system_close}
use octave_os.Fish.Blink.{
  BlinkStruct, Blinks, zero_struct, cleared, mp1_ioctl_add, mp1_ioctl_remove, mp1_ioctl_sync,
  mp1_rtc_tasklet,
}

abbrev pub file0 : List ℕ
file0 = codes "frame0.txt"

abbrev pub file1 : List ℕ
file1 = codes "frame1.txt"

abbrev pub wait : ℕ
wait = 100

abbrev pub line_break : ℕ
line_break = 10

-- `c0`, `c1`, `eof0` and `eof1` of `add_frames`.
pub record Frames : Type 0 where
  pub c0 : ℕ
  pub c1 : ℕ
  pub eof0 : ℕ
  pub eof1 : ℕ

-- `(c == '\n') ? ' ' : c`
abbrev pub or_space : ℕ → ℕ
or_space c = if c == line_break then 32 else c

-- `c != ' ' && c != '\n'`
abbrev pub is_visible : ℕ → Bool
is_visible c = not (c == 32) && not (c == line_break)

module _ (inb n buf : ℕ) where
  -- The next character of a frame: unless its line has ended, a byte is read, and at the end of the
  -- file the line and the frame end.
  unfoldable pub next_char : (fd c eof : ℕ) → Kernel → Outcome (ℕ × ℕ × Kernel)
  next_char fd c eof k =
      let read = system_read n fd buf 1 k >>= λ (num_bytes, out, k1).
      done (if num_bytes == 0 then (line_break, 1, k1) else (get_or out 0 c, eof, k1)) in
      if c == line_break then done (c, eof, k) else read

  -- A blinking character at a place of the frames.
  unfoldable pub add_blink : (row col : ℕ) → Frames → Blinks → Blinks
  unfolding mp1_ioctl_add
  add_blink row col f b =
      let blink_struct = record zero_struct {
        on_char = or_space f.c0;
        off_char = or_space f.c1;
        on_length = 15;
        off_length = 15;
        location = (row * 80 + col + 40) % 2 ^ 16;
      } in
      if is_visible f.c0 || is_visible f.c1 then (mp1_ioctl_add blink_struct b).1 else b

  -- The inner `while (1)`: a row of both frames.
  unfoldable pub add_row :
      (fuel fd0 fd1 row col : ℕ) → Frames → Blinks → Kernel → Outcome (Frames × Blinks × Kernel)
  unfolding next_char add_blink
  add_row zero fd0 fd1 row col f b k = fault out_of_fuel
  add_row (suc fuel) fd0 fd1 row col f b k = next_char fd0 f.c0 f.eof0 k >>= λ (c0, eof0, k1).
      next_char fd1 f.c1 f.eof1 k1 >>= λ (c1, eof1, k2).
      (let f' : Frames = record { c0 = c0; c1 = c1; eof0 = eof0; eof1 = eof1 } in
        let rest = add_row fuel fd0 fd1 row (col + 1) f' (add_blink row col f' b) k2 in
        if (c0 == line_break) && (c1 == line_break) then done (f', b, k2) else rest)

  -- What follows a row: a frame that has ended is closed, and waits with its line ended.
  unfoldable pub end_frame : (fd eof : ℕ) → Kernel → Outcome (ℕ × Kernel)
  end_frame fd eof k =
      let closed = system_close fd k >>= λ (r, k1). done (line_break, k1) in
      if eof == 0 then done (b'0', k) else closed

  -- `while(eof0 == 0 || eof1 == 0)`
  unfoldable pub add_rows :
      (fuel fd0 fd1 row : ℕ) → Frames → Blinks → Kernel → Outcome (Blinks × Kernel)
  unfolding add_row end_frame
  add_rows zero fd0 fd1 row f b k = fault out_of_fuel
  add_rows (suc fuel) fd0 fd1 row f b k =
      let rest = add_row fuel fd0 fd1 row 0 f b k >>= λ (f1, b1, k1).
      end_frame fd0 f1.eof0 k1 >>= λ (c0, k2). end_frame fd1 f1.eof1 k2 >>= λ (c1, k3).
      add_rows fuel fd0 fd1 (row + 1) (record f1 { c0 = c0; c1 = c1 }) b1 k3 in
      if (f.eof0 == 0) || (f.eof1 == 0) then rest else done (b, k)

  -- `none` is the `ece391_halt` where a frame cannot be opened.
  unfoldable pub add_frames : (fuel : ℕ) → Blinks → Kernel → Outcome (Option Blinks × Kernel)
  unfolding add_rows
  add_frames fuel b k =
      let (fd0, k1) = system_open inb file0 k in
      let (fd1, k2) = system_open inb file1 k1 in
      let start : Frames = record { c0 = b'0'; c1 = b'0'; eof0 = 0; eof1 = 0 } in
      let drawn = add_rows fuel fd0 fd1 0 start b k2 >>= λ (b1, k3). done (some b1, k3) in
      if ltb_signed fd0 0
      then done (none, k1)
      else if ltb_signed fd1 0
      then done (none, k2)
      else drawn

  -- `for(i=0; i<WAIT; i++)`, with `m` rounds left: the tasklet runs at each tick of the clock.
  unfoldable pub wait_ticks : (fuel m rtc_fd : ℕ) → Blinks → Kernel → Outcome (Blinks × Kernel)
  unfolding mp1_rtc_tasklet
  wait_ticks fuel zero rtc_fd b k = done (b, k)
  wait_ticks fuel (suc m) rtc_fd b k = system_read n rtc_fd buf 4 k >>= λ (r, out, k1).
      mp1_rtc_tasklet fuel b >>= λ b1. wait_ticks fuel m rtc_fd b1 k1

  -- The place of the character that `main` adds.
  abbrev pub added_location : ℕ
  added_location = 6 * 80 + 60

  abbrev pub added : BlinkStruct
  added = record zero_struct {
    on_char = b'I';
    off_char = b'M';
    on_length = 7;
    off_length = 6;
    location = added_location;
  }

  -- The part of `main` behind `add_frames`.
  unfoldable pub show : (fuel rtc_fd : ℕ) → Blinks → Kernel → Outcome (ℕ × Blinks × Kernel)
  unfolding wait_ticks mp1_ioctl_add mp1_ioctl_sync mp1_ioctl_remove
  show fuel rtc_fd b k =
      system_write inb rtc_fd (some (as_bytes (32 ∷ 0 ∷ 0 ∷ 0 ∷ []))) 4 k >>= λ (r, k1).
      wait_ticks fuel wait rtc_fd b k1 >>= λ (b2, k2).
      wait_ticks fuel wait rtc_fd (mp1_ioctl_add added b2).1 k2 >>= λ (b3, k3).
      mp1_ioctl_sync fuel (40 * 2 ^ 16 + added_location) b3 >>= λ (r3, b4).
      wait_ticks fuel wait rtc_fd b4 k3 >>= λ (b5, k5).
      mp1_ioctl_remove fuel added_location b5 >>= λ (r5, b6).
      wait_ticks fuel wait rtc_fd b6 k5 >>= λ (b7, k7).
      system_close rtc_fd k7 >>= λ (r7, k8). done (0, b7, k8)

  unfoldable pub fish :
      (table_1 screen_start fuel : ℕ) → Blinks → Kernel → Outcome (ℕ × Blinks × Kernel)
  unfolding add_frames show
  fish table_1 screen_start fuel b k =
      let b0 = cleared b in
      let (mapped, k1, base) = system_vidmap table_1 screen_start k in
      let (rtc_fd, k2) = system_open inb (codes "rtc") k1 in
      let run = add_frames fuel b0 k2 >>= λ (drawn, k3). elim drawn [
        | none ↦ done (255, b0, k3)
        | some b1 ↦ show fuel rtc_fd b1 k3
      ] in
      if (mapped == minus_one) || (base == 0) then done (minus_one, b0, k1) else run
