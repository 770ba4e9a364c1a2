-- ===== src/Programs/Pingpong.antt =====
-- `main` of syscalls/ece391pingpong.c, which runs for ever: `rounds` of its outer loop.
--
-- The array `buf` is a function of the index.
use octave_os.Base.{
  ℕ, zero, suc, ◌+◌, ◌-◌, ◌%◌, List, [], ◌∷◌, some, ◌==◌, if◌then◌else◌, update, Outcome, done,
  ◌>>=◌,
}
use octave_os.Str.{Bytes, codes, as_bytes, text}
use octave_os.Kernel.{Kernel}
use octave_os.Syscalls.{system_open, system_read, system_write}
use octave_os.Programs.{fdputs}
pub mod Drawn

abbrev pub screenwidth : ℕ
screenwidth = 79

abbrev pub bufmax : ℕ
bufmax = screenwidth + 2

abbrev pub startloop : ℕ
startloop = 1 + 1

-- `BUFMAX-ENDING-1`, in which BUFMAX is the sum as it is written.
abbrev pub loopmax : ℕ
loopmax = screenwidth + 2 - 2 - 1

-- `for(i = …; i < …; i++) buf[i]=' '`, with `n` rounds left.
unfoldable pub fill_spaces : Bytes → (i n : ℕ) → Bytes
fill_spaces buf i zero = buf
fill_spaces buf i (suc n) = fill_spaces (update buf i 32) (i + 1) n

-- The array with its walls.
unfoldable pub walls : Bytes → Bytes
unfolding fill_spaces
walls stack =
    let cleared = fill_spaces stack 0 bufmax in
    let ended = update (update cleared (bufmax - 1) 0) (bufmax - 2) 10 in
    update (update ended (bufmax - 3) b'|') 1 b'|'

-- The inner portion of the world cleared, and the character drawn.
unfoldable pub draw : (j curchar : ℕ) → Bytes → Bytes
unfolding fill_spaces
draw j c buf = update (fill_spaces buf startloop (loopmax - startloop)) j c

-- `curchar` after a round.
unfoldable pub next_curchar : ℕ → ℕ
next_curchar c = if c == b'Z' then b'A' else (c + 1) % 256

module _ (inb n garbage : ℕ) where
  -- The body of both loops: draw, print, and wait for a tick.
  unfoldable pub show_frame : (rtc_fd j c : ℕ) → Bytes → Kernel → Outcome (Bytes × Kernel)
  unfolding draw fdputs
  show_frame rtc_fd j c buf k =
      let drawn = draw j c buf in
      fdputs inb 1 (text drawn bufmax) k >>= λ k1.
      system_read n rtc_fd garbage 4 k1 >>= λ (r, out, k2). done (drawn, k2)

  -- `for(j = STARTLOOP; j < LOOPMAX; j++)` at `j`, with `m` rounds left.
  unfoldable pub move_out : (rtc_fd c j m : ℕ) → Bytes → Kernel → Outcome (Bytes × Kernel)
  unfolding show_frame
  move_out rtc_fd c j zero buf k = done (buf, k)
  move_out rtc_fd c j (suc m) buf k =
      show_frame rtc_fd j c buf k >>= λ (buf', k'). move_out rtc_fd c (j + 1) m buf' k'

  -- `for(j = LOOPMAX - 1; j >= STARTLOOP; j--)` at `j`, with `m` rounds left.
  unfoldable pub bounce_back : (rtc_fd c j m : ℕ) → Bytes → Kernel → Outcome (Bytes × Kernel)
  unfolding show_frame
  bounce_back rtc_fd c j zero buf k = done (buf, k)
  bounce_back rtc_fd c j (suc m) buf k =
      show_frame rtc_fd j c buf k >>= λ (buf', k'). bounce_back rtc_fd c (j - 1) m buf' k'

  unfoldable pub pingpong_rounds :
      (rounds rtc_fd c : ℕ) → Bytes → Kernel → Outcome (ℕ × Bytes × Kernel)
  unfolding move_out bounce_back next_curchar
  pingpong_rounds zero rtc_fd c buf k = done (c, buf, k)
  pingpong_rounds (suc rounds) rtc_fd c buf k =
      move_out rtc_fd c startloop (loopmax - startloop) buf k >>= λ (buf1, k1).
      bounce_back rtc_fd c (loopmax - 1) (loopmax - startloop) buf1 k1 >>= λ (buf2, k2).
      pingpong_rounds rounds rtc_fd (next_curchar c) buf2 k2

  -- What is written to the clock is 32, whether it could be opened or not.
  unfoldable pub pingpong : (rounds : ℕ) → (stack : Bytes) → Kernel → Outcome (ℕ × Bytes × Kernel)
  unfolding walls pingpong_rounds
  pingpong rounds stack k =
      let (rtc_fd, k1) = system_open inb (codes "rtc") k in
      system_write inb rtc_fd (some (as_bytes (32 ∷ 0 ∷ 0 ∷ 0 ∷ []))) 4 k1 >>= λ (r, k2).
      pingpong_rounds rounds rtc_fd b'A' (walls stack) k2
