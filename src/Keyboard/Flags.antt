-- ===== src/Keyboard/Flags.antt =====
-- The shift and caps-lock flags of `keyboard_handler` in student-distrib/keyboard.c.
use octave_os.Base.{
  ℕ, ◌+◌, ◌-◌, ◌%◌, ◌^◌, ◌<◌, ◌≡◌, refl, List, Bool, not, ◌&&◌, ◌||◌, arith, ◌==◌, if◌then◌else◌,
  nonzero, get_or,
}
use octave_os.Screen.{Termdata}
use octave_os.Keyboard.{set_flags, reset_flags, letter}

-- Caps lock is on after an odd number of presses, and no character is being made a capital.
pub record HasFlags (td : Termdata) : Type 0 where
  pub counted : td.caps_lock ≡ td.caps_lock_count % 2
  pub bound : td.caps_lock_count < 2 ^ 31
  pub idle : td.capital ≡ 0

-- Exactly one of shift and caps lock is on.
abbrev pub one_of : Termdata → Bool
one_of td =
    (nonzero td.shift && not (nonzero td.caps_lock))
    || (not (nonzero td.shift) && nonzero td.caps_lock)

module _ (sc : ℕ) (td : Termdata) (h : HasFlags td) where
  -- Between two keys, a letter typed after the flags are set is a capital exactly if one of shift and
  -- caps lock is on and the other is not.
  pub letter-set_flags :
      (row : List ℕ) (i : ℕ)
      → letter (set_flags sc td) row i
        ≡ (if one_of (set_flags sc td) then get_or row i 0 - 32 else get_or row i 0)
  unfolding set_flags
  letter-set_flags row i = ground (arith, h.idle)

  -- The flags of a terminal keep their meaning from key to key, until caps lock has been pressed 2 ^ 31
  -- - 1 times: caps lock is on after an odd number of presses, no character is being made a capital,
  -- and the number of presses goes up by one with a caps-lock key only.
  pub reset_flags-HasFlags :
      td.caps_lock_count + 1 < 2 ^ 31
      → HasFlags (reset_flags sc (set_flags sc td))
        × ((reset_flags sc (set_flags sc td)).caps_lock_count
            ≡ (if sc == 0x3a then td.caps_lock_count + 1 else td.caps_lock_count))
  unfolding set_flags reset_flags
  reset_flags-HasFlags hc = (
    record { counted = ground (arith, h.counted); bound = ground arith; idle = refl },
    ground arith,
  )
