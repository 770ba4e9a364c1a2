-- ===== src/Keyboard.antt =====
-- The keyboard of student-distrib/keyboard.c: `init_keyboard` and `keyboard_handler`.
--
-- The scancode that the handler reads from the port is a parameter, and so is `junk`, what the local
-- variable `outchar` holds before it is set: on a command, and on a backspace with nothing to erase,
-- the handler tests that variable without having set it.
pub mod Flags
pub mod Line
pub mod Input
use octave_os.Base.{
  ℕ, ◌+◌, ◌-◌, ◌%◌, ◌^◌, List, [], ◌∷◌, Bool, true, false, not, ◌&&◌, ◌||◌, ltb, leb, ◌==◌,
  if◌then◌else◌, nonzero, get_or, update, add32, rem_signed,
}
use octave_os.Str.{Bytes, codes}
use octave_os.Screen.{Termdata, Screen, put_terminal, update_cursor}
use octave_os.Console.{clear, echo}
use octave_os.Pic.{send_eoi, enable_irq}
use octave_os.Kernel.{Kernel, current_term, outb}
use octave_os.Base.{minus_one}
use octave_os.Terminal.{keybufsize, term_switch}

-- What the handler does on a scancode: an arm of its `if` on the key.
pub data Action : Type 0 where
  clear_screen : Action
  switch_to : ℕ → Action
  plain : ℕ → Action
  backspace : Action
  enter : Action

abbrev pub kb_irq : ℕ
kb_irq = 1

abbrev pub ezero : ℕ
ezero = 0xe0

unfoldable pub init_keyboard : Kernel → Kernel
unfolding enable_irq
init_keyboard k = let (pic, outs) = enable_irq kb_irq k.pic in outb outs (record k { pic = pic })

-- The flags after the tests at the top of the handler. Left and right Ctrl and Alt have the same
-- codes, so the test for a preceding 0xE0 changes nothing but is kept.
unfoldable pub set_flags : (scancode : ℕ) → Termdata → Termdata
set_flags sc td =
    let e_zero = if sc == ezero then 1 else td.e_zero in
    let shift =
      if sc == 0xaa || sc == 0xb6 then 0 else if sc == 0x2a || sc == 0x36 then 1 else td.shift in
    let ctrl =
      if sc == 0x9d || (sc == 0x9d && nonzero e_zero)
      then 0
      else if sc == 0x1d || (sc == 0x1d && nonzero e_zero)
      then 1
      else td.ctrl in
    let alt =
      if (sc == 0xb8 && nonzero e_zero) || sc == 0xb8
      then 0
      else if (sc == 0x38 && nonzero e_zero) || sc == 0x38
      then 1
      else td.alt in
    let caps_lock =
      if sc == 0x3a
      then (if rem_signed td.caps_lock_count 2 == 0 then 1 else 0)
      else td.caps_lock in
    let caps_lock_count = if sc == 0x3a then add32 td.caps_lock_count 1 else td.caps_lock_count in
    let capital =
      if (nonzero shift && not (nonzero caps_lock)) || (not (nonzero shift) && nonzero caps_lock)
      then 1
      else td.capital in
    record td {
      e_zero = e_zero;
      shift = shift;
      ctrl = ctrl;
      alt = alt;
      caps_lock = caps_lock;
      caps_lock_count = caps_lock_count;
      capital = capital;
    }

abbrev pub numbers : List ℕ
numbers = codes "1234567890"

abbrev pub symbols : List ℕ
symbols = codes "!@#$%^&*()"

abbrev pub characters_1 : List ℕ
characters_1 = codes "qwertyuiop"

abbrev pub characters_2 : List ℕ
characters_2 = codes "asdfghjkl"

abbrev pub characters_3 : List ℕ
characters_3 = codes "zxcvbnm"

-- A letter of one of the three rows, `CAPS` less where it is a capital.
abbrev pub letter : Termdata → List ℕ → ℕ → ℕ
letter td row i = if nonzero td.capital then get_or row i 0 - 32 else get_or row i 0

-- A key with two characters, without and with shift.
abbrev pub shifted : Termdata → (without with_shift : ℕ) → ℕ
shifted td without with_shift = if not (nonzero td.shift) then without else with_shift

-- The keys that are neither digits nor letters; 0 for a key without a character.
unfoldable pub punctuation : (scancode : ℕ) → Termdata → Action
punctuation sc td =
    if sc == 0x0c
    then plain (shifted td b'-' b'_')
    else if sc == 0x0d
    then plain (shifted td b'=' b'+')
    else if sc == 0x1a
    then plain (shifted td b'[' b'{')
    else if sc == 0x1b
    then plain (shifted td b']' b'}')
    else if sc == 0x27
    then plain (shifted td b';' b':')
    else if sc == 0x28
    then plain (shifted td 39 34)
    else if sc == 0x29
    then plain (shifted td 96 b'~')
    else if sc == 0x2b
    then plain (shifted td 92 b'|')
    else if sc == 0x33
    then plain (shifted td 44 b'<')
    else if sc == 0x34
    then plain (shifted td b'.' b'>')
    else if sc == 0x35
    then plain (shifted td b'/' b'?')
    else if sc == 0x0e
    then backspace
    else if sc == 0x0f
    then plain 9
    else if sc == 0x39
    then plain 32
    else if sc == 0x1c
    then enter
    else plain 0

abbrev pub in_keys : (first last scancode : ℕ) → Bool
in_keys first last sc = leb first sc && leb sc last

-- The arm that is taken, with the flags set.
unfoldable pub action : (scancode : ℕ) → Termdata → Action
unfolding punctuation
action sc td =
    if sc == 0x26 && nonzero td.ctrl
    then clear_screen
    else if sc == 0x3b && td.alt == 1
    then switch_to 0
    else if sc == 0x3c && td.alt == 1
    then switch_to 1
    else if sc == 0x3d && td.alt == 1
    then switch_to 2
    else if in_keys 0x02 0x0b sc
    then plain (get_or (if nonzero td.shift then symbols else numbers) (sc - 0x02) 0)
    else if in_keys 0x10 0x19 sc
    then plain (letter td characters_1 (sc - 0x10))
    else if in_keys 0x1e 0x26 sc
    then plain (letter td characters_2 (sc - 0x1e))
    else if in_keys 0x2c 0x32 sc
    then plain (letter td characters_3 (sc - 0x2c))
    else punctuation sc td

-- `terminals[t]` changed by a function.
abbrev pub change_terminal : ℕ → (Termdata → Termdata) → Kernel → Kernel
change_terminal t f k = record k { screen = put_terminal t (f (k.screen.terminals t)) k.screen }

abbrev pub echo_char : ℕ → Kernel → Kernel
echo_char c k = record k { screen = echo c k.screen }

-- `clear` picks the terminal of the running process, or the first one before there is a process.
abbrev pub clear_term : Kernel → ℕ
clear_term k = if k.curr_pid == minus_one then 0 else current_term k

-- The effect of an arm on the terminal `t`, and the value of `outchar` after it.
unfoldable pub perform : (junk t : ℕ) → Action → Kernel → ℕ × Kernel
perform junk t clear_screen k =
    (junk, record k { screen = update_cursor (clear (clear_term k) k.screen) })
perform junk t (switch_to n) k = (junk, term_switch n k)
perform junk t (plain c) k = (c, k)
perform junk t enter k = (10, change_terminal t (λ td. record td { enter_pressed = 0 }) k)
perform junk t backspace k =
    let shorter = λ (td : Termdata). record td { buflen = td.buflen - 1 } in
    if leb 1 (k.screen.terminals t).buflen
    then (8, echo_char 8 (change_terminal t shorter k))
    else (junk, k)

-- The character goes into the line; in a full line the last place is marked instead.
unfoldable pub add_char : ℕ → Termdata → Termdata
add_char c td =
    if ltb td.buflen keybufsize
    then record td { keybuf = update td.keybuf td.buflen c; buflen = td.buflen + 1 }
    else record td { keybuf = update td.keybuf (keybufsize - 1) 27 }

-- `outchar && outchar != '\b' && outchar != '\e'`
abbrev pub is_typed : ℕ → Bool
is_typed c = nonzero c && not (c == 8) && not (c == 27)

unfoldable pub type_char : (t c : ℕ) → Kernel → Kernel
unfolding add_char
type_char t c k = if is_typed c then change_terminal t (add_char c) (echo_char c k) else k

-- The end of the handler: the flag for capitals and that for 0xE0 are reset.
unfoldable pub reset_flags : (scancode : ℕ) → Termdata → Termdata
reset_flags sc td = record td { capital = 0; e_zero = if sc == ezero then td.e_zero else 0 }

unfoldable pub keyboard_handler : (scancode junk : ℕ) → Kernel → Kernel
unfolding set_flags action perform type_char reset_flags
keyboard_handler sc junk k =
    let t = k.screen.curr_term in
    let k1 = change_terminal t (set_flags sc) k in
    let (outchar, k2) = perform junk t (action sc (k1.screen.terminals t)) k1 in
    outb (send_eoi kb_irq) (change_terminal t (reset_flags sc) (type_char t outchar k2))
