-- ===== src/Tests/Consoles.antt =====
-- The console, the terminals and the keyboard, on the kernel of `Data`.
use octave_os.Base.{◌≡◌, refl, inl, [], ◌∷◌, arith, done}
use octave_os.FileSys.{read_range}
use octave_os.Screen.{Screen}
use octave_os.Console.{putc, scroll_mem}
use octave_os.Console.Cursor.{OnScreen, putc-OnScreen}
use octave_os.Console.Footprint.{putc_outside}
use octave_os.Console.Scroll.{char_at, scroll_mem-char_at}
use octave_os.Kernel.{Kernel}
use octave_os.Terminal.{video, term_read, term_switch}
use octave_os.Terminal.Line.{reader, term_read-line}
use octave_os.Terminal.Switch.{HasPages, text_at, text_at-term_switch}
use octave_os.Keyboard.{keyboard_handler, set_flags, action}
use octave_os.Keyboard.Line.{HasLine}
use octave_os.Keyboard.Input.{keyboard_handler-HasLine}
use octave_os.Keyboard.Flags.{HasFlags}
use octave_os.Tests.Data.{kernel, screen, terminal}

-- The key A adds "a" to the line "xx".
keyboard_handler-HasLine_example :
    HasLine (120 ∷ 120 ∷ 97 ∷ []) ((keyboard_handler 0x1e 0 kernel).screen.terminals 0)
unfolding action set_flags read_range
keyboard_handler-HasLine_example = keyboard_handler-HasLine 0x1e 0 kernel (omega arith)

term_read-line_example :
    (k : Kernel) × (term_read 1 kernel ≡ done (1, 120 ∷ [], k))
    × ((reader k).buflen ≡ 0)
    × ((reader k).enter_pressed ≡ 1)
unfolding read_range
term_read-line_example = term_read-line 1 kernel (omega arith) refl (omega arith)

kernel-HasPages : HasPages kernel.screen
kernel-HasPages = record { shown = omega arith; pages = λ t ht. refl }

text_at-term_switch_example : text_at (term_switch 1 kernel).screen 2 7 ≡ text_at kernel.screen 2 7
text_at-term_switch_example =
    text_at-term_switch 1 kernel kernel-HasPages (omega arith) 2 7 (omega arith) (omega arith)

screen-OnScreen : OnScreen (terminal 3 4 0)
screen-OnScreen = record { column = omega arith; row = omega arith }

putc_outside_example :
    ((putc 10 0 (screen 3 4)).mem 5 ≡ 5)
    × (((putc 10 0 (screen 3 4)).terminals 0).video_mem ≡ video)
putc_outside_example =
    putc_outside 10 0 5 (screen 3 4) (omega arith) (inl (omega arith)) screen-OnScreen
      (λ e. inl (omega arith))

-- A screen whose line has run on.
abbrev ran_on : Screen
ran_on = record (screen 0 0) { terminals = λ t. record (terminal 0 0 t) { runon = 1 } }

ran_on-OnScreen : OnScreen (ran_on.terminals 0)
ran_on-OnScreen = record { column = omega arith; row = omega arith }

putc-OnScreen_example : OnScreen ((putc 97 0 ran_on).terminals 0)
putc-OnScreen_example = putc-OnScreen 97 0 ran_on ran_on-OnScreen (λ e. omega arith)

scroll_mem-char_at_example : char_at video (scroll_mem video (λ a. 65)) 1999 ≡ 32
scroll_mem-char_at_example = scroll_mem-char_at video (omega arith) 1999 (λ a. 65) (omega arith)

terminal-HasFlags : HasFlags (terminal 3 4 0)
terminal-HasFlags = record { counted = refl; bound = omega arith; idle = refl }
