-- ===== src/Screen.antt =====
-- The terminals' data (`termdata_t` of student-distrib/terminal.h), the memory that holds their
-- pages of text, and the ports: what student-distrib/lib.c's console code works on.
--
-- `terminals` is a function of the index, the memory one of the physical address, and `ports` lists
-- each `outb` as value and port, the oldest first.
use octave_os.Base.{ℕ, ◌+◌, ◌*◌, ◌/◌, ◌%◌, ◌^◌, List, [], ◌∷◌, ◌++◌, word_mod, update}
use octave_os.Str.{Bytes}

pub record Termdata : Type 0 where
  pub keybuf : Bytes
  pub buflen : ℕ
  pub enter_pressed : ℕ
  pub shift : ℕ
  pub caps_lock : ℕ
  pub caps_lock_count : ℕ
  pub capital : ℕ
  pub ctrl : ℕ
  pub alt : ℕ
  pub e_zero : ℕ
  pub screen_x : ℕ
  pub screen_y : ℕ
  pub video_mem : ℕ
  pub runon : ℕ
  pub top_pid : ℕ

pub record Screen : Type 0 where
  pub curr_term : ℕ
  pub terminals : ℕ → Termdata
  pub mem : Bytes
  pub ports : List (ℕ × ℕ)

abbrev pub num_cols : ℕ
num_cols = 80

abbrev pub num_rows : ℕ
num_rows = 25

abbrev pub attrib : ℕ
attrib = 7

abbrev pub space_ascii : ℕ
space_ascii = 32

-- `terminals[t]` replaced.
abbrev pub put_terminal : ℕ → Termdata → Screen → Screen
put_terminal t d s = record s { terminals = update s.terminals t d }

abbrev pub poke : Bytes → ℕ → ℕ → Bytes
poke mem a v = update mem (a % word_mod) v

-- `video_mem + ((NUM_COLS * y + x) << 1)`, the byte that holds the character of a cell.
abbrev pub cell : ℕ → ℕ → ℕ → ℕ
cell vm y x = (vm + 2 * (num_cols * y + x)) % word_mod

-- The character and then the attribute of a cell.
abbrev pub write_cell : ℕ → ℕ → ℕ → ℕ → Bytes → Bytes
write_cell vm y x c mem = poke (poke mem (cell vm y x) c) (cell vm y x + 1) attrib

-- `update_cursor`: the position of the terminal that is shown, low byte then high byte.
abbrev pub cursor_outs : ℕ → List (ℕ × ℕ)
cursor_outs pos = (0x0f, 0x3d4) ∷ (pos % 256, 0x3d5) ∷ (0x0e, 0x3d4) ∷ (pos / 256 % 256, 0x3d5) ∷ []

unfoldable pub update_cursor : Screen → Screen
update_cursor s =
    let td = s.terminals s.curr_term in
    record s { ports = s.ports ++ cursor_outs ((td.screen_y * num_cols + td.screen_x) % 2 ^ 16) }
