-- ===== src/Console.antt =====
-- The console of student-distrib/lib.c: `clear`, `putc`, `echo`, `scroll`, `scroll_echo`, `puts`.
--
-- Each works on the terminal whose index `t` is given: `pid_to_term[curr_pid]` for `putc`, `scroll`
-- and `puts`, and `curr_term` for `echo` and `scroll_echo`, whose bodies are otherwise those of
-- `putc` and `scroll`, but for the last test. A character is a byte.
pub mod Scroll
pub mod Cursor
pub mod Footprint
pub mod Keys
pub mod Pages
use octave_os.Base.{
  ℕ, zero, suc, ◌+◌, ◌-◌, ◌*◌, ◌/◌, ◌%◌, ◌^◌, List, [], ◌∷◌, Bool, ◌&&◌, ◌||◌, ltb, leb, ◌==◌,
  if◌then◌else◌, add32, sub32, leb_signed, div_signed, rem_signed, update, word_mod,
}
use octave_os.Str.{Bytes}
use octave_os.Screen.{
  Termdata, Screen, num_cols, num_rows, attrib, space_ascii, put_terminal, poke, cell, write_cell,
  update_cursor,
}

-- `for (x = 0; x < NUM_COLS; x++)` over a row, with `k` rounds left: each character moves up a row.
unfoldable pub scroll_row : ℕ → ℕ → ℕ → ℕ → Bytes → Bytes
scroll_row vm y x zero mem = mem
scroll_row vm y x (suc k) mem =
    let store = mem (cell vm y x) in
    let moved = poke mem (cell vm (y - 1) x) store in
    scroll_row vm y (x + 1) k (poke moved (cell vm y x + 1) attrib)

-- `for (y = 1; y < NUM_ROWS; y++)`
unfoldable pub scroll_rows : ℕ → ℕ → ℕ → Bytes → Bytes
scroll_rows vm y zero mem = mem
scroll_rows vm y (suc k) mem = scroll_rows vm (y + 1) k (scroll_row vm y 0 num_cols mem)

-- The last loop: a row of spaces.
unfoldable pub blank_row : ℕ → ℕ → ℕ → ℕ → Bytes → Bytes
blank_row vm y x zero mem = mem
blank_row vm y x (suc k) mem = blank_row vm y (x + 1) k (write_cell vm y x space_ascii mem)

unfoldable pub scroll_mem : ℕ → Bytes → Bytes
scroll_mem vm mem = blank_row vm (num_rows - 1) 0 num_cols (scroll_rows vm 1 (num_rows - 1) mem)

-- `scroll` and `scroll_echo`.
unfoldable pub scroll : ℕ → Screen → Screen
unfolding update_cursor
scroll t s =
    let td = s.terminals t in
    update_cursor (
      put_terminal t (record td { screen_y = num_rows - 1; screen_x = 0 })
        (record s { mem = scroll_mem td.video_mem s.mem }))

-- `for (i = 0; i < NUM_ROWS * NUM_COLS; i++)` of `clear`, with `k` rounds left.
unfoldable pub clear_cells : ℕ → ℕ → ℕ → Bytes → Bytes
clear_cells vm i zero mem = mem
clear_cells vm i (suc k) mem =
    clear_cells vm (i + 1) k (poke (poke mem (vm + 2 * i) space_ascii) (vm + 2 * i + 1) attrib)

-- `clear`; `t` is `pid_to_term[curr_pid]`, or 0 before the first process.
unfoldable pub clear : ℕ → Screen → Screen
unfolding clear_cells
clear t s =
    let td = s.terminals t in
    put_terminal t (record td { screen_x = 0; screen_y = 0 })
      (record s { mem = clear_cells td.video_mem 0 (num_rows * num_cols) s.mem })

-- A line feed or a carriage return.
unfoldable pub put_newline : ℕ → Screen → Screen
unfolding scroll
put_newline t s =
    let td = s.terminals t in
    let s' =
      if leb_signed (num_rows - 1) td.screen_y
      then scroll t s
      else put_terminal t (record td { screen_y = add32 td.screen_y 1 }) s in
    update_cursor (put_terminal t (record (s'.terminals t) { screen_x = 0 }) s')

-- A backspace: the cursor moves left, or up to column 78 if the line ran on, and the cell is cleared.
abbrev pub step_back : Termdata → Termdata
step_back td =
    if leb_signed 1 td.screen_x
    then record td { screen_x = sub32 td.screen_x 1 }
    else if td.runon == 1
    then record td { screen_x = num_cols - 2; screen_y = sub32 td.screen_y 1 }
    else td

unfoldable pub put_backspace : ℕ → Screen → Screen
unfolding update_cursor
put_backspace t s =
    let td = step_back (s.terminals t) in
    update_cursor (
      put_terminal t td
        (record s { mem = write_cell td.video_mem td.screen_y td.screen_x space_ascii s.mem }))

-- A tab: the cursor moves right by 4, and the loop writes the cell there, four times.
unfoldable pub put_tab : ℕ → Screen → Screen
unfolding update_cursor
put_tab t s =
    let td = record (s.terminals t) { screen_x = add32 (s.terminals t).screen_x 4 } in
    let write = write_cell td.video_mem td.screen_y td.screen_x space_ascii in
    update_cursor (put_terminal t td (record s { mem = write (write (write (write s.mem))) }))

-- An escape character, which ends a line that ran on.
unfoldable pub put_escape : ℕ → Screen → Screen
unfolding scroll
put_escape t s =
    let td = record (s.terminals t) { runon = 0 } in
    if leb_signed (num_rows - 1) td.screen_y
    then scroll t (put_terminal t td s)
    else update_cursor
        (put_terminal t (record td { screen_x = 0; screen_y = add32 td.screen_y 1 }) s)

-- Any other character. `screen_x` is reduced before the quotient by it is taken.
unfoldable pub put_plain : ℕ → ℕ → Screen → Screen
unfolding update_cursor
put_plain c t s =
    let td = s.terminals t in
    let x = rem_signed (add32 td.screen_x 1) num_cols in
    let y = rem_signed (add32 td.screen_y (div_signed x num_cols)) num_rows in
    update_cursor (
      put_terminal t (record td { screen_x = x; screen_y = y })
        (record s { mem = write_cell td.video_mem td.screen_y td.screen_x c s.mem }))

-- The arms of the `if` on the character.
unfoldable pub put_body : ℕ → ℕ → Screen → Screen
unfolding put_newline put_backspace put_tab put_escape put_plain
put_body c t s =
    if c == 10 || c == 13
    then put_newline t s
    else if c == 8
    then put_backspace t s
    else if c == 9
    then put_tab t s
    else if c == 27
    then put_escape t s
    else put_plain c t s

-- `vertical scrolling`: at the end of the last line.
unfoldable pub put_scroll : ℕ → Screen → Screen
unfolding scroll
put_scroll t s =
    let td = s.terminals t in
    if leb_signed (num_cols - 1) td.screen_x && leb_signed (num_rows - 1) td.screen_y
    then scroll t s
    else s

-- `runon line`: the cursor goes to the next line if the test on its column says so.
unfoldable pub put_runon : (ℕ → Bool) → ℕ → Screen → Screen
unfolding update_cursor
put_runon at_end t s =
    let td = s.terminals t in
    if at_end td.screen_x
    then update_cursor
        (put_terminal t (record td { runon = 1; screen_y = add32 td.screen_y 1; screen_x = 0 }) s)
    else s

unfoldable pub putc : ℕ → ℕ → Screen → Screen
unfolding put_body put_scroll put_runon
putc c t s = put_runon (λ x. leb_signed (num_cols - 1) x) t (put_scroll t (put_body c t s))

unfoldable pub echo : ℕ → Screen → Screen
unfolding put_body put_scroll put_runon
echo c s =
    let t = s.curr_term in put_runon (λ x. x == num_cols - 1) t (put_scroll t (put_body c t s))

-- `puts`, on the bytes before the NUL.
unfoldable pub puts : List ℕ → ℕ → Screen → Screen
unfolding putc
puts [] t s = s
puts (c ∷ cs) t s = puts cs t (putc c t s)
