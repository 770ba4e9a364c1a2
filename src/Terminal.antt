-- ===== src/Terminal.antt =====
-- The terminal driver of student-distrib/terminal.c.
--
-- A buffer to write out is `none` for a null pointer and otherwise the byte at each distance; what
-- `term_read` copies is returned as a list.
pub mod Switch
pub mod Line
use octave_os.Base.{
  ℕ, zero, suc, ◌+◌, ◌-◌, ◌*◌, ◌/◌, ◌%◌, ◌^◌, List, [], ◌∷◌, Option, none, some, Bool, ltb, ◌==◌,
  if◌then◌else◌, nonzero, ltb_signed, update, Outcome, done, fault, waits, out_of_bounds,
}
use octave_os.Str.{Bytes}
use octave_os.FileSys.{read_range, rounds}
use octave_os.Screen.{Termdata, Screen, put_terminal, update_cursor}
use octave_os.Memory.{memset, memcpy}
use octave_os.Kernel.{PageEntry, Kernel, current_term, put_char}

abbrev pub keybufsize : ℕ
keybufsize = 128

abbrev pub max_term : ℕ
max_term = 3

abbrev pub video : ℕ
video = 0xb8000

abbrev pub fourkb : ℕ
fourkb = 0x1000

abbrev pub user_vmem_syscall : ℕ
user_vmem_syscall = 0x8400000

-- `(virtual_addr >> RIGHT_SHIFT) & VMEM_MASK`
abbrev pub vmem_pte : ℕ
vmem_pte = user_vmem_syscall / 2 ^ 12 % 1024

-- The page of video memory that user programs see is made to be the one at `phys_addr`.
abbrev pub map_vmem : (phys_addr : ℕ) → Kernel → Kernel
map_vmem phys_addr k =
    let e = record (k.page_table_1 vmem_pte) { p = 1; address_20 = phys_addr / 2 ^ 12 } in
    record k { page_table_1 = update k.page_table_1 vmem_pte e }

-- A terminal as `term_init` sets it up; its keys and its process are left as they are.
abbrev pub fresh_terminal : ℕ → Termdata → Termdata
fresh_terminal i td = record td {
  buflen = 0;
  enter_pressed = 1;
  shift = 0;
  caps_lock = 0;
  caps_lock_count = 0;
  capital = 0;
  ctrl = 0;
  alt = 0;
  e_zero = 0;
  screen_x = 0;
  screen_y = 0;
  video_mem = video + (i + 1) * fourkb;
  runon = 0;
}

-- The loop of `term_init` at `i`, with `n` rounds left.
unfoldable pub init_terminals : ℕ → ℕ → Screen → Screen
init_terminals i zero s = s
init_terminals i (suc n) s =
    init_terminals (i + 1) n (update_cursor (put_terminal i (fresh_terminal i (s.terminals i)) s))

unfoldable pub term_init : Screen → Screen
unfolding init_terminals
term_init s =
    let s' = init_terminals 0 max_term s in
    put_terminal 0 (record (s'.terminals 0) { video_mem = video }) s'

unfoldable pub term_open : Kernel → ℕ × Kernel
term_open k = (0, k)

unfoldable pub term_close : Kernel → ℕ × Kernel
term_close k = (0, k)

-- How much `term_read` copies. `nbytes` is compared as an `int`, `buflen` as an `unsigned int`.
unfoldable pub to_copy : (nbytes buflen : ℕ) → ℕ
to_copy nbytes buflen =
    let cap = if ltb_signed nbytes keybufsize then nbytes else keybufsize in
    if ltb buflen cap then buflen else cap

-- `memset(keybuf, 0, KEYBUFSIZE)`
abbrev pub clear_keys : Bytes → Bytes
clear_keys keys j = if ltb j keybufsize then 0 else keys j

-- The end of `term_read`: the line is emptied, and the enter key is waited for again.
abbrev pub line_taken : Kernel → Kernel
line_taken k =
    let t = current_term k in
    let td = k.screen.terminals t in
    let td' = record td { enter_pressed = 1; keybuf = clear_keys td.keybuf; buflen = 0 } in
    record k { screen = put_terminal t td' k.screen }

-- The wait for the enter key does not end within the call: only the keyboard's handler ends it.
unfoldable pub term_read : (nbytes : ℕ) → Kernel → Outcome (ℕ × List ℕ × Kernel)
unfolding to_copy
term_read nbytes k =
    let td = k.screen.terminals (current_term k) in
    let n = to_copy nbytes td.buflen in
    if nonzero td.enter_pressed
    then fault waits
    else done (n, read_range td.keybuf 0 (rounds n), line_taken k)

-- `for (i = 0; i < nbytes; i++)` at `i`, with `n` rounds left: every byte but 0 is printed.
unfoldable pub write_chars : Bytes → ℕ → ℕ → Kernel → Kernel
write_chars buf i zero k = k
write_chars buf i (suc n) k =
    write_chars buf (i + 1) n (if nonzero (buf i) then put_char (buf i) k else k)

unfoldable pub term_write : Option Bytes → (nbytes : ℕ) → Kernel → Outcome (ℕ × Kernel)
unfolding write_chars
term_write none nbytes k = if rounds nbytes == 0 then done (nbytes, k) else fault out_of_bounds
term_write (some buf) nbytes k = done (nbytes, write_chars buf 0 (rounds nbytes) k)

-- The two copies of `term_switch`: the screen goes to the page of the terminal that is left, and the
-- page of the one that is shown goes to the screen.
unfoldable pub switch_pages : (curr_term new_term : ℕ) → Bytes → Bytes
switch_pages old new mem =
    let saved = video + fourkb * (old + 1) in
    let mem1 = memcpy saved video fourkb (memset saved 0 fourkb mem) in
    memcpy video (video + fourkb * (new + 1)) fourkb (memset video 0 fourkb mem1)

-- The part of `term_switch` on the terminals and the memory.
unfoldable pub switch_screen : (new_term : ℕ) → Screen → Screen
switch_screen new s =
    let old = s.curr_term in
    let s1 =
      put_terminal old (record (s.terminals old) { video_mem = video + fourkb * (old + 1) }) s in
    let s2 = put_terminal new (record (s1.terminals new) { video_mem = video }) s1 in
    record s2 { mem = switch_pages old new s.mem }

unfoldable pub term_switch : (new_term : ℕ) → Kernel → Kernel
term_switch new k =
    let k1 = record k { screen = switch_screen new k.screen } in
    let k2 = map_vmem (k1.screen.terminals (current_term k1)).video_mem k1 in
    if k.screen.curr_term == new
    then k
    else record k2 { screen = update_cursor (record k2.screen { curr_term = new }) }
