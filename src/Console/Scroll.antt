-- ===== src/Console/Scroll.antt =====
-- What `scroll` and `scroll_echo` of student-distrib/lib.c do to a page of text. Position `p` is the
-- cell of row `p / 80` and column `p % 80`.
use octave_os.Base.{
  ℕ, zero, suc, ◌+◌, ◌-◌, ◌*◌, ◌<◌, ◌≤◌, ◌≡◌, ◌&&◌, arith, ltb, leb, if◌then◌else◌, word_mod, Bool,
  ◌==◌, ◌∙◌,
}
use octave_os.Str.{Bytes}
use octave_os.Screen.{num_cols, num_rows, poke, cell, attrib, space_ascii, write_cell}
use octave_os.Console.{scroll_row, scroll_rows, blank_row, scroll_mem}

-- The character at a position of the page.
abbrev pub char_at : ℕ → Bytes → ℕ → ℕ
char_at vm mem p = mem (vm + 2 * p)

abbrev between : ℕ → ℕ → ℕ → Bool
between a p b = leb a p && ltb p b

module _ (vm : ℕ) (page : vm + 4096 ≤ word_mod) where
  -- One cell of a row.
  scroll_cell_lem :
      (y x p : ℕ) (mem : Bytes)
      → 0 < y
      → y < num_rows
      → x < num_cols
      → p < 2000
      → char_at vm
          (poke (poke mem (cell vm (y - 1) x) (mem (cell vm y x))) (cell vm y x + 1) attrib)
          p
        ≡ (if num_cols * (y - 1) + x == p then char_at vm mem (p + num_cols) else char_at vm mem p)
  scroll_cell_lem y x p mem lo hi col h = ground arith

  -- A row moves up: its characters, and no others, replace those of the row above.
  scroll_row_lem :
      (y x k p : ℕ) (mem : Bytes)
      → 0 < y
      → y < num_rows
      → x + k ≤ num_cols
      → p < 2000
      → char_at vm (scroll_row vm y x k mem) p ≡ (
          if between (num_cols * (y - 1) + x) p (num_cols * (y - 1) + x + k)
          then char_at vm mem (p + num_cols)
          else char_at vm mem p)
  unfolding scroll_row
  scroll_row_lem y x zero p mem lo hi col h = ground arith
  scroll_row_lem y x (suc k) p mem lo hi col h =
      let mem' = poke (poke mem (cell vm (y - 1) x) (mem (cell vm y x))) (cell vm y x + 1) attrib in
      scroll_row_lem y (x + 1) k p mem' lo hi (omega arith) h
      ∙ ground (arith, scroll_cell_lem y x p mem, scroll_cell_lem y x (p + num_cols) mem)

  scroll_rows_lem :
      (y k p : ℕ) (mem : Bytes)
      → 0 < y
      → y + k ≤ num_rows
      → p < 2000
      → char_at vm (scroll_rows vm y k mem) p ≡ (
          if between (num_cols * (y - 1)) p (num_cols * (y - 1 + k))
          then char_at vm mem (p + num_cols)
          else char_at vm mem p)
  unfolding scroll_rows
  scroll_rows_lem y zero p mem lo hi h = ground arith
  scroll_rows_lem y (suc k) p mem lo hi h =
      scroll_rows_lem (y + 1) k p (scroll_row vm y 0 num_cols mem) (omega arith) (omega arith) h
      ∙ ground
          (arith, scroll_row_lem y 0 num_cols p mem, scroll_row_lem y 0 num_cols (p + num_cols) mem)

  blank_row_lem :
      (y x k p : ℕ) (mem : Bytes)
      → y < num_rows
      → x + k ≤ num_cols
      → p < 2000
      → char_at vm (blank_row vm y x k mem) p ≡ (
          if between (num_cols * y + x) p (num_cols * y + x + k)
          then space_ascii
          else char_at vm mem p)
  unfolding blank_row
  blank_row_lem y x zero p mem hi col h = ground arith
  blank_row_lem y x (suc k) p mem hi col h =
      blank_row_lem y (x + 1) k p (write_cell vm y x space_ascii mem) hi (omega arith) h
      ∙ ground arith

  -- `scroll` moves every row of the page up by one: the character at each position of the first 24
  -- rows is the one that stood a row below, and the last row is spaces.
  pub scroll_mem-char_at :
      (p : ℕ) (mem : Bytes)
      → p < num_rows * num_cols
      → char_at vm (scroll_mem vm mem) p
        ≡ (if ltb p ((num_rows - 1) * num_cols) then char_at vm mem (p + num_cols) else space_ascii)
  unfolding scroll_mem
  scroll_mem-char_at p mem h = ground (
    arith,
    blank_row_lem (num_rows - 1) 0 num_cols p (scroll_rows vm 1 (num_rows - 1) mem),
    scroll_rows_lem 1 (num_rows - 1) p mem,
  )
