-- ===== src/Console/Cursor.antt =====
-- Where `putc` and `echo` of student-distrib/lib.c leave the cursor.
use mathlib.Core.Path.{subst}
use octave_os.Base.{
  ℕ, ◌+◌, ◌-◌, ◌<◌, ◌≤◌, ◌≡◌, ◌≢◌, ◌⊎◌, arith, minus_one, leb_signed, ◌==◌, ◌^◌, if◌then◌else◌, ap,
  ◌∙◌, Bool-cases, ==_iff, inl, inr,
}
use octave_os.Screen.{Termdata, Screen, num_cols, num_rows, update_cursor}
use octave_os.Console.{
  put_newline, put_backspace, put_tab, put_escape, put_plain, put_body, put_scroll, put_runon, putc,
  echo, step_back,
}

-- The cursor is on the screen, left of the last column.
pub record OnScreen (td : Termdata) : Type 0 where
  pub column : td.screen_x < num_cols - 1
  pub row : td.screen_y < num_rows

-- What a character may leave before the tests that follow it: a column below `w`.
pub record NearScreen (w : ℕ) (td : Termdata) : Type 0 where
  pub column : td.screen_x < w
  pub row : td.screen_y < num_rows

-- A backspace has somewhere to go: to the left, or up a line, or the line did not run on.
abbrev pub CanBack : Termdata → Type 0
CanBack td = (1 ≤ td.screen_x) ⊎ (1 ≤ td.screen_y) ⊎ (td.runon ≢ 1)

module _ (t : ℕ) (s : Screen) (h : OnScreen (s.terminals t)) where
  put_newline-NearScreen : NearScreen num_cols ((put_newline t s).terminals t)
  unfolding put_newline
  put_newline-NearScreen = ground arith

  put_backspace-NearScreen :
      CanBack (s.terminals t) → NearScreen num_cols ((put_backspace t s).terminals t)
  unfolding put_backspace
  put_backspace-NearScreen b = ground arith

  put_tab-NearScreen : NearScreen (num_cols + 3) ((put_tab t s).terminals t)
  unfolding put_tab
  put_tab-NearScreen = ground arith

  put_escape-NearScreen : NearScreen num_cols ((put_escape t s).terminals t)
  unfolding put_escape
  put_escape-NearScreen = ground arith

  put_plain-NearScreen : (c : ℕ) → NearScreen num_cols ((put_plain c t s).terminals t)
  unfolding put_plain
  put_plain-NearScreen c = ground arith

  pub put_body-NearScreen :
      (c : ℕ)
      → (c ≡ 8 → CanBack (s.terminals t))
      → NearScreen (if c == 9 then num_cols + 3 else num_cols) ((put_body c t s).terminals t)
  unfolding put_body
  put_body-NearScreen c b = elim (Bool-cases (c == 8)) [
    | inl back ↦ ground (arith, put_backspace-NearScreen (b ((==_iff c 8).0 back)))
    | inr other ↦ ground (
      arith,
      put_newline-NearScreen,
      put_tab-NearScreen,
      put_escape-NearScreen,
      put_plain-NearScreen c,
    )
  ]

-- After the test for the end of the last line the cursor may still be past the last column, but not
-- on the last line.
record NearEnd (w : ℕ) (td : Termdata) : Type 0 where
  column : td.screen_x < w
  row : td.screen_y < num_rows
  not_last : (td.screen_x < num_cols - 1) ⊎ (td.screen_y < num_rows - 1)

put_scroll-NearEnd :
    (w t : ℕ) (s : Screen)
    → num_cols ≤ w
    → w < 90
    → NearScreen w (s.terminals t)
    → NearEnd w ((put_scroll t s).terminals t)
unfolding put_scroll
put_scroll-NearEnd w t s lo hi h = ground arith

put_runon_ge-OnScreen :
    (w t : ℕ) (s : Screen)
    → w < 90
    → NearEnd w (s.terminals t)
    → OnScreen ((put_runon (λ x. leb_signed (num_cols - 1) x) t s).terminals t)
unfolding put_runon
put_runon_ge-OnScreen w t s hi h = ground arith

put_runon_eq-OnScreen :
    (t : ℕ) (s : Screen)
    → NearEnd num_cols (s.terminals t)
    → OnScreen ((put_runon (λ x. x == num_cols - 1) t s).terminals t)
unfolding put_runon
put_runon_eq-OnScreen t s h = ground arith

-- `putc` keeps the cursor on the screen and left of the last column, whatever the character; only a
-- backspace must not stand at the start of the top line with a line that ran on.
pub putc-OnScreen :
    (c t : ℕ) (s : Screen)
    → OnScreen (s.terminals t)
    → (c ≡ 8 → CanBack (s.terminals t))
    → OnScreen ((putc c t s).terminals t)
unfolding putc
putc-OnScreen c t s h b =
    let w = if c == 9 then num_cols + 3 else num_cols in
    let near =
      put_scroll-NearEnd w t (put_body c t s) (ground arith) (ground arith)
        (put_body-NearScreen t s h c b) in
    put_runon_ge-OnScreen w t (put_scroll t (put_body c t s)) (ground arith) near

-- `echo` does too, on the terminal that is shown, for any character but a tab.
pub echo-OnScreen :
    (c : ℕ) (s : Screen)
    → c ≢ 9
    → OnScreen (s.terminals s.curr_term)
    → (c ≡ 8 → CanBack (s.terminals s.curr_term))
    → OnScreen ((echo c s).terminals s.curr_term)
unfolding echo
echo-OnScreen c s ne h b =
    let t = s.curr_term in
    let plain : (if c == 9 then num_cols + 3 else num_cols) ≡ num_cols = ground arith in
    put_runon_eq-OnScreen t (put_scroll t (put_body c t s)) (
      put_scroll-NearEnd num_cols t (put_body c t s) (omega arith) (omega arith) (
        subst (λ w. NearScreen w ((put_body c t s).terminals t)) plain
          (put_body-NearScreen t s h c b)))

-- After a tab in one of the three columns before the last the test of `echo` for the last column
-- fails, so on any line but the last `screen_x` is left past the end of the line.
pub echo-tab_past_end :
    (s : Screen)
    → OnScreen (s.terminals s.curr_term)
    → num_cols - 4 ≤ (s.terminals s.curr_term).screen_x
    → (s.terminals s.curr_term).screen_y < num_rows - 1
    → ((echo 9 s).terminals s.curr_term).screen_x ≡ (s.terminals s.curr_term).screen_x + 4
unfolding echo put_body put_tab put_scroll put_runon
echo-tab_past_end s h x y = ground arith

-- Left of the last column the tests at the end of `putc` do nothing.
put_scroll_idle :
    (t : ℕ) (s : Screen) → (s.terminals t).screen_x < num_cols - 1 → put_scroll t s ≡ s
unfolding put_scroll
put_scroll_idle t s h = ground arith

put_runon_idle :
    (t : ℕ) (s : Screen)
    → (s.terminals t).screen_x < num_cols - 1
    → put_runon (λ x. leb_signed (num_cols - 1) x) t s ≡ s
unfolding put_runon
put_runon_idle t s h = ground arith

pub putc-eq-put_body :
    (c t : ℕ) (s : Screen)
    → ((put_body c t s).terminals t).screen_x < num_cols - 1
    → putc c t s ≡ put_body c t s
unfolding putc
putc-eq-put_body c t s h =
    ap (put_runon (λ x. leb_signed (num_cols - 1) x) t) (put_scroll_idle t (put_body c t s) h)
    ∙ put_runon_idle t (put_body c t s) h

module _ (t : ℕ) (s : Screen) (x : (s.terminals t).screen_x ≡ 0) (y : (s.terminals t).screen_y ≡ 0)
    (r : (s.terminals t).runon ≡ 1) where
  step_back_top :
      step_back (s.terminals t)
      ≡ record (s.terminals t) { screen_x = num_cols - 2; screen_y = minus_one }
  step_back_top = ground arith

  backspace_top :
      4 ≤ (s.terminals t).video_mem
      → (s.terminals t).video_mem < 2 ^ 32
      → (((put_body 8 t s).terminals t).screen_x ≡ num_cols - 2)
        × (((put_body 8 t s).terminals t).screen_y ≡ minus_one)
        × ((put_body 8 t s).mem ((s.terminals t).video_mem - 4) ≡ 32)
  unfolding put_body put_backspace update_cursor
  backspace_top lo hi =
      (ground (arith, step_back_top), ground (arith, step_back_top), ground (arith, step_back_top))

  -- A backspace at the start of the top line, when a line has run on since the last line was ended,
  -- moves the cursor to line -1, and writes a space into the memory in front of the terminal's.
  pub putc-backspace_top :
      4 ≤ (s.terminals t).video_mem
      → (s.terminals t).video_mem < 2 ^ 32
      → (((putc 8 t s).terminals t).screen_y ≡ minus_one)
        × ((putc 8 t s).mem ((s.terminals t).video_mem - 4) ≡ 32)
  putc-backspace_top lo hi =
      let b = backspace_top lo hi in
      let e : putc 8 t s ≡ put_body 8 t s = putc-eq-put_body 8 t s (omega (arith, b.0)) in
      (
        ap (λ r. (r.terminals t).screen_y) e ∙ b.1,
        ap (λ r. r.mem ((s.terminals t).video_mem - 4)) e ∙ b.2,
      )
