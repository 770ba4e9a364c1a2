-- ===== src/Console/Footprint.antt =====
-- Which memory `putc` of student-distrib/lib.c can change: the page of the terminal.
use mathlib.Core.Path.{subst}
use octave_os.Base.{
  ℕ, zero, suc, ◌+◌, ◌-◌, ◌<◌, ◌≤◌, ◌≡◌, ◌⊎◌, ◌∙◌, ap, refl, arith, word_mod, add32, update_self,
  Bool, leb_signed, sym, Bool-cases, ==_iff, inl, inr, ◌==◌,
}
use octave_os.Str.{Bytes}
use octave_os.Screen.{
  Termdata, Screen, num_cols, num_rows, poke, cell, attrib, space_ascii, write_cell,
}
use octave_os.Console.{
  scroll_row, scroll_rows, blank_row, scroll_mem, scroll, put_newline, put_backspace, put_tab,
  put_escape, put_plain, put_body, put_scroll, put_runon, putc, step_back,
}
use octave_os.Console.Cursor.{OnScreen, CanBack}

-- An address outside the page of 4096 bytes at `vm`.
abbrev pub IsOutside : ℕ → ℕ → Type 0
IsOutside vm a = (a < vm) ⊎ (vm + 4096 ≤ a)

module _ (vm a : ℕ) (page : vm + 4096 ≤ word_mod) (out : IsOutside vm a) where
  write_cell_outside :
      (y x c : ℕ) (mem : Bytes)
      → y < num_rows
      → x < num_cols + 3
      → write_cell vm y x c mem a ≡ mem a
  write_cell_outside y x c mem row col = ground arith

  scroll_cell_outside :
      (y x v : ℕ) (mem : Bytes)
      → y < num_rows
      → x < num_cols
      → poke (poke mem (cell vm (y - 1) x) v) (cell vm y x + 1) attrib a ≡ mem a
  scroll_cell_outside y x v mem row col = ground arith

  scroll_row_outside :
      (y x k : ℕ) (mem : Bytes)
      → y < num_rows
      → x + k ≤ num_cols
      → scroll_row vm y x k mem a ≡ mem a
  unfolding scroll_row
  scroll_row_outside y x zero mem row col = refl
  scroll_row_outside y x (suc k) mem row col =
      let mem' = poke (poke mem (cell vm (y - 1) x) (mem (cell vm y x))) (cell vm y x + 1) attrib in
      scroll_row_outside y (x + 1) k mem' row (omega arith)
      ∙ scroll_cell_outside y x (mem (cell vm y x)) mem row (omega arith)

  scroll_rows_outside :
      (y k : ℕ) (mem : Bytes) → y + k ≤ num_rows → scroll_rows vm y k mem a ≡ mem a
  unfolding scroll_rows
  scroll_rows_outside y zero mem row = refl
  scroll_rows_outside y (suc k) mem row =
      scroll_rows_outside (y + 1) k (scroll_row vm y 0 num_cols mem) (omega arith)
      ∙ scroll_row_outside y 0 num_cols mem (omega arith) (omega arith)

  blank_row_outside :
      (y x k : ℕ) (mem : Bytes) → y < num_rows → x + k ≤ num_cols → blank_row vm y x k mem a ≡ mem a
  unfolding blank_row
  blank_row_outside y x zero mem row col = refl
  blank_row_outside y x (suc k) mem row col =
      blank_row_outside y (x + 1) k (write_cell vm y x space_ascii mem) row (omega arith)
      ∙ write_cell_outside y x space_ascii mem row (omega arith)

  scroll_mem_outside : (mem : Bytes) → scroll_mem vm mem a ≡ mem a
  unfolding scroll_mem
  scroll_mem_outside mem =
      blank_row_outside (num_rows - 1) 0 num_cols (scroll_rows vm 1 (num_rows - 1) mem)
        (omega arith) (omega arith)
      ∙ scroll_rows_outside 1 (num_rows - 1) mem (omega arith)

-- The step of a character keeps the terminal's page where it is, and what is outside as it was.
record Keeps (t a : ℕ) (s s' : Screen) : Type 0 where
  page_kept : (s'.terminals t).video_mem ≡ (s.terminals t).video_mem
  mem_kept : s'.mem a ≡ s.mem a

Keeps-trans : (t a : ℕ) (s s' s'' : Screen) → Keeps t a s s' → Keeps t a s' s'' → Keeps t a s s''
Keeps-trans t a s s' s'' h k = ground arith

module _ (t a : ℕ) (s : Screen) (page : (s.terminals t).video_mem + 4096 ≤ word_mod)
    (out : IsOutside (s.terminals t).video_mem a) where
  abbrev vm : ℕ
  vm = (s.terminals t).video_mem

  scroll-Keeps : Keeps t a s (scroll t s)
  unfolding scroll
  scroll-Keeps = ground (arith, scroll_mem_outside vm a page out s.mem)

  put_newline-Keeps : Keeps t a s (put_newline t s)
  unfolding put_newline
  put_newline-Keeps = ground (arith, scroll_mem_outside vm a page out s.mem)

  put_escape-Keeps : Keeps t a s (put_escape t s)
  unfolding put_escape
  put_escape-Keeps = ground (arith, scroll_mem_outside vm a page out s.mem)

  put_plain-Keeps : (c : ℕ) → OnScreen (s.terminals t) → Keeps t a s (put_plain c t s)
  unfolding put_plain
  put_plain-Keeps c h =
      let open_cell =
        write_cell_outside vm a page out (s.terminals t).screen_y (s.terminals t).screen_x c s.mem
          (ground arith) (ground arith) in
      record { page_kept = ground arith; mem_kept = open_cell }

  put_tab-Keeps : OnScreen (s.terminals t) → Keeps t a s (put_tab t s)
  unfolding put_tab
  put_tab-Keeps h =
      let d = s.terminals t in
      let x = add32 d.screen_x 4 in
      let w = write_cell vm d.screen_y x space_ascii in
      let same = λ (m : Bytes).
        write_cell_outside vm a page out d.screen_y x space_ascii m (ground arith) (ground arith) in
      record {
        page_kept = ground arith;
        mem_kept = same (w (w (w s.mem))) ∙ same (w (w s.mem)) ∙ same (w s.mem) ∙ same s.mem;
      }

  step_back_near :
      OnScreen (s.terminals t)
      → CanBack (s.terminals t)
      → ((step_back (s.terminals t)).screen_y < num_rows)
        × ((step_back (s.terminals t)).screen_x < num_cols)
        × ((step_back (s.terminals t)).video_mem ≡ vm)
  step_back_near h b = ground arith

  put_backspace-Keeps :
      OnScreen (s.terminals t) → CanBack (s.terminals t) → Keeps t a s (put_backspace t s)
  unfolding put_backspace
  put_backspace-Keeps h b =
      let d = step_back (s.terminals t) in
      let near = step_back_near h b in
      record {
        page_kept = ap (λ (r : Termdata). r.video_mem) (update_self s.terminals t d) ∙ near.2;
        mem_kept =
            subst (λ v. write_cell v d.screen_y d.screen_x space_ascii s.mem a ≡ s.mem a)
              (sym near.2)
              (write_cell_outside vm a page out d.screen_y d.screen_x space_ascii s.mem near.0
                (omega (arith, near.1)));
      }

  put_body-Keeps :
      (c : ℕ)
      → OnScreen (s.terminals t)
      → (c ≡ 8 → CanBack (s.terminals t))
      → Keeps t a s (put_body c t s)
  unfolding put_body
  put_body-Keeps c h b = elim (Bool-cases (c == 8)) [
    | inl back ↦ ground (arith, put_backspace-Keeps h (b ((==_iff c 8).0 back)))
    | inr other ↦
        ground (arith, put_newline-Keeps, put_tab-Keeps h, put_escape-Keeps, put_plain-Keeps c h)
  ]

  put_scroll-Keeps : Keeps t a s (put_scroll t s)
  unfolding put_scroll
  put_scroll-Keeps = ground (arith, scroll-Keeps)

  put_runon-Keeps : (at_end : ℕ → Bool) → Keeps t a s (put_runon at_end t s)
  unfolding put_runon
  put_runon-Keeps at_end = ground arith

module _ (c t a : ℕ) (s : Screen) (page : (s.terminals t).video_mem + 4096 ≤ word_mod)
    (out : IsOutside (s.terminals t).video_mem a) where
  putc-Keeps :
      OnScreen (s.terminals t) → (c ≡ 8 → CanBack (s.terminals t)) → Keeps t a s (putc c t s)
  unfolding putc
  putc-Keeps h b =
      let s1 = put_body c t s in
      let k1 = put_body-Keeps t a s page out c h b in
      let s2 = put_scroll t s1 in
      let k2 =
        put_scroll-Keeps t a s1 (omega (arith, k1.page_kept)) (omega (arith, k1.page_kept)) in
      let k12 = Keeps-trans t a s s1 s2 k1 k2 in
      Keeps-trans t a s s2 (putc c t s) k12 (
        put_runon-Keeps t a s2 (omega (arith, k12.page_kept)) (omega (arith, k12.page_kept))
          (λ x. leb_signed (num_cols - 1) x))

  -- `putc` changes no byte of memory outside the 4096 bytes at the terminal's `video_mem`, and does
  -- not move them: whatever the character, with the cursor on the screen and left of the last
  -- column, and for a backspace not at the start of the top line with a line that ran on. The 4096
  -- bytes end by 2 ^ 32.
  pub putc_outside :
      OnScreen (s.terminals t)
      → (c ≡ 8 → CanBack (s.terminals t))
      → ((putc c t s).mem a ≡ s.mem a)
        × (((putc c t s).terminals t).video_mem ≡ (s.terminals t).video_mem)
  putc_outside h b = let k = putc-Keeps h b in (k.mem_kept, k.page_kept)
