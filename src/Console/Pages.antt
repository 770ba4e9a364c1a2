-- ===== src/Console/Pages.antt =====
-- The console code of student-distrib/lib.c moves no terminal's page and shows no other terminal.
use octave_os.Base.{ℕ, ◌≡◌, refl, Bool, arith, List, [], ◌∷◌, ◌-◌, leb_signed}
use octave_os.Screen.{Screen, num_cols}
use octave_os.Console.{
  scroll, clear, put_newline, put_backspace, put_tab, put_escape, put_plain, put_body, put_scroll,
  put_runon, putc, puts,
}

pub record SamePages (t : ℕ) (s s' : Screen) : Type 0 where
  pub shown : s'.curr_term ≡ s.curr_term
  pub page : (s'.terminals t).video_mem ≡ (s.terminals t).video_mem

pub SamePages-trans :
    (t : ℕ) (s s' s'' : Screen) → SamePages t s s' → SamePages t s' s'' → SamePages t s s''
SamePages-trans t s s' s'' h k = ground arith

module _ (t u : ℕ) (s : Screen) where
  scroll-SamePages : SamePages t s (scroll u s)
  unfolding scroll
  scroll-SamePages = ground arith

  put_newline-SamePages : SamePages t s (put_newline u s)
  unfolding put_newline
  put_newline-SamePages = ground arith

  put_backspace-SamePages : SamePages t s (put_backspace u s)
  unfolding put_backspace
  put_backspace-SamePages = ground arith

  put_tab-SamePages : SamePages t s (put_tab u s)
  unfolding put_tab
  put_tab-SamePages = ground arith

  put_escape-SamePages : SamePages t s (put_escape u s)
  unfolding put_escape
  put_escape-SamePages = ground arith

  put_plain-SamePages : (c : ℕ) → SamePages t s (put_plain c u s)
  unfolding put_plain
  put_plain-SamePages c = ground arith

  pub clear-SamePages : SamePages t s (clear u s)
  unfolding clear
  clear-SamePages = ground arith

  put_body-SamePages : (c : ℕ) → SamePages t s (put_body c u s)
  unfolding put_body
  put_body-SamePages c = ground (
    arith,
    put_newline-SamePages,
    put_backspace-SamePages,
    put_tab-SamePages,
    put_escape-SamePages,
    put_plain-SamePages c,
  )

  put_scroll-SamePages : SamePages t s (put_scroll u s)
  unfolding put_scroll
  put_scroll-SamePages = ground (arith, scroll-SamePages)

  put_runon-SamePages : (at_end : ℕ → Bool) → SamePages t s (put_runon at_end u s)
  unfolding put_runon
  put_runon-SamePages at_end = ground arith

pub putc-SamePages : (t c u : ℕ) (s : Screen) → SamePages t s (putc c u s)
unfolding putc
putc-SamePages t c u s =
    let s1 = put_body c u s in
    let s2 = put_scroll u s1 in
    SamePages-trans t s s2 (putc c u s)
      (SamePages-trans t s s1 s2 (put_body-SamePages t u s c) (put_scroll-SamePages t u s1))
      (put_runon-SamePages t u s2 (λ x. leb_signed (num_cols - 1) x))

pub puts-SamePages : (t : ℕ) (cs : List ℕ) (u : ℕ) (s : Screen) → SamePages t s (puts cs u s)
unfolding puts
puts-SamePages t [] u s = record { shown = refl; page = refl }
puts-SamePages t (c ∷ cs) u s =
    SamePages-trans t s (putc c u s) (puts (c ∷ cs) u s) (putc-SamePages t c u s)
      (puts-SamePages t cs u (putc c u s))
