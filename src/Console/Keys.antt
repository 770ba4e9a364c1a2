-- ===== src/Console/Keys.antt =====
-- The console code of student-distrib/lib.c leaves the keyboard's part of every terminal alone.
use octave_os.Base.{ℕ, ◌≡◌, Bool, ◌==◌, arith, ◌-◌, leb_signed}
use octave_os.Screen.{Screen, update_cursor, num_cols}
use octave_os.Console.{
  scroll, clear, put_newline, put_backspace, put_tab, put_escape, put_plain, put_body, put_scroll,
  put_runon, echo, putc,
}

-- The line that is typed, and the flags, are the same.
pub record SameKeys (t : ℕ) (s s' : Screen) : Type 0 where
  pub keybuf : (s'.terminals t).keybuf ≡ (s.terminals t).keybuf
  pub buflen : (s'.terminals t).buflen ≡ (s.terminals t).buflen
  pub enter_pressed : (s'.terminals t).enter_pressed ≡ (s.terminals t).enter_pressed

pub SameKeys-trans :
    (t : ℕ) (s s' s'' : Screen) → SameKeys t s s' → SameKeys t s' s'' → SameKeys t s s''
SameKeys-trans t s s' s'' h k = ground arith

module _ (t u : ℕ) (s : Screen) where
  scroll-SameKeys : SameKeys t s (scroll u s)
  unfolding scroll
  scroll-SameKeys = ground arith

  put_newline-SameKeys : SameKeys t s (put_newline u s)
  unfolding put_newline
  put_newline-SameKeys = ground arith

  put_backspace-SameKeys : SameKeys t s (put_backspace u s)
  unfolding put_backspace
  put_backspace-SameKeys = ground arith

  put_tab-SameKeys : SameKeys t s (put_tab u s)
  unfolding put_tab
  put_tab-SameKeys = ground arith

  put_escape-SameKeys : SameKeys t s (put_escape u s)
  unfolding put_escape
  put_escape-SameKeys = ground arith

  put_plain-SameKeys : (c : ℕ) → SameKeys t s (put_plain c u s)
  unfolding put_plain
  put_plain-SameKeys c = ground arith

  pub clear-SameKeys : SameKeys t s (update_cursor (clear u s))
  unfolding clear update_cursor
  clear-SameKeys = ground arith

  put_body-SameKeys : (c : ℕ) → SameKeys t s (put_body c u s)
  unfolding put_body
  put_body-SameKeys c = ground (
    arith,
    put_newline-SameKeys,
    put_backspace-SameKeys,
    put_tab-SameKeys,
    put_escape-SameKeys,
    put_plain-SameKeys c,
  )

  put_scroll-SameKeys : SameKeys t s (put_scroll u s)
  unfolding put_scroll
  put_scroll-SameKeys = ground (arith, scroll-SameKeys)

  put_runon-SameKeys : (at_end : ℕ → Bool) → SameKeys t s (put_runon at_end u s)
  unfolding put_runon
  put_runon-SameKeys at_end = ground arith

pub putc-SameKeys : (t c u : ℕ) (s : Screen) → SameKeys t s (putc c u s)
unfolding putc
putc-SameKeys t c u s =
    let s1 = put_body c u s in
    let s2 = put_scroll u s1 in
    SameKeys-trans t s s2 (putc c u s)
      (SameKeys-trans t s s1 s2 (put_body-SameKeys t u s c) (put_scroll-SameKeys t u s1))
      (put_runon-SameKeys t u s2 (λ x. leb_signed (num_cols - 1) x))

pub echo-SameKeys : (t c : ℕ) (s : Screen) → SameKeys t s (echo c s)
unfolding echo
echo-SameKeys t c s =
    let u = s.curr_term in
    let s1 = put_body c u s in
    let s2 = put_scroll u s1 in
    SameKeys-trans t s s2 (echo c s)
      (SameKeys-trans t s s1 s2 (put_body-SameKeys t u s c) (put_scroll-SameKeys t u s1))
      (put_runon-SameKeys t u s2 (λ x. x == num_cols - 1))
