-- ===== src/Keyboard/Line.antt =====
-- The line that is typed: what `keyboard_handler` of student-distrib/keyboard.c does to it, against
-- an editor of lists.
use native.Mathlib.Decide.{dec_lt}
use mathlib.Core.Path.{ap₂}
use octave_os.Base.{
  ℕ, zero, suc, ◌+◌, ◌-◌, ◌<◌, ◌≤◌, ◌≡◌, refl, ◌∙◌, ap, List, [], ◌∷◌, ◌++◌, true, false, arith,
  ltb, leb, if◌then◌else◌, length, take, set, update,
}
use octave_os.Str.{Bytes}
use octave_os.FileSys.{read_range}
use octave_os.FileSys.Blocks.{read_range-append, read_range_shift}
use octave_os.Screen.{Termdata, Screen}
use octave_os.Console.Keys.{SameKeys}
use octave_os.Terminal.{keybufsize}
use octave_os.Keyboard.{
  Action, clear_screen, switch_to, plain, backspace, enter, add_char, is_typed,
}

-- The bytes of the line of a terminal.
abbrev pub line : Termdata → List ℕ
line td = read_range td.keybuf 0 td.buflen

-- A character added to a line of at most 128; in a full line the last place becomes an escape.
abbrev pub typed : ℕ → List ℕ → List ℕ
typed c l =
    if is_typed c
    then (if ltb (length l) keybufsize then l ++ (c ∷ []) else set l (keybufsize - 1) 27)
    else l

-- What an action does to the line. A backspace erases the last character; where there is none, and on
-- a command, what the variable held before is typed.
abbrev pub edit : (junk : ℕ) → Action → List ℕ → List ℕ
edit junk (plain c) l = typed c l
edit junk enter l = typed 10 l
edit junk backspace l = if leb 1 (length l) then take (length l - 1) l else typed junk l
edit junk clear_screen l = typed junk l
edit junk (switch_to n) l = typed junk l

pub length-read_range : (f : Bytes) (a n : ℕ) → length (read_range f a n) ≡ n
unfolding read_range
length-read_range f a zero = refl
length-read_range f a (suc n) = ap suc (length-read_range f (a + 1) n)

pub take-read_range : (f : Bytes) (a m n : ℕ) → m ≤ n → take m (read_range f a n) ≡ read_range f a m
unfolding read_range
take-read_range f a zero n h = refl
take-read_range f a (suc m) zero h = absurd (omega arith)
take-read_range f a (suc m) (suc n) h =
    ap (λ l. f a ∷ l) (take-read_range f (a + 1) m n (omega arith))

-- A write in a range, and one behind it.
read_range-update :
    (f : Bytes) (a n i v : ℕ)
    → i < n
    → read_range (update f (a + i) v) a n ≡ set (read_range f a n) i v
unfolding read_range
read_range-update f a zero i v h = absurd (omega arith)
read_range-update f a (suc n) zero v h =
    ap₂ ◌∷◌ (ground arith)
      (read_range_shift (update f (a + 0) v) f (a + 1) (a + 1) n (λ k l. ground arith))
read_range-update f a (suc n) (suc i) v h = ap₂ ◌∷◌ (ground arith) (
    ap (λ j. read_range (update f j v) (a + 1) n) (omega arith)
    ∙ read_range-update f (a + 1) n i v (omega arith))

read_range-update_end :
    (f : Bytes) (n v : ℕ) → read_range (update f n v) 0 (n + 1) ≡ read_range f 0 n ++ (v ∷ [])
unfolding read_range
read_range-update_end f n v =
    read_range-append (update f n v) 0 n 1
    ∙ ap₂ ◌++◌ (read_range_shift (update f n v) f 0 0 n (λ k l. ground arith))
        (ap (λ c. c ∷ []) (ground arith))

-- What is typed goes to the end of the line.
pub line-add_char :
    (c : ℕ) (td : Termdata)
    → td.buflen ≤ keybufsize
    → is_typed c ≡ true
    → line (add_char c td) ≡ typed c (line td)
unfolding add_char
line-add_char c td small is = elim (dec_lt td.buflen keybufsize) [
  | yes room ↦
      let len = length-read_range td.keybuf 0 td.buflen in
      let e : ltb td.buflen keybufsize ≡ true = ground arith in
      let e' : ltb (length (line td)) keybufsize ≡ true = ground arith in
      rw (is, e, e') (read_range-update_end td.keybuf td.buflen c)
  | no full ↦
      let len = length-read_range td.keybuf 0 td.buflen in
      let e : ltb td.buflen keybufsize ≡ false = ground arith in
      let e' : ltb (length (line td)) keybufsize ≡ false = ground arith in
      rw (is, e, e') (read_range-update td.keybuf 0 td.buflen (keybufsize - 1) 27 (omega arith))
]

pub buflen-add_char :
    (c : ℕ) (td : Termdata) → td.buflen ≤ keybufsize → (add_char c td).buflen ≤ keybufsize
unfolding add_char
buflen-add_char c td h = ground arith

-- A terminal's line and its bound, after a step that turns the line into `l`.
pub record HasLine (l : List ℕ) (td : Termdata) : Type 0 where
  pub is_line : line td ≡ l
  pub bound : td.buflen ≤ keybufsize

-- A step that keeps the keys keeps the line.
pub line-SameKeys :
    (t : ℕ) (s s' : Screen) (l : List ℕ)
    → SameKeys t s s'
    → HasLine l (s.terminals t)
    → HasLine l (s'.terminals t)
line-SameKeys t s s' l same h = record {
  is_line = ap₂ (λ f n. read_range f 0 n) same.keybuf same.buflen ∙ h.is_line;
  bound = omega (arith, same.buflen, h.bound);
}
