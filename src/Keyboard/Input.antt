-- ===== src/Keyboard/Input.antt =====
-- The handler of student-distrib/keyboard.c as an editor of the line.
use mathlib.Core.Path.{ap₂, subst, subst₂}
use octave_os.Base.{
  ℕ, ◌-◌, ◌≤◌, ◌≡◌, refl, ◌∙◌, ap, sym, List, true, false, arith, leb, ◌==◌, length, take,
  update_self, Bool-cases, inl, inr,
}
use octave_os.Screen.{Termdata, Screen, update_cursor}
use octave_os.Console.{echo}
use octave_os.Console.Keys.{SameKeys, echo-SameKeys, clear-SameKeys}
use octave_os.Kernel.{Kernel}
use octave_os.Terminal.{keybufsize, term_switch, switch_screen}
use octave_os.Keyboard.{
  Action, clear_screen, switch_to, plain, backspace, enter, set_flags, action, change_terminal,
  perform, add_char, is_typed, type_char, reset_flags, keyboard_handler, clear_term, echo_char,
}
use octave_os.Keyboard.Line.{
  line, typed, edit, HasLine, line-SameKeys, line-add_char, buflen-add_char, length-read_range,
  take-read_range,
}

-- The line of a terminal of a kernel.
abbrev pub KernelLine : List ℕ → ℕ → Kernel → Type 0
KernelLine l t k = HasLine l (k.screen.terminals t)

KernelLine-change :
    (t : ℕ) (f : Termdata → Termdata) (k : Kernel) (l : List ℕ)
    → HasLine l (f (k.screen.terminals t))
    → KernelLine l t (change_terminal t f k)
KernelLine-change t f k l h =
    subst (HasLine l) (sym (update_self k.screen.terminals t (f (k.screen.terminals t)))) h

type_char_typed :
    (t c : ℕ) (k : Kernel)
    → is_typed c ≡ true
    → type_char t c k ≡ change_terminal t (add_char c) (echo_char c k)
unfolding type_char
type_char_typed t c k is = rw is

type_char_other : (t c : ℕ) (k : Kernel) → is_typed c ≡ false → type_char t c k ≡ k
unfolding type_char
type_char_other t c k is = rw is

typed_other : (c : ℕ) (l : List ℕ) → is_typed c ≡ false → l ≡ typed c l
typed_other c l is = rw is

KernelLine-type_char :
    (t c : ℕ) (k : Kernel) (l : List ℕ)
    → KernelLine l t k
    → KernelLine (typed c l) t (type_char t c k)
KernelLine-type_char t c k l h = elim (Bool-cases (is_typed c)) [
  | inl is ↦
      let h' = line-SameKeys t k.screen (echo c k.screen) l (echo-SameKeys t c k.screen) h in
      let td = (echo c k.screen).terminals t in
      subst (KernelLine (typed c l) t) (sym (type_char_typed t c k is)) (
        KernelLine-change t (add_char c) (echo_char c k) (typed c l) (record {
          is_line = line-add_char c td h'.bound is ∙ ap (typed c) h'.is_line;
          bound = buflen-add_char c td h'.bound;
        }))
  | inr is ↦
      subst₂ (λ m k'. KernelLine m t k') (typed_other c l is) (sym (type_char_other t c k is)) h
]

switch_screen-SameKeys : (t n : ℕ) (s : Screen) → SameKeys t s (switch_screen n s)
unfolding switch_screen
switch_screen-SameKeys t n s = ground arith

switch-SameKeys : (t n : ℕ) (k : Kernel) → SameKeys t k.screen (term_switch n k).screen
unfolding term_switch update_cursor
switch-SameKeys t n k = elim (Bool-cases (k.screen.curr_term == n)) [
  | inl e ↦ rw e (record { keybuf = refl; buflen = refl; enter_pressed = refl })
  | inr e ↦
      let s = switch_screen-SameKeys t n k.screen in
      rw e (record { keybuf = s.keybuf; buflen = s.buflen; enter_pressed = s.enter_pressed })
]

abbrev shorter : Termdata → Termdata
shorter td = record td { buflen = td.buflen - 1 }

perform_erases :
    (junk t : ℕ) (k : Kernel)
    → leb 1 (k.screen.terminals t).buflen ≡ true
    → perform junk t backspace k ≡ (8, echo_char 8 (change_terminal t shorter k))
unfolding perform
perform_erases junk t k h = rw h

perform_idle :
    (junk t : ℕ) (k : Kernel)
    → leb 1 (k.screen.terminals t).buflen ≡ false
    → perform junk t backspace k ≡ (junk, k)
unfolding perform
perform_idle junk t k h = rw h

edit_erases :
    (junk : ℕ) (l : List ℕ)
    → leb 1 (length l) ≡ true
    → edit junk backspace l ≡ take (length l - 1) l
edit_erases junk l h = rw h

edit_idle :
    (junk : ℕ) (l : List ℕ) → leb 1 (length l) ≡ false → edit junk backspace l ≡ typed junk l
edit_idle junk l h = rw h

-- The length of a line is `buflen`.
length-line : {l : List ℕ} {td : Termdata} → HasLine l td → length l ≡ td.buflen
length-line {l} {td} h = sym (ap length h.is_line) ∙ length-read_range td.keybuf 0 td.buflen

HasLine-shorter :
    {l : List ℕ} {td : Termdata} → HasLine l td → HasLine (take (length l - 1) l) (shorter td)
HasLine-shorter {l} {td} h = record {
  is_line =
      sym (take-read_range td.keybuf 0 (td.buflen - 1) td.buflen (omega arith))
      ∙ ap₂ take (omega (arith, length-line h)) h.is_line;
  bound = omega (arith, h.bound);
}

-- An action, and then the character that it leaves, make of the line what the editor makes of it.
KernelLine-perform :
    (junk t : ℕ) (a : Action) (k : Kernel) (l : List ℕ)
    → KernelLine l t k
    → KernelLine (edit junk a l) t (type_char t (perform junk t a k).0 (perform junk t a k).1)
unfolding perform
KernelLine-perform junk t (plain c) k l h = KernelLine-type_char t c k l h
KernelLine-perform junk t enter k l h =
    KernelLine-type_char t 10 (change_terminal t (λ td. record td { enter_pressed = 0 }) k) l (
      KernelLine-change t (λ td. record td { enter_pressed = 0 }) k l
        (record { is_line = h.is_line; bound = h.bound }))
KernelLine-perform junk t (switch_to n) k l h =
    KernelLine-type_char t junk (term_switch n k) l
      (line-SameKeys t k.screen (term_switch n k).screen l (switch-SameKeys t n k) h)
KernelLine-perform junk t clear_screen k l h =
    KernelLine-type_char t junk _ l
      (line-SameKeys t k.screen _ l (clear-SameKeys t (clear_term k) k.screen) h)
KernelLine-perform junk t backspace k l h =
    let goal = λ (m : List ℕ) (r : ℕ × Kernel). KernelLine m t (type_char t r.0 r.1) in
    elim (Bool-cases (leb 1 (k.screen.terminals t).buflen)) [
      | inl left ↦
          let k' = change_terminal t shorter k in
          let m = take (length l - 1) l in
          let now = KernelLine-change t shorter k m (HasLine-shorter h) in
          let echoed =
            line-SameKeys t k'.screen (echo 8 k'.screen) m (echo-SameKeys t 8 k'.screen) now in
          subst₂ goal (sym (edit_erases junk l (ap (leb 1) (length-line h) ∙ left)))
            (sym (perform_erases junk t k left))
            (subst (KernelLine m t) (sym (type_char_other t 8 (echo_char 8 k') refl)) echoed)
      | inr empty ↦
          subst₂ goal (sym (edit_idle junk l (ap (leb 1) (length-line h) ∙ empty)))
            (sym (perform_idle junk t k empty)) (KernelLine-type_char t junk k l h)
    ]

HasLine-set_flags :
    (sc : ℕ) (td : Termdata) → td.buflen ≤ keybufsize → HasLine (line td) (set_flags sc td)
unfolding set_flags
HasLine-set_flags sc td h = record { is_line = refl; bound = h }

HasLine-reset_flags :
    (sc : ℕ) (td : Termdata) (l : List ℕ) → HasLine l td → HasLine l (reset_flags sc td)
unfolding reset_flags
HasLine-reset_flags sc td l h = record { is_line = h.is_line; bound = h.bound }

-- On each scancode the handler does to the line of the terminal that is shown what the editor does on
-- the action that the key and the flags stand for; a line of at most 128 characters stays so.
pub keyboard_handler-HasLine :
    (sc junk : ℕ) (k : Kernel)
    → (k.screen.terminals k.screen.curr_term).buflen ≤ keybufsize
    → HasLine
        (edit junk
          (action sc (set_flags sc (k.screen.terminals k.screen.curr_term)))
          (line (k.screen.terminals k.screen.curr_term)))
        ((keyboard_handler sc junk k).screen.terminals k.screen.curr_term)
unfolding keyboard_handler
keyboard_handler-HasLine sc junk k small =
    let t = k.screen.curr_term in
    let td = k.screen.terminals t in
    let k1 = change_terminal t (set_flags sc) k in
    let now = update_self k.screen.terminals t (set_flags sc td) in
    let flags = KernelLine-change t (set_flags sc) k (line td) (HasLine-set_flags sc td small) in
    let a = action sc (k1.screen.terminals t) in
    let done_line = KernelLine-perform junk t a k1 (line td) flags in
    let k3 = type_char t (perform junk t a k1).0 (perform junk t a k1).1 in
    let m = edit junk a (line td) in
    subst
      (λ d.
        HasLine (edit junk (action sc d) (line td))
          ((keyboard_handler sc junk k).screen.terminals t))
      now
      (KernelLine-change t (reset_flags sc) k3 m
        (HasLine-reset_flags sc (k3.screen.terminals t) m done_line))
