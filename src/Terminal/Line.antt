-- ===== src/Terminal/Line.antt =====
-- What `term_read` of student-distrib/terminal.c returns of the line that was typed.
use mathlib.Core.Path.{ap₂}
use octave_os.Base.{
  ℕ, ◌^◌, ◌<◌, ◌≤◌, ◌≡◌, ◌∙◌, ap, sym, arith, ltb, if◌then◌else◌, min, take, done, word_mod,
  nonzero, false,
}
use octave_os.FileSys.{read_range, rounds}
use octave_os.Screen.{Termdata}
use octave_os.Kernel.{Kernel, current_term}
use octave_os.Terminal.{keybufsize, to_copy, term_read, line_taken}
use octave_os.Keyboard.Line.{line, take-read_range}

-- The terminal of the running process.
abbrev pub reader : Kernel → Termdata
reader k = k.screen.terminals (current_term k)

-- A read of a negative length copies the whole line.
abbrev pub read_length : (nbytes buflen : ℕ) → ℕ
read_length nbytes buflen = if ltb nbytes (2 ^ 31) then min nbytes buflen else buflen

to_copy_lem :
    (nbytes buflen : ℕ)
    → nbytes < word_mod
    → buflen ≤ keybufsize
    → to_copy nbytes buflen ≡ read_length nbytes buflen
unfolding to_copy
to_copy_lem nbytes buflen h small = ground arith

-- Once the enter key was pressed, `term_read` returns the first `nbytes` characters of the line, or
-- all of it if there are fewer or if `nbytes` is negative, and how many; the rest of the line is
-- dropped, and the next read waits for the enter key again.
pub term_read-line :
    (nbytes : ℕ) (k : Kernel)
    → nbytes < word_mod
    → (reader k).enter_pressed ≡ 0
    → (reader k).buflen ≤ keybufsize
    → (k' : Kernel) × (term_read nbytes k
        ≡ done (
          read_length nbytes (reader k).buflen,
          take (read_length nbytes (reader k).buflen) (line (reader k)),
          k',
        ))
      × ((reader k').buflen ≡ 0)
      × ((reader k').enter_pressed ≡ 1)
unfolding term_read
term_read-line nbytes k h enter small =
    let td = reader k in
    let ready : nonzero td.enter_pressed ≡ false = ap nonzero enter in
    let n = read_length nbytes td.buflen in
    let le : n ≤ td.buflen = ground arith in
    let count : rounds n ≡ n = ground arith in
    let copied = take-read_range td.keybuf 0 n td.buflen le in
    (
      line_taken k,
      rw ready (
          ap₂ (λ m xs. done (m, xs, line_taken k)) (to_copy_lem nbytes td.buflen h small)
            (ap (λ m. read_range td.keybuf 0 (rounds m)) (to_copy_lem nbytes td.buflen h small)
              ∙ ap (read_range td.keybuf 0) count
              ∙ sym copied)),
      ground arith,
      ground arith,
    )
