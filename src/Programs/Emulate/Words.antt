-- ===== src/Programs/Emulate/Words.antt =====
-- The command line of syscalls/ece391emulate.c: how a command becomes arguments, and how these become
-- a command line again.
use octave_os.Base.{
  ℕ, zero, suc, ◌+◌, ◌-◌, ◌≤◌, ◌<◌, ◌≡◌, ◌≢◌, ◌^◌, refl, ap, ◌∙◌, arith, List, [], ◌∷◌, ◌++◌, false,
  ◌==◌, length, length-append, replicate, length-replicate, ltb_signed,
}
use octave_os.Str.{codes}
use octave_os.Programs.Emulate.{
  is_break, scan_word, skip_blanks, behind, parse_arguments, unless_ended, parse_command,
  ece391_getargs,
}

-- A word of a command line: some bytes, none of them a space or a line break.
unfoldable pub IsWord : List ℕ → Type 0
IsWord [] = Unit
IsWord (c ∷ cs) = (is_break c ≡ false) × IsWord cs

-- The words behind spaces, one and `n` more in front of each.
unfoldable pub spaced : List (ℕ × List ℕ) → List ℕ
spaced [] = []
spaced ((n, w) ∷ ws) = 32 ∷ (replicate n 32 ++ (w ++ spaced ws))

-- Words of one byte or more.
unfoldable pub AreWords : List (ℕ × List ℕ) → Type 0
unfolding IsWord
AreWords [] = Unit
AreWords ((n, w) ∷ ws) = (w ≢ []) × IsWord w × AreWords ws

unfoldable pub words : List (ℕ × List ℕ) → List (List ℕ)
words [] = []
words ((n, w) ∷ ws) = w ∷ words ws

-- The words with one space between them.
unfoldable pub joined : List (List ℕ) → List ℕ
joined [] = []
joined (w ∷ []) = w
joined (w ∷ v ∷ ws) = w ++ 32 ∷ joined (v ∷ ws)

scan_word-word :
    (w : List ℕ) (ws : List (ℕ × List ℕ)) → IsWord w → scan_word (w ++ spaced ws) ≡ (w, spaced ws)
unfolding scan_word IsWord spaced
scan_word-word [] [] h = refl
scan_word-word [] ((n, v) ∷ ws) h = refl
scan_word-word (c ∷ w) ws (hc, h) = rw hc (ap (λ r. (c ∷ r.0, r.1)) (scan_word-word w ws h))

skip_blanks-word :
    (n c : ℕ) (cs : List ℕ) → is_break c ≡ false → skip_blanks (replicate n 32 ++ c ∷ cs) ≡ c ∷ cs
unfolding skip_blanks
skip_blanks-word zero c cs h = let no : (c == 32) ≡ false = ground arith in rw no refl
skip_blanks-word (suc n) c cs h = skip_blanks-word n c cs h

length-spaced :
    (n : ℕ) (w : List ℕ) (ws : List (ℕ × List ℕ))
    → length (spaced ((n, w) ∷ ws)) ≡ suc (n + (length w + length (spaced ws)))
unfolding spaced
length-spaced n w ws = ap suc (
    length-append (replicate n 32) (w ++ spaced ws)
    ∙ omega (arith, length-replicate {A = ℕ} n 32, length-append w (spaced ws)))

unless_ended-word :
    (c : ℕ) (cs : List ℕ) (rest : List (List ℕ))
    → is_break c ≡ false
    → unless_ended (c ∷ cs) rest ≡ rest
unfolding unless_ended
unless_ended-word c cs rest h = let no : (c == 10) ≡ false = ground arith in rw no refl

parse_arguments-words :
    (fuel : ℕ) (ws : List (ℕ × List ℕ))
    → AreWords ws
    → length (spaced ws) ≤ fuel + 1
    → parse_arguments fuel (behind (spaced ws)) ≡ words ws
unfolding parse_arguments AreWords IsWord spaced words
parse_arguments-words zero [] h enough = refl
parse_arguments-words (suc fuel) [] h enough = refl
parse_arguments-words fuel ((n, []) ∷ ws) (some_byte, hw, h) enough = absurd (some_byte refl)
parse_arguments-words zero ((n, c ∷ w) ∷ ws) h enough =
    absurd (omega (arith, length-spaced n (c ∷ w) ws))
parse_arguments-words (suc fuel) ((n, c ∷ w) ∷ ws) (some_byte, hw, hs) enough =
    let rest = λ (r : List ℕ × List ℕ). r.0 ∷ parse_arguments fuel (behind r.1) in
    ap (λ scan. unless_ended scan (rest (scan_word scan)))
      (skip_blanks-word n c (w ++ spaced ws) hw.0)
    ∙ unless_ended-word c (w ++ spaced ws) (rest (scan_word ((c ∷ w) ++ spaced ws))) hw.0
    ∙ ap rest (scan_word-word (c ∷ w) ws hw)
    ∙ ap (λ r. (c ∷ w) ∷ r)
        (parse_arguments-words fuel ws hs (omega (arith, length-spaced n (c ∷ w) ws)))

ece391_getargs-joined :
    (args : List (List ℕ)) (nbytes : ℕ)
    → length (joined args) < nbytes
    → nbytes < 2 ^ 31
    → ece391_getargs args nbytes ≡ (0, joined args)
unfolding ece391_getargs joined
ece391_getargs-joined [] nbytes room small =
    let some_room : ltb_signed nbytes 1 ≡ false = ground arith in rw some_room refl
ece391_getargs-joined (w ∷ []) nbytes room small =
    let fits : ltb_signed nbytes (length w) ≡ false = ground arith in
    let more : ltb_signed (nbytes - length w) 1 ≡ false = ground arith in rw (fits, more) refl
ece391_getargs-joined (w ∷ v ∷ args) nbytes room small =
    let whole = length-append w (32 ∷ joined (v ∷ args)) in
    let fits : ltb_signed nbytes (length w) ≡ false = ground arith in
    let more : ltb_signed (nbytes - length w) 1 ≡ false = ground arith in
    rw (fits, more)
      (ap (λ r. (r.0, w ++ 32 ∷ r.1))
        (ece391_getargs-joined (v ∷ args) (nbytes - length w - 1) (omega arith) (omega arith)))

-- A command that is a program's name and then words, with one space or more in front of each, comes
-- out of the parse as the path and these words, and the program that gets them as its arguments reads
-- with `ece391_getargs` the words with one space between them, into a buffer that has room for them
-- and a NUL. No word has a space or a line break in it, and none but the name is empty.
pub getargs-parse_command :
    (name : List ℕ) (ws : List (ℕ × List ℕ)) (nbytes : ℕ)
    → IsWord name
    → AreWords ws
    → length (joined (words ws)) < nbytes
    → nbytes < 2 ^ 31
    → (parse_command (name ++ spaced ws) ≡ (codes "./" ++ name) ∷ words ws)
      × (ece391_getargs (words ws) nbytes ≡ (0, joined (words ws)))
unfolding parse_command
getargs-parse_command name ws nbytes hn hs room small = (
  ap (λ r. (codes "./" ++ r.0) ∷ parse_arguments (length r.1) (behind r.1))
        (scan_word-word name ws hn)
      ∙ ap (λ r. (codes "./" ++ name) ∷ r)
          (parse_arguments-words (length (spaced ws)) ws hs (omega arith)),
  ece391_getargs-joined (words ws) nbytes room small,
)
