-- ===== src/Programs/Pingpong/Drawn.antt =====
-- What syscalls/ece391pingpong.c draws.
use mathlib.Core.Path.{ap₂}
use octave_os.Base.{
  ℕ, zero, suc, ◌+◌, ◌-◌, ◌≤◌, ◌<◌, ◌≡◌, ◌≢◌, refl, ap, ◌∙◌, arith, List, [], ◌∷◌, ◌++◌, false,
  true, ◌==◌, if◌then◌else◌, replicate, update, leb, ltb, ◌&&◌,
}
use octave_os.Str.{Bytes, text_from, text}
use octave_os.Programs.Pingpong.{bufmax, startloop, loopmax, fill_spaces, walls, draw}

fill_spaces_lem :
    (buf : Bytes) (i n a : ℕ)
    → fill_spaces buf i n a ≡ (if leb i a && ltb a (i + n) then 32 else buf a)
unfolding fill_spaces
fill_spaces_lem buf i zero a = ground arith
fill_spaces_lem buf i (suc n) a = ground (arith, fill_spaces_lem (update buf i 32) (i + 1) n a)

-- The two walls stand, the rest of the line is blank in front of the first, and the line and the
-- string end behind the second.
pub record HasWalls (buf : Bytes) : Type 0 where
  pub margin : buf 0 ≡ 32
  pub left : buf 1 ≡ b'|'
  pub right : buf 78 ≡ b'|'
  pub line_end : buf 79 ≡ 10
  pub string_end : buf 80 ≡ 0

pub walls-HasWalls : (stack : Bytes) → HasWalls (walls stack)
unfolding walls
walls-HasWalls stack = record {
  margin = fill_spaces_lem stack 0 bufmax 0;
  left = refl;
  right = refl;
  line_end = refl;
  string_end = refl;
}

module _ (j c : ℕ) (lo : 2 ≤ j) (hi : j < 78) (buf : Bytes) where
  draw-at :
      (a : ℕ) → draw j c buf a ≡ (if j == a then c else if leb 2 a && ltb a 78 then 32 else buf a)
  unfolding draw
  draw-at a =
      ap (λ v. if j == a then c else v) (fill_spaces_lem buf startloop (loopmax - startloop) a)

  pub draw-HasWalls : HasWalls buf → HasWalls (draw j c buf)
  draw-HasWalls h = record {
    margin = draw-at 0 ∙ ground (arith, h.margin);
    left = draw-at 1 ∙ ground (arith, h.left);
    right = draw-at 78 ∙ ground (arith, h.right);
    line_end = draw-at 79 ∙ ground (arith, h.line_end);
    string_end = draw-at 80 ∙ ground (arith, h.string_end);
  }

text_from-char :
    (s : Bytes) (a c n : ℕ) → s a ≡ c → c ≢ 0 → text_from s a (suc n) ≡ c ∷ text_from s (a + 1) n
unfolding text_from
text_from-char s a c n h nz =
    let more : (s a == 0) ≡ false = ground arith in rw more (ap (λ v. v ∷ text_from s (a + 1) n) h)

text_from-nil : (s : Bytes) (a n : ℕ) → s a ≡ 0 → text_from s a (suc n) ≡ []
unfolding text_from
text_from-nil s a n h = let stop : (s a == 0) ≡ true = ground arith in rw stop refl

-- Spaces at the start of a text.
text_from-spaces :
    (s : Bytes) (a m n : ℕ)
    → ((i : ℕ) → a ≤ i → i < a + m → s i ≡ 32)
    → text_from s a (m + n) ≡ replicate m 32 ++ text_from s (a + m) n
text_from-spaces s a zero n h = ap₂ (text_from s) (omega arith) (omega arith)
text_from-spaces s a (suc m) n h =
    ap (text_from s a) (omega arith)
    ∙ text_from-char s a 32 (m + n) (h a (omega arith) (omega arith)) (λ e. omega arith)
    ∙ ap (λ t. 32 ∷ t)
        (text_from-spaces s (a + 1) m n (λ i lo hi. h i (omega arith) (omega arith))
          ∙ ap (λ b. replicate m 32 ++ text_from s b n) (omega arith))

-- A frame: the character between the walls, with spaces on both sides.
abbrev pub frame : (j c : ℕ) → List ℕ
frame j c = 32 ∷ b'|' ∷ (replicate (j - 2) 32 ++ c ∷ (replicate (77 - j) 32 ++ b'|' ∷ 10 ∷ []))

text_from-end : (s : Bytes) → s 78 ≡ b'|' → s 79 ≡ 10 → s 80 ≡ 0 → text_from s 78 3 ≡ b'|' ∷ 10 ∷ []
text_from-end s wall line stop =
    text_from-char s 78 b'|' 2 wall (λ e. omega arith)
    ∙ ap (λ t. b'|' ∷ t)
        (text_from-char s 79 10 1 line (λ e. omega arith)
          ∙ ap (λ t. 10 ∷ t) (text_from-nil s 80 0 stop))

-- What is drawn with the character `c` at column `j`, from the array as it was before: one line of
-- spaces with the two walls and the character between them, whatever was drawn before, and the walls
-- stand for the next frame. The column is one that both loops go through, and `c` is no NUL.
pub draw-frame :
    (j c : ℕ) (buf : Bytes)
    → startloop ≤ j
    → j < loopmax
    → c ≢ 0
    → HasWalls buf
    → (text (draw j c buf) bufmax ≡ frame j c) × HasWalls (draw j c buf)
draw-frame j c buf lo hi nz h =
    let s = draw j c buf in
    let w = draw-HasWalls j c lo hi buf h in
    let blank : (i : ℕ) → 2 ≤ i → i < 78 → i ≢ j → s i ≡ 32 =
      λ i l u ne. draw-at j c lo hi buf i ∙ ground arith in
    let at : s j ≡ c = draw-at j c lo hi buf j ∙ ground arith in
    let behind : text_from s (2 + (j - 2)) (suc (77 - j + 3))
        ≡ c ∷ (replicate (77 - j) 32 ++ b'|' ∷ 10 ∷ []) =
      ap (λ b. text_from s b (suc (77 - j + 3))) (omega arith)
      ∙ text_from-char s j c (77 - j + 3) at nz
      ∙ ap (λ t. c ∷ t)
          (text_from-spaces s (j + 1) (77 - j) 3
              (λ i l u. blank i (omega arith) (omega arith) (omega arith))
            ∙ ap (λ t. replicate (77 - j) 32 ++ t)
                (ap (λ b. text_from s b 3) (omega arith)
                  ∙ text_from-end s w.right w.line_end w.string_end)) in
    (
      text_from-char s 0 32 80 w.margin (λ e. omega arith)
          ∙ ap (λ t. 32 ∷ t)
              (text_from-char s 1 b'|' 79 w.left (λ e. omega arith)
                ∙ ap (λ t. b'|' ∷ t)
                    (ap (text_from s 2) (omega arith)
                      ∙ text_from-spaces s 2 (j - 2) (suc (77 - j + 3))
                          (λ i l u. blank i l (omega arith) (omega arith))
                      ∙ ap (λ t. replicate (j - 2) 32 ++ t) behind)),
      w,
    )
