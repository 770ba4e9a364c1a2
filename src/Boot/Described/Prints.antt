-- ===== src/Boot/Described/Prints.antt =====
-- Parts of a program that return and print, for the lines that `entry` of student-distrib/kernel.c
-- prints.
use octave_os.Base.{
  ℕ, ◌+◌, ◌%◌, ◌^◌, ◌<◌, ◌≡◌, refl, sym, ap, ◌∙◌, arith, List, [], ◌∷◌, ◌++◌, Bool, true, false,
  not, ◌&&◌, ◌==◌, if◌then◌else◌, word_mod, Outcome, done, ◌>>=◌,
}
use mathlib.Core.List.{append_assoc}
use octave_os.Str.{Bytes}
use octave_os.Kernel.{Kernel, print}
use octave_os.Printf.{Argument, printf}
use octave_os.Printf.Pieces.{Piece, formats, arguments, texts, text_printed, IsPiece, ArePieces}
use octave_os.Printf.Pieces.Rendered.{printf-texts, print-append}
use octave_os.Boot.Described.{AreBytes, lits}
use octave_os.Console.{puts}
use octave_os.Boot.Multiboot.{load32, say, when}

unfoldable pub no_percent : List ℕ → Bool
no_percent [] = true
no_percent (c ∷ cs) = not (c == b'%') && no_percent cs

pub ArePieces-lits :
    (cs : List ℕ) (ps : List Piece)
    → no_percent cs ≡ true
    → ArePieces ps
    → ArePieces (lits cs ++ ps)
unfolding no_percent ArePieces IsPiece
ArePieces-lits [] ps h hp = hp
ArePieces-lits (c ∷ cs) ps h hp = (λ e. ground arith, ArePieces-lits cs ps (ground arith) hp)

pub load32-lt : (mem : Bytes) (a : ℕ) → AreBytes mem → load32 mem a < 2 ^ 32
unfolding load32
load32-lt mem a h =
    let h0 = h ((a + 0) % word_mod) in
    let h1 = h ((a + 1) % word_mod) in
    let h2 = h ((a + 2) % word_mod) in let h3 = h ((a + 3) % word_mod) in omega arith

pub texts-append : (ps qs : List Piece) → texts (ps ++ qs) ≡ texts ps ++ texts qs
unfolding texts
texts-append [] qs = refl
texts-append (p ∷ ps) qs =
    ap (λ t. text_printed p ++ t) (texts-append ps qs)
    ∙ sym (append_assoc (text_printed p) (texts ps) (texts qs))

-- A part of the code that returns, and prints the texts of some pieces.
abbrev pub Prints : (Kernel → Outcome Kernel) → List Piece → Type 0
Prints f ps = (k : Kernel) → f k ≡ done (print (texts ps) k)

pub print-texts_append :
    (ps qs : List Piece) (k : Kernel)
    → print (texts (ps ++ qs)) k ≡ print (texts qs) (print (texts ps) k)
print-texts_append ps qs k =
    ap (λ t. print t k) (texts-append ps qs) ∙ print-append (texts ps) (texts qs) k

pub Prints-seq :
    (f g : Kernel → Outcome Kernel) (ps qs : List Piece)
    → Prints f ps
    → Prints g qs
    → Prints (λ k. f k >>= g) (ps ++ qs)
Prints-seq f g ps qs hf hg k =
    ap (λ o. o >>= g) (hf k) ∙ hg (print (texts ps) k) ∙ ap done (sym (print-texts_append ps qs k))

pub Prints-none : Prints (λ k. done k) []
unfolding texts puts
Prints-none k = refl

pub Prints-when :
    (b : Bool) (f : Kernel → Outcome Kernel) (ps : List Piece)
    → Prints f ps
    → Prints (when b f) (if b then ps else [])
unfolding texts
Prints-when true f ps h = h
Prints-when false f ps h = Prints-none

-- The same where the part needs the flag.
pub Prints-if :
    (b : Bool) (f : Kernel → Outcome Kernel) (ps : List Piece)
    → (b ≡ true → Prints f ps)
    → Prints (when b f) (if b then ps else [])
Prints-if true f ps h = h refl
Prints-if false f ps h = Prints-none

pub Prints-say :
    (stack : Bytes) (format : List ℕ) (args : List Argument) (ps : List Piece)
    → formats ps ≡ format
    → arguments ps ≡ args
    → ArePieces ps
    → Prints (say stack format args) ps
unfolding say
Prints-say stack format args ps ef ea h k =
    ap (λ f. printf stack f args k >>= λ (n, k'). done k') (sym ef)
    ∙ ap (λ a. printf stack (formats ps) a k >>= λ (n, k'). done k') (sym ea)
    ∙ ap (λ o. o >>= λ (n, k'). done k') (printf-texts stack ps k h)

pub ArePieces-lits_end : (cs : List ℕ) → no_percent cs ≡ true → ArePieces (lits cs)
unfolding no_percent ArePieces IsPiece
ArePieces-lits_end [] h = tt
ArePieces-lits_end (c ∷ cs) h = (λ e. ground arith, ArePieces-lits_end cs (ground arith))

-- A number or a string behind some text.
pub then_piece :
    (before : List ℕ) (p : Piece) (rest : List Piece)
    → no_percent before ≡ true
    → IsPiece p
    → ArePieces rest
    → ArePieces (lits before ++ p ∷ rest)
unfolding ArePieces
then_piece before p rest hb hp hr = ArePieces-lits before (p ∷ rest) hb (hp, hr)
