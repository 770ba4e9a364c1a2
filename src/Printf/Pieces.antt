-- ===== src/Printf/Pieces.antt =====
-- What a format of `printf` (student-distrib/lib.c) stands for: a list of pieces, each with its text
-- in the format, the arguments that it takes and what it prints.
use mathlib.Core.Path.{ap₂}
use octave_os.Base.{
  ℕ, ◌<◌, ◌≢◌, ◌-◌, ◌^◌, ◌%◌, ◌≤◌, List, [], ◌∷◌, ◌++◌, Bool, if◌then◌else◌, length, replicate,
  sub32, ltb_signed,
}
use octave_os.Str.{codes}
use octave_os.Number.Digits.{numeral}
use octave_os.Printf.{Argument, word, string}
pub mod Converted
pub mod Rendered

pub data Piece : Type 0 where
  literal : ℕ → Piece
  percent : Piece
  hexadecimal : ℕ → Piece
  aligned : ℕ → Piece
  unsigned : ℕ → Piece
  signed : ℕ → Piece
  character : ℕ → Piece
  text_of : List ℕ → Piece

unfoldable pub format_of : Piece → List ℕ
format_of (literal c) = c ∷ []
format_of percent = codes "%%"
format_of (hexadecimal v) = codes "%x"
format_of (aligned v) = codes "%#x"
format_of (unsigned v) = codes "%u"
format_of (signed v) = codes "%d"
format_of (character v) = codes "%c"
format_of (text_of cs) = codes "%s"

unfoldable pub arguments_of : Piece → List Argument
arguments_of (literal c) = []
arguments_of percent = []
arguments_of (hexadecimal v) = word v ∷ []
arguments_of (aligned v) = word v ∷ []
arguments_of (unsigned v) = word v ∷ []
arguments_of (signed v) = word v ∷ []
arguments_of (character v) = word v ∷ []
arguments_of (text_of cs) = string cs ∷ []

-- Eight digits.
abbrev pub aligned_numeral : ℕ → List ℕ
aligned_numeral v = replicate (8 - length (numeral 16 v)) b'0' ++ numeral 16 v

abbrev pub signed_numeral : ℕ → List ℕ
signed_numeral v = if ltb_signed v 0 then b'-' ∷ numeral 10 (sub32 0 v) else numeral 10 v

unfoldable pub text_printed : Piece → List ℕ
text_printed (literal c) = c ∷ []
text_printed percent = b'%' ∷ []
text_printed (hexadecimal v) = numeral 16 v
text_printed (aligned v) = aligned_numeral v
text_printed (unsigned v) = numeral 10 v
text_printed (signed v) = signed_numeral v
text_printed (character v) = (v % 256) ∷ []
text_printed (text_of cs) = cs

-- A byte of the format that is printed as it is is no `%`; a number is a word.
unfoldable pub IsPiece : Piece → Type 0
IsPiece (literal c) = c ≢ b'%'
IsPiece percent = Unit
IsPiece (hexadecimal v) = v < 2 ^ 32
IsPiece (aligned v) = v < 2 ^ 32
IsPiece (unsigned v) = v < 2 ^ 32
IsPiece (signed v) = v < 2 ^ 32
IsPiece (character v) = v < 2 ^ 32
IsPiece (text_of cs) = Unit

unfoldable pub formats : List Piece → List ℕ
unfolding format_of
formats [] = []
formats (p ∷ ps) = format_of p ++ formats ps

unfoldable pub arguments : List Piece → List Argument
unfolding arguments_of
arguments [] = []
arguments (p ∷ ps) = arguments_of p ++ arguments ps

unfoldable pub texts : List Piece → List ℕ
unfolding text_printed
texts [] = []
texts (p ∷ ps) = text_printed p ++ texts ps

unfoldable pub ArePieces : List Piece → Type 0
unfolding IsPiece
ArePieces [] = Unit
ArePieces (p ∷ ps) = IsPiece p × ArePieces ps
