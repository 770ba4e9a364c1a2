-- ===== src/Printf/Pieces/Rendered.antt =====
-- `printf` of student-distrib/lib.c against the pieces that its format stands for.
use octave_os.Base.{
  ℕ, ◌<◌, ◌≡◌, ◌≢◌, ◌^◌, refl, ◌∙◌, ap, sym, arith, List, [], ◌∷◌, ◌++◌, length, ◌==◌, false,
  if◌then◌else◌, done, ◌>>=◌, Outcome,
}
use octave_os.Str.{Bytes}
use octave_os.Screen.{Screen}
use octave_os.Console.{puts, putc}
use octave_os.Kernel.{Kernel, print, put_char, current_term}
use octave_os.Printf.{
  Argument, word, string, plain, conversion, convert, convert_word, convert_hex, printf_loop,
  printf,
}
use octave_os.Printf.Pieces.{
  Piece, literal, percent, hexadecimal, aligned, unsigned, signed, character, text_of, format_of,
  arguments_of, text_printed, IsPiece, formats, arguments, texts, ArePieces,
}
use octave_os.Printf.Pieces.Converted.{itoa-conv_text, convert_signed_lem, convert_hex-aligned}

puts-append : (xs ys : List ℕ) (t : ℕ) (s : Screen) → puts (xs ++ ys) t s ≡ puts ys t (puts xs t s)
unfolding puts
puts-append [] ys t s = refl
puts-append (x ∷ xs) ys t s = puts-append xs ys t (putc x t s)

pub print-append : (xs ys : List ℕ) (k : Kernel) → print (xs ++ ys) k ≡ print ys (print xs k)
print-append xs ys k =
    ap (λ s. record k { screen = s }) (puts-append xs ys (current_term k) k.screen)

print-nil : (k : Kernel) → print [] k ≡ k
unfolding puts
print-nil k = refl

loop-literal :
    (stack : Bytes) (c : ℕ) (fs : List ℕ) (args : List Argument) (k : Kernel)
    → c ≢ b'%'
    → printf_loop stack plain (c ∷ fs) args k ≡ printf_loop stack plain fs args (put_char c k)
unfolding printf_loop
loop-literal stack c fs args k h =
    let other : (c == b'%') ≡ false = ground arith in
    ap
      (λ b.
        printf_loop stack (if b then conversion false else plain) fs args
          (if b then k else put_char c k))
      other

-- One piece: the loop takes its bytes and its arguments, and prints its text.
module _ (stack : Bytes) (fs : List ℕ) (args : List Argument) (k : Kernel) where
  abbrev taken : Outcome Kernel → Outcome (List Argument × Kernel)
  taken o = o >>= λ k'. done (args, k')

  abbrev after_word : Outcome Kernel → Outcome Kernel
  after_word o = taken o >>= λ (args', k'). printf_loop stack plain fs args' k'

  abbrev printed : List ℕ → Outcome Kernel
  printed cs = done (print cs k)

  abbrev Taken : Piece → Type 0
  Taken p =
      printf_loop stack plain (format_of p ++ fs) (arguments_of p ++ args) k
      ≡ printf_loop stack plain fs args (print (text_printed p) k)

  Taken-hexadecimal : (v : ℕ) → v < 2 ^ 32 → Taken (hexadecimal v)
  unfolding printf_loop format_of arguments_of text_printed convert convert_word convert_hex
  Taken-hexadecimal v h =
      ap (λ o. after_word (o >>= printed))
        (itoa-conv_text v 16 stack 0 (omega arith) (omega arith) h done)

  Taken-aligned : (v : ℕ) → v < 2 ^ 32 → Taken (aligned v)
  unfolding printf_loop format_of arguments_of text_printed convert convert_word
  Taken-aligned v h = ap (λ o. after_word (o >>= printed)) (convert_hex-aligned stack v h)

  Taken-unsigned : (v : ℕ) → v < 2 ^ 32 → Taken (unsigned v)
  unfolding printf_loop format_of arguments_of text_printed convert convert_word
  Taken-unsigned v h =
      ap after_word (itoa-conv_text v 10 stack 0 (omega arith) (omega arith) h printed)

  Taken-signed : (v : ℕ) → v < 2 ^ 32 → Taken (signed v)
  unfolding printf_loop format_of arguments_of text_printed convert convert_word
  Taken-signed v h = ap (λ o. after_word (o >>= printed)) (convert_signed_lem stack v h)

printf_loop-piece :
    (stack : Bytes) (p : Piece) (fs : List ℕ) (args : List Argument) (k : Kernel)
    → IsPiece p
    → printf_loop stack plain (format_of p ++ fs) (arguments_of p ++ args) k
      ≡ printf_loop stack plain fs args (print (text_printed p) k)
unfolding printf_loop format_of arguments_of text_printed IsPiece convert convert_word puts
printf_loop-piece stack (literal c) fs args k h = loop-literal stack c fs args k h
printf_loop-piece stack percent fs [] k h = refl
printf_loop-piece stack percent fs (word v ∷ args) k h = refl
printf_loop-piece stack percent fs (string cs ∷ args) k h = refl
printf_loop-piece stack (hexadecimal v) fs args k h = Taken-hexadecimal stack fs args k v h
printf_loop-piece stack (aligned v) fs args k h = Taken-aligned stack fs args k v h
printf_loop-piece stack (unsigned v) fs args k h = Taken-unsigned stack fs args k v h
printf_loop-piece stack (signed v) fs args k h = Taken-signed stack fs args k v h
printf_loop-piece stack (character v) fs args k h = refl
printf_loop-piece stack (text_of cs) fs args k h = refl

loop-nil : (stack : Bytes) (k : Kernel) → printf_loop stack plain [] [] k ≡ done (print [] k)
unfolding printf_loop puts
loop-nil stack k = refl

printf_loop-pieces :
    (stack : Bytes) (ps : List Piece) (k : Kernel)
    → ArePieces ps
    → printf_loop stack plain (formats ps) (arguments ps) k ≡ done (print (texts ps) k)
unfolding formats arguments texts ArePieces
printf_loop-pieces stack [] k h = loop-nil stack k
printf_loop-pieces stack (p ∷ ps) k (h, hs) =
    printf_loop-piece stack p (formats ps) (arguments ps) k h
    ∙ printf_loop-pieces stack ps (print (text_printed p) k) hs
    ∙ ap done (sym (print-append (text_printed p) (texts ps) k))

-- `printf` of a format that is a list of pieces, with the arguments that these take, returns the
-- length of the format and prints the text of each piece in order: bytes other than `%` as they are,
-- `%%` as a `%`, a 32-bit word as its numeral to the base 16 or 10, in two's complement for `%d`, and
-- with zeros in front up to eight digits for `%#x`, the low byte of a word for `%c`, and a string.
pub printf-texts :
    (stack : Bytes) (ps : List Piece) (k : Kernel)
    → ArePieces ps
    → printf stack (formats ps) (arguments ps) k ≡ done (length (formats ps), print (texts ps) k)
unfolding printf
printf-texts stack ps k h =
    ap (λ o. o >>= λ k'. done (length (formats ps), k')) (printf_loop-pieces stack ps k h)
