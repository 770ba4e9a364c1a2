-- ===== src/Printf.antt =====
-- `printf` of student-distrib/lib.c.
--
-- The format is the bytes before its NUL. The arguments on the stack are words, or pointers to
-- strings, given by the bytes before their NUL; a conversion that finds no argument, or one of the
-- other kind, reads memory that the model does not have. `stack` is what the local arrays hold before
-- they are written.
pub mod Pieces
use octave_os.Base.{
  ℕ, zero, suc, ◌+◌, ◌-◌, ◌%◌, List, [], ◌∷◌, Bool, true, false, ltb, ◌==◌, if◌then◌else◌, length,
  sub32, ltb_signed, update, Outcome, done, fault, out_of_bounds, ◌>>=◌,
}
use octave_os.Str.{Bytes, text_from}
use octave_os.Number.{strlen, itoa}
use octave_os.Kernel.{Kernel, put_char, print}

pub data Argument : Type 0 where
  word : ℕ → Argument
  string : List ℕ → Argument

-- The bytes of the array of 64 from `a` up to the NUL: what `puts` of such an array prints.
abbrev pub conv_text : Bytes → (a : ℕ) → List ℕ
conv_text conv_buf a = text_from conv_buf a 64

-- `while (i < 8)`, with `n` rounds left.
unfoldable pub fill_zeros : (n i : ℕ) → Bytes → Bytes
fill_zeros zero i s = s
fill_zeros (suc n) i s = fill_zeros n (i + 1) (update s i b'0')

-- `%x`, with the alternate form where the flag is set: eight digits.
unfoldable pub convert_hex : (stack : Bytes) → (alternate : Bool) → (value : ℕ) → Outcome (List ℕ)
unfolding fill_zeros
convert_hex stack false v = itoa v stack 0 16 >>= λ s. done (conv_text s 0)
convert_hex stack true v =
    itoa v stack 8 16 >>= λ s. strlen 56 s 8 >>= λ n. done (conv_text (fill_zeros (8 - n) n s) n)

-- `%d`; `-value` wraps.
unfoldable pub convert_signed : (stack : Bytes) → (value : ℕ) → Outcome (List ℕ)
convert_signed stack v =
    let negative = itoa (sub32 0 v) (update stack 0 b'-') 1 10 >>= λ s. done (conv_text s 0) in
    let positive = itoa v stack 0 10 >>= λ s. done (conv_text s 0) in
    if ltb_signed v 0 then negative else positive

-- The conversions that take a word.
unfoldable pub convert_word :
    (stack : Bytes) → (alternate : Bool) → (specifier value : ℕ) → Kernel → Outcome Kernel
unfolding convert_hex convert_signed
convert_word stack alternate c v k =
    let hex = convert_hex stack alternate v >>= λ cs. done (print cs k) in
    let unsigned = itoa v stack 0 10 >>= λ s. done (print (conv_text s 0) k) in
    let signed = convert_signed stack v >>= λ cs. done (print cs k) in
    if c == b'x'
    then hex
    else if c == b'u'
    then unsigned
    else if c == b'd'
    then signed
    else done (put_char (v % 256) k)

abbrev pub takes_word : ℕ → Bool
takes_word c =
    if c == b'x' then true else if c == b'u' then true else if c == b'd' then true else c == b'c'

-- The inner `switch`, on a specifier other than `#`: what is left of the arguments.
unfoldable pub convert :
    (stack : Bytes)
    → (alternate : Bool) → (specifier : ℕ) → List Argument
    → Kernel
    → Outcome (List Argument × Kernel)
unfolding convert_word
convert stack alternate c [] k =
    if c == b'%'
    then done ([], put_char b'%' k)
    else if takes_word c
    then fault out_of_bounds
    else if c == b's'
    then fault out_of_bounds
    else done ([], k)
convert stack alternate c (word v ∷ args) k =
    let converted = convert_word stack alternate c v k >>= λ k'. done (args, k') in
    if c == b'%'
    then done (word v ∷ args, put_char b'%' k)
    else if takes_word c
    then converted
    else if c == b's'
    then fault out_of_bounds
    else done (word v ∷ args, k)
convert stack alternate c (string cs ∷ args) k =
    if c == b'%'
    then done (string cs ∷ args, put_char b'%' k)
    else if takes_word c
    then fault out_of_bounds
    else if c == b's'
    then done (args, print cs k)
    else done (string cs ∷ args, k)

-- Where the loop stands: before a byte of the text, or behind a `%` and the `#` that followed.
pub data Mode : Type 0 where
  plain : Mode
  conversion : (alternate : Bool) → Mode

-- `while (*buf != '\0')` and the jump back to `format_char_switch`. Behind a `%` at the end of the
-- format the code steps over the NUL.
unfoldable pub printf_loop :
    (stack : Bytes) → Mode → List ℕ → List Argument → Kernel → Outcome Kernel
unfolding convert
printf_loop stack plain [] args k = done k
printf_loop stack (conversion alternate) [] args k = fault out_of_bounds
printf_loop stack plain (c ∷ cs) args k =
    let next = if c == b'%' then conversion false else plain in
    printf_loop stack next cs args (if c == b'%' then k else put_char c k)
printf_loop stack (conversion alternate) (c ∷ cs) args k =
    let again = printf_loop stack (conversion true) cs args k in
    let next =
      convert stack alternate c args k >>= λ (args', k'). printf_loop stack plain cs args' k' in
    if c == b'#' then again else next

-- The value returned is the length of the format.
unfoldable pub printf : (stack : Bytes) → List ℕ → List Argument → Kernel → Outcome (ℕ × Kernel)
unfolding printf_loop
printf stack format args k =
    printf_loop stack plain format args k >>= λ k'. done (length format, k')
