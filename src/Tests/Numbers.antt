-- ===== src/Tests/Numbers.antt =====
-- Numbers, `printf`, the moves of memory and the interrupt descriptor table.
use octave_os.Base.{List, ℕ, ◌+◌, ◌<◌, ◌≡◌, ◌⊎◌, arith, [], ◌∷◌, done, length, some}
use octave_os.Str.{Bytes, codes}
use octave_os.FileSys.{read_range}
use octave_os.Kernel.{print}
use octave_os.Number.{itoa}
use octave_os.Number.Reverse.{IsString}
use octave_os.Number.Digits.{number}
use octave_os.Number.Itoa.{number-itoa}
use octave_os.Idt.{Idt, Handler, system_handler, set_idt}
use octave_os.Idt.Gates.{IsGate, handler_of, set_idt-IsGate}
use octave_os.Printf.{printf}
use octave_os.Printf.Pieces.{
  ArePieces, IsPiece, Piece, literal, aligned, text_of, formats, arguments, texts,
}
use octave_os.Printf.Pieces.Rendered.{printf-texts}
use octave_os.Programs.Support.{ece391_itoa}
use octave_os.Programs.Support.Same.{itoa_same}
use octave_os.Tests.Data.{kernel}

abbrev zeros : Bytes
zeros i = 0

number-itoa_example :
    (n : ℕ) × (s' : Bytes) × (itoa 255 zeros 8 16 ≡ done s')
    × IsString s' 8 n
    × (number 16 (read_range s' 8 n) ≡ 255)
    × ((j : ℕ) → (j < 8) ⊎ (8 + n < j) → s' j ≡ 0)
number-itoa_example = number-itoa 255 16 zeros 8 (omega arith) (omega arith) (omega arith)

abbrev pieces : List Piece
pieces = literal b'p' ∷ aligned 14 ∷ text_of (codes "ok") ∷ []

printf-texts_example :
    printf zeros (formats pieces) (arguments pieces) kernel
    ≡ done (length (formats pieces), print (texts pieces) kernel)
unfolding ArePieces IsPiece
printf-texts_example = printf-texts zeros pieces kernel (λ e. omega arith, (omega arith, (tt, tt)))

abbrev linked : Handler → ℕ
linked h = 0x401234

abbrev no_gates : Idt
no_gates i = record {
  offset_15_00 = 0;
  seg_selector = 0;
  reserved4 = 0;
  reserved3 = 0;
  reserved2 = 0;
  reserved1 = 0;
  size = 0;
  reserved0 = 0;
  dpl = 0;
  present = 0;
  offset_31_16 = 0;
}

set_idt-IsGate_example : IsGate linked 0x80 (some system_handler) (set_idt linked no_gates 0x80)
unfolding handler_of
set_idt-IsGate_example = set_idt-IsGate linked (λ h e. omega arith) no_gates 0x80 (omega arith)

itoa_same_example : ece391_itoa 255 zeros 8 16 ≡ itoa 255 zeros 8 16
itoa_same_example = itoa_same 255 zeros 8 16
