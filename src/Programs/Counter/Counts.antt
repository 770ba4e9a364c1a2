-- ===== src/Programs/Counter/Counts.antt =====
-- What syscalls/ece391counter.c prints: the numbers up to the one that was chosen.
use octave_os.Base.{
  ℕ, zero, suc, ◌+◌, ◌^◌, ◌<◌, ◌≤◌, ◌≡◌, ◌≢◌, refl, ◌∙◌, ap, sym, arith, List, [], ◌∷◌, ◌++◌, true,
  false, ◌⊎◌, ◌==◌, if◌then◌else◌, get_or, length, minus_one, nonzero, Outcome, done, ◌>>=◌,
}
use octave_os.Str.{Bytes, codes, as_bytes}
use octave_os.Console.{puts}
use octave_os.FileSys.{read_range}
use octave_os.Kernel.{Kernel, print}
use octave_os.Keyboard.Line.{line}
use octave_os.Number.Reverse.{IsString}
use octave_os.Number.Digits.{numeral, length-numeral}
use octave_os.Number.Itoa.{itoa-Printed}
use octave_os.Printf.Pieces.Converted.{text_from-IsString, IsString-tail}
use octave_os.Printf.Pieces.Rendered.{print-append}
use octave_os.Terminal.{line_taken}
use octave_os.Terminal.Line.{reader}
use octave_os.Syscalls.{system_read}
use octave_os.Programs.{fdputs, leave, before_nul}
use octave_os.Programs.Support.Same.{itoa_same}
use octave_os.Programs.Output.{HasScreen, HasScreen-print, fdputs-text, without_nuls}
use octave_os.Programs.Input.{
  HasLine, HasLine-print, line-print, system_read-line, HasScreen-line_taken,
}
use octave_os.Programs.Counter.{buf_text, count_loop, choice, is_wrong, counter}

-- `m` numbers from `i + 1` on, each on a line.
unfoldable pub count_text : (m i : ℕ) → List ℕ
count_text zero i = []
count_text (suc m) i = numeral 10 (i + 1) ++ (10 ∷ count_text m (i + 1))

without_nuls-IsString :
    (s : Bytes) (a n : ℕ) → IsString s a n → without_nuls (read_range s a n) ≡ read_range s a n
unfolding without_nuls read_range
without_nuls-IsString s a zero h = refl
without_nuls-IsString s a (suc n) h =
    let here : nonzero (s a) ≡ true =
      is_nonzero (s a) (λ z. h.bytes 0 (omega arith) (ap s (omega arith) ∙ z)) in
    rw here (ap (λ cs. s a ∷ cs) (without_nuls-IsString s (a + 1) n (IsString-tail s a n h)))
  where
    is_nonzero : (c : ℕ) → c ≢ 0 → nonzero c ≡ true
    is_nonzero zero ne = absurd (ne refl)
    is_nonzero (suc c) ne = refl

module _ (inb : ℕ) where
  -- One number: the conversion, and the two writes.
  count_round :
      (i m : ℕ) (s : Bytes) (k : Kernel)
      → HasScreen k
      → i + 1 < 2 ^ 32
      → (s' : Bytes) × (count_loop inb (suc m) i s k
          ≡ count_loop inb m (i + 1) s' (print (10 ∷ []) (print (numeral 10 (i + 1)) k)))
  unfolding count_loop without_nuls
  count_round i m s k h small =
      let (s', run, p) = itoa-Printed (i + 1) 10 s 0 (omega arith) (omega arith) small in
      let cs = numeral 10 (i + 1) in
      let short : length cs ≤ 32 = length-numeral 10 (i + 1) (omega arith) small in
      let text : buf_text s' ≡ cs =
        text_from-IsString s' 0 (length cs) 1024 p.string (omega arith) ∙ p.text in
      let plain : without_nuls cs ≡ cs =
        ap without_nuls (sym p.text) ∙ without_nuls-IsString s' 0 (length cs) p.string ∙ p.text in
      let k1 = print cs k in
      (
        s',
        ap (λ o. o >>= λ s'. written s') (itoa_same (i + 1) s 0 10 ∙ run)
            ∙ ap (λ t. fdputs inb 1 t k >>= λ k1. ended s' k1) text
            ∙ ap (λ o. o >>= λ k1. ended s' k1) (fdputs-text inb cs k h (omega arith) plain)
            ∙ ap (λ o. o >>= λ k2. count_loop inb m (i + 1) s' k2)
                (fdputs-text inb (10 ∷ []) k1 (HasScreen-print cs k h) (omega arith) refl),
      )
    where
      ended : Bytes → Kernel → Outcome Kernel
      ended s' k1 = fdputs inb 1 (10 ∷ []) k1 >>= λ k2. count_loop inb m (i + 1) s' k2

      written : Bytes → Outcome Kernel
      written s' = fdputs inb 1 (buf_text s') k >>= λ k1. ended s' k1

  count_loop-text :
      (m i : ℕ) (s : Bytes) (k : Kernel)
      → HasScreen k
      → i + m < 2 ^ 32
      → count_loop inb m i s k ≡ done (print (count_text m i) k)
  unfolding count_loop count_text puts
  count_loop-text zero i s k h small = refl
  count_loop-text (suc m) i s k h small =
      let (s', run) = count_round i m s k h (omega arith) in
      let cs = numeral 10 (i + 1) in
      let k1 = print cs k in
      let k2 = print (10 ∷ []) k1 in
      let h2 = HasScreen-print (10 ∷ []) k1 (HasScreen-print cs k h) in
      run
      ∙ count_loop-text m (i + 1) s' k2 h2 (omega arith)
      ∙ ap done (
          sym (print-append (10 ∷ []) (count_text m (i + 1)) k1)
          ∙ sym (print-append cs (10 ∷ count_text m (i + 1)) k))

abbrev pub question : List ℕ
question = codes "Enter the Test Number: (0): 100, (1): 10000, (2): 100000\n"

-- `counter` of a process that has its screen open and whose line was entered, a digit from 0 to 2 and
-- the line break, returns 0: it prints its question, takes the line, and prints the numbers from 1 to
-- 100 for the digit 0, to 10000 for 1 and to 100000 for 2, in order, each in decimal on its own line.
pub counter-counts :
    (inb n buf c m : ℕ) (k : Kernel)
    → HasScreen k
    → HasLine k
    → before_nul (line (reader k)) ≡ c ∷ 10 ∷ []
    → ((c ≡ b'0') × (m ≡ 100)) ⊎ ((c ≡ b'1') × (m ≡ 10000)) ⊎ ((c ≡ b'2') × (m ≡ 100000))
    → counter inb n buf k ≡ done (0, print (count_text m 0) (line_taken (print question k)))
unfolding counter without_nuls
counter-counts inb n buf c m k s l is_line which =
    let k1 = print question k in
    let l1 = HasLine-print question k l in
    let k2 = line_taken k1 in
    let s2 = HasScreen-line_taken k1 (HasScreen-print question k s) in
    let small : ((reader k1).buflen == minus_one) ≡ false = ground (arith, l1.fits) in
    let same : before_nul (line (reader k1)) ≡ c ∷ 10 ∷ [] =
      ap before_nul (line-print question k) ∙ is_line in
    let right : is_wrong (c ∷ 10 ∷ []) ≡ false = ground arith in
    let chosen_number : choice c ≡ m = ground arith in
    let few : choice c < 2 ^ 32 = ground arith in
    ap (λ o. o >>= λ k1. asked k1) (fdputs-text inb question k s (omega arith) refl)
    ∙ ap (λ o. o >>= λ r. answered r) (system_read-line n buf k1 l1)
    ∙ rw small (
        ap (λ t. chosen t (line (reader k1)) k2) same
        ∙ ap
            (λ b.
              if b
              then leave inb (codes "Wrong Choice!\n") 0 k2
              else counted c (line (reader k1)) k2)
            right
        ∙ ap (λ o. o >>= λ k3. done (0, k3))
            (count_loop-text inb (choice c) 0 (as_bytes (line (reader k1))) k2 s2 (omega arith))
        ∙ ap (λ m. done (0, print (count_text m 0) k2)) chosen_number)
  where
    counted : ℕ → List ℕ → Kernel → Outcome (ℕ × Kernel)
    counted c out k2 = count_loop inb (choice c) 0 (as_bytes out) k2 >>= λ k3. done (0, k3)

    chosen : List ℕ → List ℕ → Kernel → Outcome (ℕ × Kernel)
    chosen s out k2 =
        let wrong = leave inb (codes "Wrong Choice!\n") 0 k2 in
        if is_wrong s then wrong else counted (get_or s 0 0) out k2

    answered : ℕ × List ℕ × Kernel → Outcome (ℕ × Kernel)
    answered (cnt, out, k2) =
        let failed = leave inb (codes "Can't read the number from keyboard.\n") 3 k2 in
        if cnt == minus_one then failed else chosen (before_nul out) out k2

    asked : Kernel → Outcome (ℕ × Kernel)
    asked k1 = system_read n 0 buf 1023 k1 >>= λ r. answered r
