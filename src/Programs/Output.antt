-- ===== src/Programs/Output.antt =====
-- Output of the user programs of syscalls/: what `ece391_fdputs` comes to on a kernel whose running
-- process has its screen open.
use mathlib.Core.Path.{ap₂}
use octave_os.Base.{
  ℕ, zero, suc, ◌+◌, ◌^◌, ◌<◌, ◌≤◌, ◌≡◌, refl, ◌∙◌, ap, arith, List, [], ◌∷◌, some, false, leb,
  ◌==◌, ◌||◌, if◌then◌else◌, length, get_or, Bool-cases, inl, inr, ltb_signed, done, ◌>>=◌, nonzero,
}
use octave_os.Str.{Bytes, as_bytes}
use octave_os.FileSys.{read_range, rounds}
use octave_os.Screen.{Screen}
use octave_os.Console.{puts, putc}
use octave_os.Kernel.{stdout, Kernel, file_open, file_not_open, file_array_size, put_char, print}
use octave_os.Console.Keys.{SameKeys, SameKeys-trans, putc-SameKeys}
use octave_os.Files.Descriptors.{entry}
use octave_os.Terminal.{write_chars, term_write}
use octave_os.Syscalls.{with_entry, system_write, system_read, call_read}
use octave_os.Programs.{fdputs, leave}

-- Descriptor 1 is the screen, as `initialize_stdio` leaves it.
pub record HasScreen (k : Kernel) : Type 0 where
  pub opened : (entry k 1).flags ≡ file_open
  pub jumps : (entry k 1).file_op_table_ptr ≡ stdout

-- The bytes other than 0.
unfoldable pub without_nuls : List ℕ → List ℕ
without_nuls [] = []
without_nuls (c ∷ cs) = let rest = without_nuls cs in if nonzero c then c ∷ rest else rest

write_chars-print :
    (buf : Bytes) (i n : ℕ) (k : Kernel)
    → write_chars buf i n k ≡ print (without_nuls (read_range buf i n)) k
unfolding write_chars without_nuls read_range puts
write_chars-print buf i zero k = refl
write_chars-print buf i (suc n) k = elim (Bool-cases (nonzero (buf i))) [
  | inl e ↦ rw e (write_chars-print buf (i + 1) n (put_char (buf i) k))
  | inr e ↦ rw e (write_chars-print buf (i + 1) n k)
]

-- `ece391_write` to the screen.
pub system_write-print :
    (inb : ℕ) (buf : Bytes) (n : ℕ) (k : Kernel)
    → HasScreen k
    → n < 2 ^ 31
    → system_write inb 1 (some buf) n k ≡ done (n, print (without_nuls (read_range buf 0 n)) k)
unfolding system_write with_entry term_write
system_write-print inb buf n k h small =
    let opened : ((entry k 1).flags == file_not_open) ≡ false = ground (arith, h.opened) in
    let count : rounds n ≡ n = ground arith in
    rw (opened, h.jumps, count) (ap (λ k'. done (n, k')) (write_chars-print buf 0 n k))

read_range-get_or :
    (cs : List ℕ) (f : Bytes) (a : ℕ)
    → ((i : ℕ) → i < length cs → f (a + i) ≡ get_or cs i 0)
    → read_range f a (length cs) ≡ cs
unfolding read_range
read_range-get_or [] f a h = refl
read_range-get_or (c ∷ cs) f a h =
    ap₂ ◌∷◌ (ap f (omega arith) ∙ h 0 (omega arith))
      (read_range-get_or cs f (a + 1) (λ i l. ap f (omega arith) ∙ h (suc i) (omega arith)))

pub read_range-as_bytes : (cs : List ℕ) → read_range (as_bytes cs) 0 (length cs) ≡ cs
read_range-as_bytes cs =
    read_range-get_or cs (as_bytes cs) 0 (λ i l. ap (as_bytes cs) (omega arith))

-- `ece391_fdputs` to the screen prints the string.
pub fdputs-print :
    (inb : ℕ) (s : List ℕ) (k : Kernel)
    → HasScreen k
    → length s < 2 ^ 31
    → fdputs inb 1 s k ≡ done (print (without_nuls s) k)
unfolding fdputs
fdputs-print inb s k h small =
    ap (λ o. o >>= λ (r, k'). done k') (system_write-print inb (as_bytes s) (length s) k h small)
    ∙ ap (λ cs. done (print (without_nuls cs) k)) (read_range-as_bytes s)

-- And a string that no NUL cuts is printed whole.
pub fdputs-text :
    (inb : ℕ) (s : List ℕ) (k : Kernel)
    → HasScreen k
    → length s < 2 ^ 31
    → without_nuls s ≡ s
    → fdputs inb 1 s k ≡ done (print s k)
fdputs-text inb s k h small e = fdputs-print inb s k h small ∙ ap (λ cs. done (print cs k)) e

pub leave-text :
    (inb : ℕ) (s : List ℕ) (status : ℕ) (k : Kernel)
    → HasScreen k
    → length s < 2 ^ 31
    → without_nuls s ≡ s
    → leave inb s status k ≡ done (status, print s k)
unfolding leave
leave-text inb s status k h small e =
    ap (λ o. o >>= λ k'. done (status, k')) (fdputs-text inb s k h small e)

pub HasScreen-print : (cs : List ℕ) (k : Kernel) → HasScreen k → HasScreen (print cs k)
HasScreen-print cs k h = record { opened = h.opened; jumps = h.jumps }

-- Printing leaves what was typed.
pub puts-SameKeys : (cs : List ℕ) (t u : ℕ) (s : Screen) → SameKeys t s (puts cs u s)
unfolding puts
puts-SameKeys [] t u s = record { keybuf = refl; buflen = refl; enter_pressed = refl }
puts-SameKeys (c ∷ cs) t u s =
    SameKeys-trans t s (putc c u s) (puts cs u (putc c u s)) (putc-SameKeys t c u s)
      (puts-SameKeys cs t u (putc c u s))

-- The calls on a descriptor that is open, through its jump table.
pub system_read-call_read :
    (n fd buf nbytes : ℕ) (k : Kernel)
    → 2 ≤ fd
    → fd < file_array_size
    → (entry k fd).flags ≡ file_open
    → system_read n fd buf nbytes k ≡ call_read (entry k fd).file_op_table_ptr n fd buf nbytes k
unfolding system_read with_entry
system_read-call_read n fd buf nbytes k lo hi h =
    let passes : (ltb_signed file_array_size fd || ltb_signed fd 0 || (fd == 1)) ≡ false =
      ground arith in
    let inside : leb file_array_size fd ≡ false = ground arith in rw passes (rw inside (rw h refl))
