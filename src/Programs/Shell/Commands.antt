-- ===== src/Programs/Shell/Commands.antt =====
-- What a round of syscalls/ece391shell.c does with the line that was entered.
use mathlib.Core.Path.{ap₂, subst}
use native.Mathlib.Decide.{ℕ_discrete}
use octave_os.Base.{
  ℕ, suc, ◌+◌, ◌<◌, ◌≡◌, ◌≢◌, ◌↔◌, refl, ◌∙◌, ap, sym, arith, List, [], ◌∷◌, true, false, ◌==◌,
  if◌then◌else◌, get_or, length, minus_one, sub32, Outcome, done, ◌>>=◌, ◌⊎◌, inl, inr,
}
use octave_os.Console.{puts}
use octave_os.Str.{Bytes, codes, as_bytes}
use octave_os.Kernel.{Kernel, print}
use octave_os.Keyboard.Line.{line}
use octave_os.Terminal.{line_taken}
use octave_os.Terminal.Line.{reader}
use octave_os.Syscalls.{system_read}
use octave_os.Programs.{leave, before_nul}
use octave_os.Programs.Support.{ece391_strcmp}
use octave_os.Programs.Output.{HasScreen, HasScreen-print, fdputs-text, without_nuls}
use octave_os.Programs.Input.{HasLine, HasLine-print, line-print, system_read-line}
use octave_os.Programs.Shell.{without_break, report, run_command, shell_loop}

-- Bytes without a NUL among them.
unfoldable pub IsText : List ℕ → Type 0
IsText [] = Unit
IsText (c ∷ cs) = (c ≢ 0) × (c < 256) × IsText cs

abbrev tail : List ℕ → List ℕ
tail [] = []
tail (c ∷ cs) = cs

-- `ece391_strcmp` of two strings, at `a` and `b`, tells whether they are the same.
strcmp-lists :
    (xs ys : List ℕ) (s1 s2 : Bytes) (a b : ℕ)
    → ((i : ℕ) → s1 (a + i) ≡ get_or xs i 0)
    → ((i : ℕ) → s2 (b + i) ≡ get_or ys i 0)
    → IsText xs
    → IsText ys
    → (m : ℕ) × (ece391_strcmp (suc (length xs)) s1 s2 a b ≡ done m) × ((m ≡ 0) ↔ (xs ≡ ys))
unfolding ece391_strcmp IsText
strcmp-lists [] [] s1 s2 a b h g t u =
    let e1 : s1 a ≡ 0 = ap s1 (omega arith) ∙ h 0 in
    let e2 : s2 b ≡ 0 = ap s2 (omega arith) ∙ g 0 in (0, rw (e1, e2) refl, (λ z. refl, λ z. refl))
strcmp-lists [] (y ∷ ys) s1 s2 a b h g t (u, v, w) =
    let e1 : s1 a ≡ 0 = ap s1 (omega arith) ∙ h 0 in
    let e2 : s2 b ≡ y = ap s2 (omega arith) ∙ g 0 in
    let differ : (0 == y) ≡ false = ground arith in
    (
      sub32 0 y,
      rw (e1, e2) (rw differ refl),
      (λ z. absurd (u (omega arith)), λ z. absurd (omega (arith, ap length z))),
    )
strcmp-lists (x ∷ xs) [] s1 s2 a b h g (t, v, w) u =
    let e1 : s1 a ≡ x = ap s1 (omega arith) ∙ h 0 in
    let e2 : s2 b ≡ 0 = ap s2 (omega arith) ∙ g 0 in
    let differ : (x == 0) ≡ false = ground arith in
    (
      sub32 x 0,
      rw (e1, e2) (rw differ refl),
      (λ z. absurd (t (omega arith)), λ z. absurd (omega (arith, ap length z))),
    )
strcmp-lists (x ∷ xs) (y ∷ ys) s1 s2 a b h g (t, v, w) (t', v', w') =
    let e1 : s1 a ≡ x = ap s1 (omega arith) ∙ h 0 in
    let e2 : s2 b ≡ y = ap s2 (omega arith) ∙ g 0 in
    elim (ℕ_discrete x y) [
      | yes e ↦
          let (m, run, iff) =
            strcmp-lists xs ys s1 s2 (a + 1) (b + 1) (λ i. ap s1 (omega arith) ∙ h (suc i))
              (λ i. ap s2 (omega arith) ∙ g (suc i)) w w' in
          let same : (s1 a == s2 b) ≡ true = ground arith in
          let more : (s1 a == 0) ≡ false = ground arith in
          (m, rw (same, more) run, (λ z. ap₂ ◌∷◌ e (iff.0 z), λ z. iff.1 (ap tail z)))
      | no ne ↦
          let differ : (s1 a == s2 b) ≡ false = ground arith in
          (
            sub32 x y,
            rw differ (ap₂ (λ c d. done (sub32 c d)) e1 e2),
            (λ z. absurd (ne (omega arith)), λ z. absurd (ne (ap (λ l. get_or l 0 0) z))),
          )
    ]

exit-IsText : IsText (codes "exit")
unfolding IsText
exit-IsText =
    let last : IsText (codes "t") = (λ e. omega arith, omega arith, tt) in
    let it : IsText (codes "it") = (λ e. omega arith, omega arith, last) in
    let xit : IsText (codes "xit") = (λ e. omega arith, omega arith, it) in
    (λ e. omega arith, omega arith, xit)

-- The command in the line that was entered, and the kernel behind the prompt and the read.
abbrev pub command_of : Kernel → List ℕ
command_of k = before_nul (without_break (line (reader k)))

abbrev pub asked_in : Kernel → Kernel
asked_in k = line_taken (print (codes "391OS> ") k)

module _ (inb n buf : ℕ) (execute : List ℕ → Kernel → Outcome (ℕ × Kernel)) (f : ℕ) (k : Kernel)
    (s : HasScreen k) (l : HasLine k) where
  abbrev prompt : List ℕ
  prompt = codes "391OS> "

  abbrev command : List ℕ
  command = before_nul (without_break (line (reader k)))

  abbrev asked : Kernel
  asked = line_taken (print prompt k)

  shell_loop-run_command :
      shell_loop inb n buf execute (suc f) k
      ≡ run_command inb n buf execute (shell_loop inb n buf execute f) command asked
  unfolding shell_loop without_nuls
  shell_loop-run_command =
      let k1 = print prompt k in
      let l1 = HasLine-print prompt k l in
      let small : ((reader k1).buflen == minus_one) ≡ false = ground (arith, l1.fits) in
      ap (λ o. o >>= λ k1. read_from k1) (fdputs-text inb prompt k s (omega arith) refl)
      ∙ ap (λ o. o >>= λ r. answered r) (system_read-line n buf k1 l1)
      ∙ rw small (
          ap
            (λ t.
              run_command inb n buf execute (shell_loop inb n buf execute f)
                (before_nul (without_break t)) (line_taken k1))
            (line-print prompt k))
    where
      answered : ℕ × List ℕ × Kernel → Outcome (ℕ × Kernel)
      answered (cnt, out, k2) =
          let failed = leave inb (codes "read from keyboard failed\n") 3 k2 in
          let run =
            run_command inb n buf execute (shell_loop inb n buf execute f)
              (before_nul (without_break out)) k2 in
          if cnt == minus_one then failed else run

      read_from : Kernel → Outcome (ℕ × Kernel)
      read_from k1 = system_read n 0 buf 1023 k1 >>= λ r. answered r

  -- How the command compares with the one that ends the shell.
  command-strcmp :
      IsText command
      → (m : ℕ) × (ece391_strcmp
            (length command + 1)
            (as_bytes command)
            (as_bytes (codes "exit"))
            0
            0
          ≡ done m)
        × ((m ≡ 0) ↔ (command ≡ codes "exit"))
  command-strcmp t =
      let (m, run, iff) =
        strcmp-lists command (codes "exit") (as_bytes command) (as_bytes (codes "exit")) 0 0
          (λ i. ap (as_bytes command) (omega arith))
          (λ i. ap (as_bytes (codes "exit")) (omega arith)) t exit-IsText in
      (
        m,
        ap (λ fuel. ece391_strcmp fuel (as_bytes command) (as_bytes (codes "exit")) 0 0)
              (omega arith)
            ∙ run,
        iff,
      )

  abbrev compared : Outcome ℕ → Outcome (ℕ × Kernel)
  compared o = o >>= λ c.
      (let run = execute command asked >>= λ (rval, k1).
      report inb rval k1 >>= λ k2. shell_loop inb n buf execute f k2 in
        if c == 0
        then done (0, asked)
        else if get_or command 0 0 == 0
        then shell_loop inb n buf execute f asked
        else run)

  -- The shell ends with 0 on the command "exit".
  shell_loop-exit :
      IsText command
      → command ≡ codes "exit"
      → shell_loop inb n buf execute (suc f) k ≡ done (0, asked)
  unfolding run_command
  shell_loop-exit t e =
      let (m, run, iff) = command-strcmp t in
      let zero_found : m ≡ 0 = iff.1 e in
      shell_loop-run_command ∙ ap compared (run ∙ ap done zero_found)

  -- On any other the command is executed and the shell goes on.
  shell_loop-execute :
      IsText command
      → command ≢ codes "exit"
      → get_or command 0 0 ≢ 0
      → shell_loop inb n buf execute (suc f) k
        ≡ execute command asked >>= λ (rval, k1).
            report inb rval k1 >>= λ k2. shell_loop inb n buf execute f k2
  unfolding run_command
  shell_loop-execute t other some =
      let (m, run, iff) = command-strcmp t in
      let ne : m ≢ 0 = λ z. other (iff.0 z) in
      let differs : (m == 0) ≡ false = ground arith in
      let given : (get_or command 0 0 == 0) ≡ false = ground arith in
      shell_loop-run_command ∙ ap compared run ∙ rw differs (rw given refl)

-- What the shell prints about the value that a command came to.
abbrev pub Reports : (rval : ℕ) → List ℕ → Type 0
Reports rval cs =
    ((rval ≡ minus_one) × (cs ≡ codes "no such command\n"))
    ⊎ ((rval ≡ 256) × (cs ≡ codes "program terminated by exception\n"))
    ⊎ ((rval ≡ 0) × (cs ≡ []))
    ⊎ ((rval ≢ minus_one)
        × (rval ≢ 256)
        × (rval ≢ 0)
        × (cs ≡ codes "program terminated abnormally\n"))

report-Reports :
    (inb rval : ℕ) (cs : List ℕ) (k : Kernel)
    → HasScreen k
    → Reports rval cs
    → report inb rval k ≡ done (print cs k)
unfolding report without_nuls puts
report-Reports inb rval cs k s (inl (e, f)) =
    rw (e, f) (fdputs-text inb (codes "no such command\n") k s (omega arith) refl)
report-Reports inb rval cs k s (inr (inl (e, f))) =
    rw (e, f) (fdputs-text inb (codes "program terminated by exception\n") k s (omega arith) refl)
report-Reports inb rval cs k s (inr (inr (inl (e, f)))) = rw (e, f) refl
report-Reports inb rval cs k s (inr (inr (inr (a, b, c, f)))) =
    let known : (rval == minus_one) ≡ false = ground arith in
    let own : (rval == 256) ≡ false = ground arith in
    let failed : (rval == 0) ≡ false = ground arith in
    rw (known, own)
      (rw (failed, f)
        (fdputs-text inb (codes "program terminated abnormally\n") k s (omega arith) refl))

-- A session of two commands. The first, a text that is neither empty nor "exit", is executed, and what
-- it came to is reported: -1 as a command that there is not, 256 as an exception, 0 not at all, and any
-- other value as an abnormal end, each in the shell's words. Where "exit" is entered next the shell
-- takes that line too and ends with status 0. The process has its screen open and a line entered in
-- both rounds, and its screen open after the command.
pub shell_loop-session :
    (inb n buf : ℕ) (execute : List ℕ → Kernel → Outcome (ℕ × Kernel)) (f : ℕ) (k k1 : Kernel)
    (rval : ℕ) (cs : List ℕ)
    → HasScreen k
    → HasLine k
    → IsText (command_of k)
    → command_of k ≢ codes "exit"
    → get_or (command_of k) 0 0 ≢ 0
    → execute (command_of k) (asked_in k) ≡ done (rval, k1)
    → Reports rval cs
    → HasScreen k1
    → HasLine k1
    → command_of k1 ≡ codes "exit"
    → shell_loop inb n buf execute (suc (suc f)) k ≡ done (0, asked_in (print cs k1))
shell_loop-session inb n buf execute f k k1 rval cs s l t other some ran says s1 l1 exit_next =
    let k2 = print cs k1 in
    let told = report-Reports inb rval cs k1 s1 says in
    let s2 = HasScreen-print cs k1 s1 in
    let l2 = HasLine-print cs k1 l1 in
    let exit : command_of k2 ≡ codes "exit" =
      ap (λ t. before_nul (without_break t)) (line-print cs k1) ∙ exit_next in
    shell_loop-execute inb n buf execute (suc f) k s l t other some
    ∙ ap
        (λ o.
          o >>= λ (rval, k1). report inb rval k1 >>= λ k2. shell_loop inb n buf execute (suc f) k2)
        ran
    ∙ ap (λ o. o >>= λ k2. shell_loop inb n buf execute (suc f) k2) told
    ∙ shell_loop-exit inb n buf execute f k2 s2 l2 (subst IsText (sym exit) exit-IsText) exit
