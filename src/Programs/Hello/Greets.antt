-- ===== src/Programs/Hello/Greets.antt =====
-- What syscalls/ece391hello.c does with the line that was entered.
use octave_os.Base.{
  ℕ, ◌≡◌, ◌∙◌, ap, arith, refl, false, ◌==◌, if◌then◌else◌, minus_one, Outcome, done, ◌>>=◌, List,
}
use octave_os.Str.{codes}
use octave_os.Kernel.{Kernel, print}
use octave_os.Keyboard.Line.{line}
use octave_os.Terminal.{line_taken}
use octave_os.Terminal.Line.{reader}
use octave_os.Syscalls.{system_read}
use octave_os.Programs.{fdputs, leave, before_nul}
use octave_os.Programs.Output.{HasScreen, HasScreen-print, fdputs-text, leave-text, without_nuls}
use octave_os.Programs.Input.{
  HasLine, HasLine-print, line-print, system_read-line, without_nuls-before_nul, length-line,
  HasScreen-line_taken,
}
use octave_os.Programs.Hello.{hello}

abbrev pub question : List ℕ
question = codes "Hi, what's your name? "

-- `hello` of a process that has its screen open and whose line was entered returns 0: it prints its
-- question, takes the line, and prints the greeting and the line up to its first NUL.
pub hello-greets :
    (inb n buf : ℕ) (k : Kernel)
    → HasScreen k
    → HasLine k
    → hello inb n buf k
      ≡ done (
        0,
        print
            (before_nul (line (reader k)))
            (print (codes "Hello, ") (line_taken (print question k))),
      )
unfolding hello without_nuls
hello-greets inb n buf k s l =
    let k1 = print question k in
    let s1 = HasScreen-print question k s in
    let l1 = HasLine-print question k l in
    let k2 = line_taken k1 in
    let s2 = HasScreen-line_taken k1 s1 in
    let k3 = print (codes "Hello, ") k2 in
    let s3 = HasScreen-print (codes "Hello, ") k2 s2 in
    let name = before_nul (line (reader k1)) in
    let small : ((reader k1).buflen == minus_one) ≡ false = ground (arith, l1.fits) in
    let short = length-line k1 l1 in
    ap (λ o. o >>= λ k1. asked k1) (fdputs-text inb question k s (omega arith) refl)
    ∙ ap (λ o. o >>= λ r. answered r) (system_read-line n buf k1 l1)
    ∙ rw small (
        ap (λ o. o >>= λ k3. leave inb name 0 k3)
          (fdputs-text inb (codes "Hello, ") k2 s2 (omega arith) refl))
    ∙ leave-text inb name 0 k3 s3 (omega arith) (without_nuls-before_nul (line (reader k1)))
    ∙ ap (λ t. done (0, print (before_nul t) k3)) (line-print question k)
  where
    answered : ℕ × List ℕ × Kernel → Outcome (ℕ × Kernel)
    answered (cnt, out, k2) =
        let failed = leave inb (codes "Can't read name from keyboard.\n") 3 k2 in
        let greeted = fdputs inb 1 (codes "Hello, ") k2 >>= λ k3. leave inb (before_nul out) 0 k3 in
        if cnt == minus_one then failed else greeted

    asked : Kernel → Outcome (ℕ × Kernel)
    asked k1 = system_read n 0 buf 1023 k1 >>= λ r. answered r
