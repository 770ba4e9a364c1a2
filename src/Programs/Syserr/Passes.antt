-- ===== src/Programs/Syserr/Passes.antt =====
-- The whole of syscalls/ece391syserr.c: all its tests pass.
use mathlib.Core.Path.{subst, ap₂}
use octave_os.Base.{
  minus_one, ℕ, ◌≡◌, refl, ◌∙◌, ap, sym, arith, List, [], ◌∷◌, ◌++◌, ◌==◌, if◌then◌else◌, done,
  ◌>>=◌, add32,
}
use octave_os.Str.{Bytes, codes, as_bytes}
use octave_os.Screen.{Screen}
use octave_os.Console.{puts}
use octave_os.FileSys.{read_dentry_by_name}
use octave_os.Files.{no_dentry}
use octave_os.Kernel.{Kernel, print}
use octave_os.Printf.Pieces.Rendered.{print-append}
use octave_os.Programs.{fdputs}
use octave_os.Programs.Output.{HasScreen, HasScreen-print, fdputs-text, without_nuls}
use octave_os.Programs.Syserr.{
  Test, Call, adds, err_neg_fd, err_big_fd, err_open_lots, err_open, err_unopened, err_vidmap,
  err_stdin_out, err_syscall_num, all_tests,
}
use octave_os.Programs.Syserr.Tests.{
  IsMissing, NoneOpen, err_neg_fd-passes, err_big_fd-passes, err_open-passes, err_unopened-passes,
  err_vidmap-passes, err_stdin_out-passes, err_syscall_num-passes,
}
use octave_os.Programs.Syserr.Opens.{HasDirectory, HasScreen-Same, Same}
use octave_os.Programs.Syserr.Lots.{err_open_lots-passes}

-- The lines of the eight tests, and the last one.
abbrev pub passing_text : List ℕ
passing_text =
    codes
      "err_neg_fd: PASS\nerr_big_fd: PASS\nerr_open_lots: PASS\nerr_open: PASS\nerr_unopened: PASS\nerr_vidmap: PASS\nerr_stdin_out: PASS\nerr_syscall_num: PASS\n\nOverall Tests: PASS\n"

-- A test that passes behind tests that passed.
adds-pass :
    (inb n buf : ℕ) (bytes : Bytes) (test : Kernel → Test) (t : Test) (k k' : Kernel)
    → t ≡ done (0, k)
    → test k ≡ done (0, k')
    → adds inb n buf bytes test t ≡ done (0, k')
adds-pass inb n buf bytes test t k k' e h =
    ap (adds inb n buf bytes test) e ∙ ap (λ o. o >>= λ (r, k'). done (add32 0 r, k')) h

-- Texts printed one behind the other.
prints : List (List ℕ) → Kernel → Kernel
prints [] k = k
prints (t ∷ ts) k = prints ts (print t k)

joined : List (List ℕ) → List ℕ
joined [] = []
joined (t ∷ ts) = t ++ joined ts

prints-joined :
    (ts : List (List ℕ)) (k : Kernel) → (prints ts k).screen ≡ (print (joined ts) k).screen
unfolding prints joined puts
prints-joined [] k = refl
prints-joined (t ∷ ts) k =
    prints-joined ts (print t k) ∙ sym (ap (λ k'. k'.screen) (print-append t (joined ts) k))

print-Same : (k k' : Kernel) (t : List ℕ) → Same k k' → (print t k').screen ≡ (print t k).screen
print-Same k k' t s =
    ap₂ (λ (m : ℕ) (c : Screen). puts t m c)
      (ap₂ (λ (f : ℕ → ℕ) (p : ℕ). f p) s.pid_to_term s.curr_pid) s.screen

-- What a kernel must have for the tests to pass.
pub record IsTestable (k : Kernel) : Type 0 where
  pub directory : HasDirectory k
  pub screen : HasScreen k
  pub none_open : NoneOpen k
  pub no_longer : IsMissing k (codes "helloo")
  pub no_shorter : IsMissing k (codes "shel")
  pub no_empty : IsMissing k []

abbrev line : List ℕ → List ℕ
line name = name ++ codes ": PASS\n"

abbrev six_lines : List (List ℕ)
six_lines =
    line (codes "err_open_lots")
    ∷ line (codes "err_open")
    ∷ line (codes "err_unopened")
    ∷ line (codes "err_vidmap")
    ∷ line (codes "err_stdin_out")
    ∷ line (codes "err_syscall_num")
    ∷ []

abbrev last_lines : List (List ℕ)
last_lines = six_lines ++ (codes "\nOverall Tests: PASS\n" ∷ [])

abbrev all_lines : List (List ℕ)
all_lines = line (codes "err_neg_fd") ∷ line (codes "err_big_fd") ∷ joined last_lines ∷ []

all_lines-joined : joined all_lines ≡ passing_text
unfolding joined
all_lines-joined = refl

module _ (inb n buf : ℕ) (bytes : Bytes) (table_1 : ℕ) (table : ℕ → Call) where
  -- From the third test on.
  last_tests :
      (k k1 : Kernel) (t : Test)
      → IsTestable k
      → HasScreen k1
      → NoneOpen k1
      → k1.image ≡ k.image
      → adds inb n buf bytes (err_open_lots inb n buf bytes) t
        ≡ done (0, print (line (codes "err_open_lots")) k1)
      → let opened = adds inb n buf bytes (err_unopened inb n buf bytes) (
          adds inb n buf bytes
            (err_open inb n buf bytes)
            (adds inb n buf bytes (err_open_lots inb n buf bytes) t)) in
        adds inb n buf bytes (err_syscall_num inb n buf bytes table) (
          adds inb n buf bytes
            (err_stdin_out inb n buf bytes)
            (adds inb n buf bytes (err_vidmap inb n buf bytes table_1) opened))
        ≡ done (
          0,
          print (line (codes "err_syscall_num")) (
              print (line (codes "err_stdin_out")) (
                print (line (codes "err_vidmap")) (
                  print
                    (line (codes "err_unopened"))
                    (print (line (codes "err_open")) (print (line (codes "err_open_lots")) k1))))),
        )
  last_tests k k1 t h s none_open same e =
      let k3 = print (line (codes "err_open_lots")) k1 in
      let s3 = HasScreen-print (line (codes "err_open_lots")) k1 s in
      let missing = λ (name : List ℕ) (m : IsMissing k name).
        subst (λ im. (read_dentry_by_name im (as_bytes name) no_dentry).0 ≡ minus_one) (sym same)
          m in
      let k4 = print (line (codes "err_open")) k3 in
      let s4 = HasScreen-print (line (codes "err_open")) k3 s3 in
      let k5 = print (line (codes "err_unopened")) k4 in
      let s5 = HasScreen-print (line (codes "err_unopened")) k4 s4 in
      let k6 = print (line (codes "err_vidmap")) k5 in
      let s6 = HasScreen-print (line (codes "err_vidmap")) k5 s5 in
      let k7 = print (line (codes "err_stdin_out")) k6 in
      let s7 = HasScreen-print (line (codes "err_stdin_out")) k6 s6 in
      let t3 = adds inb n buf bytes (err_open_lots inb n buf bytes) t in
      let t4 = adds inb n buf bytes (err_open inb n buf bytes) t3 in
      let t5 = adds inb n buf bytes (err_unopened inb n buf bytes) t4 in
      let t6 = adds inb n buf bytes (err_vidmap inb n buf bytes table_1) t5 in
      let t7 = adds inb n buf bytes (err_stdin_out inb n buf bytes) t6 in
      let e4 = adds-pass inb n buf bytes (err_open inb n buf bytes) t3 k3 k4 e (
        err_open-passes inb n buf bytes k3 s3 (missing (codes "helloo") h.no_longer)
          (missing (codes "shel") h.no_shorter) (missing [] h.no_empty)) in
      let e5 =
        adds-pass inb n buf bytes (err_unopened inb n buf bytes) t4 k4 k5 e4
          (err_unopened-passes inb n buf bytes k4 s4 none_open) in
      let e6 =
        adds-pass inb n buf bytes (err_vidmap inb n buf bytes table_1) t5 k5 k6 e5
          (err_vidmap-passes inb n buf bytes k5 s5 table_1) in
      let e7 =
        adds-pass inb n buf bytes (err_stdin_out inb n buf bytes) t6 k6 k7 e6
          (err_stdin_out-passes inb n buf bytes k6 s6) in
      adds-pass inb n buf bytes (err_syscall_num inb n buf bytes table) t7 k7
        (print (line (codes "err_syscall_num")) k7) e7
        (err_syscall_num-passes inb n buf bytes k7 s7 table)

  -- All tests of `syserr` pass: it returns 0, the screen is that of the kernel before with the lines of
  -- the eight tests and the last line printed, each with PASS, and no descriptor from 2 on is left
  -- open. The process has its screen open and no descriptor from 2 on, the directory has itself under
  -- the name "." and none of the three names that `err_open` tries.
  pub all_tests-passes :
      (k : Kernel)
      → IsTestable k
      → (k' : Kernel) × (all_tests inb n buf bytes table_1 table k ≡ done (0, k'))
        × (k'.screen ≡ (print passing_text k).screen)
        × NoneOpen k'
  unfolding all_tests prints without_nuls
  all_tests-passes k h =
      let k1 = print (line (codes "err_neg_fd")) k in
      let s1 = HasScreen-print (line (codes "err_neg_fd")) k h.screen in
      let k2 = print (line (codes "err_big_fd")) k1 in
      let s2 = HasScreen-print (line (codes "err_big_fd")) k1 s1 in
      let t1 = adds inb n buf bytes (err_neg_fd inb n buf bytes) (done (0, k)) in
      let t2 = adds inb n buf bytes (err_big_fd inb n buf bytes) t1 in
      let e1 =
        adds-pass inb n buf bytes (err_neg_fd inb n buf bytes) (done (0, k)) k k1 refl
          (err_neg_fd-passes inb n buf bytes k h.screen) in
      let e2 =
        adds-pass inb n buf bytes (err_big_fd inb n buf bytes) t1 k1 k2 e1
          (err_big_fd-passes inb n buf bytes k1 s1) in
      let d2 : HasDirectory k2 = record {
        found = h.directory.found;
        type = h.directory.type;
        process = h.directory.process;
      } in
      let (k3, lots, closed, same) = err_open_lots-passes inb n buf bytes k2 d2 s2 h.none_open in
      let e3 =
        adds-pass inb n buf bytes (err_open_lots inb n buf bytes) t2 k2
          (print (line (codes "err_open_lots")) k3) e2 lots in
      let s3 = HasScreen-Same k2 k3 same s2 in
      let e8 = last_tests k k3 t2 h s3 closed same.image e3 in
      let k8 = prints six_lines k3 in
      (
        prints last_lines k3,
        ap finish e8
            ∙ ap (λ o. o >>= λ k'. done (0, k'))
                (fdputs-text inb (codes "\nOverall Tests: PASS\n") k8
                  (record { opened = s3.opened; jumps = s3.jumps }) (omega arith) refl),
        prints-joined last_lines k3
            ∙ print-Same k2 k3 (joined last_lines) same
            ∙ prints-joined all_lines k
            ∙ ap (λ t. (print t k).screen) all_lines-joined,
        closed,
      )
    where
      finish : Test → Test
      finish o = o >>= λ (fail, k').
          (let failed =
              fdputs inb 1 (codes "\nOverall Tests: FAIL\n") k' >>= λ k''. done (fail, k'') in
            let passed =
              fdputs inb 1 (codes "\nOverall Tests: PASS\n") k' >>= λ k''. done (fail, k'') in
            if fail == 0 then passed else failed)
