-- ===== src/Programs/Syserr/Tests.antt =====
-- The tests of syscalls/ece391syserr.c one by one: those that change nothing but the screen.
use octave_os.Base.{
  ℕ, zero, suc, ◌+◌, ◌^◌, ◌<◌, ◌≤◌, ◌≡◌, refl, ◌∙◌, ap, arith, List, [], ◌++◌, true, ◌==◌,
  if◌then◌else◌, length, minus_one, done, ◌>>=◌,
}
use octave_os.Str.{Bytes, codes, as_bytes}
use octave_os.FileSys.{read_dentry_by_name}
use octave_os.Kernel.{Kernel, file_array_size, file_not_open, print}
use octave_os.Files.{no_dentry}
use octave_os.Files.Descriptors.{entry}
use octave_os.Paging.{system_vidmap}
use octave_os.Syscalls.{with_entry, system_open, system_read, system_write, system_close}
use octave_os.Programs.{fdputs, system_handler}
use octave_os.Programs.Output.{HasScreen, fdputs-text, without_nuls}
use octave_os.Programs.Syserr.{
  Test, Call, sys_read, sys_write, sys_open, sys_vidmap, big_fd, neg_fd, refuses, verdict,
  each_refuses, err_neg_fd, err_big_fd, err_open, err_unopened, err_vidmap, err_stdin_out,
  err_syscall_num, err_fd,
}

-- A call that fails and changes nothing.
abbrev pub Fails : Call → Kernel → Type 0
Fails call k = call k ≡ done (minus_one, k)

refuses-Fails :
    (inb : ℕ) (m : List ℕ) (call : Call) (f : ℕ) (k : Kernel) (t : Test)
    → Fails call k
    → t ≡ done (f, k)
    → refuses inb m call t ≡ done (f, k)
unfolding refuses
refuses-Fails inb m call f k t h e =
    ap (refuses inb m call) e
    ∙ ap
        (λ o. o >>= λ (r, k').
          (let failed = fdputs inb 1 m k' >>= λ k''. done (2, k'') in
            if r == minus_one then done (f, k') else failed))
        h

each_refuses-Fails :
    (inb n buf : ℕ) (bytes : Bytes) (m : List ℕ) (call : ℕ → Call) (i left f : ℕ) (k : Kernel)
    (t : Test)
    → ((j : ℕ) → i ≤ j → j < i + left → Fails (call j) k)
    → t ≡ done (f, k)
    → each_refuses inb n buf bytes m call i left t ≡ done (f, k)
unfolding each_refuses
each_refuses-Fails inb n buf bytes m call i zero f k t h e = e
each_refuses-Fails inb n buf bytes m call i (suc left) f k t h e =
    each_refuses-Fails inb n buf bytes m call (i + 1) left f k (refuses inb m (call i) t)
      (λ j a b. h j (omega arith) (omega arith))
      (refuses-Fails inb m (call i) f k t (h i (omega arith) (omega arith)) e)

-- The end of a test in which nothing failed.
verdict-pass :
    (inb : ℕ) (name : List ℕ) (k : Kernel) (t : Test)
    → HasScreen k
    → length (name ++ codes ": PASS\n") < 2 ^ 31
    → without_nuls (name ++ codes ": PASS\n") ≡ name ++ codes ": PASS\n"
    → t ≡ done (0, k)
    → verdict inb name t ≡ done (0, print (name ++ codes ": PASS\n") k)
unfolding verdict
verdict-pass inb name k t s small text e =
    ap (verdict inb name) e
    ∙ ap (λ o. o >>= λ k'. done (0, k')) (fdputs-text inb (name ++ codes ": PASS\n") k s small text)

-- The descriptors from 2 on are closed.
abbrev pub NoneOpen : Kernel → Type 0
NoneOpen k = (j : ℕ) → 2 ≤ j → j < file_array_size → (entry k j).flags ≡ file_not_open

-- The directory does not have the name.
abbrev pub IsMissing : Kernel → List ℕ → Type 0
IsMissing k name = (read_dentry_by_name k.image (as_bytes name) no_dentry).0 ≡ minus_one

module _ (inb n buf : ℕ) (bytes : Bytes) (k : Kernel) where
  close_closed : NoneOpen k → (fd : ℕ) → fd < file_array_size → Fails (system_close fd) k
  unfolding system_close with_entry
  close_closed h fd small = ground (arith, h fd)

  read_closed :
      NoneOpen k → (fd : ℕ) → 2 ≤ fd → fd < file_array_size → Fails (sys_read n fd buf 31) k
  unfolding system_read with_entry
  read_closed h fd lo small = ground (arith, h fd)

  write_closed :
      NoneOpen k → (fd : ℕ) → 2 ≤ fd → fd < file_array_size → Fails (sys_write inb fd bytes 31) k
  unfolding system_write with_entry
  write_closed h fd lo small = ground (arith, h fd)

  open_missing : (name : List ℕ) → IsMissing k name → Fails (sys_open inb name) k
  unfolding system_open
  open_missing name e =
      let hit : ((read_dentry_by_name k.image (as_bytes name) no_dentry).0 == minus_one) ≡ true =
        ground arith in
      rw hit refl

  module _ (s : HasScreen k) where
    -- Two calls that fail, and three.
    pass_2 :
        (name m1 m2 : List ℕ) (c1 c2 : Call)
        → length (name ++ codes ": PASS\n") < 2 ^ 31
        → without_nuls (name ++ codes ": PASS\n") ≡ name ++ codes ": PASS\n"
        → Fails c1 k
        → Fails c2 k
        → verdict inb name (refuses inb m2 c2 (refuses inb m1 c1 (done (0, k))))
          ≡ done (0, print (name ++ codes ": PASS\n") k)
    pass_2 name m1 m2 c1 c2 small text h1 h2 =
        let t1 = refuses inb m1 c1 (done (0, k)) in
        let e1 = refuses-Fails inb m1 c1 0 k (done (0, k)) h1 refl in
        verdict-pass inb name k (refuses inb m2 c2 t1) s small text
          (refuses-Fails inb m2 c2 0 k t1 h2 e1)

    pass_3 :
        (name m1 m2 m3 : List ℕ) (c1 c2 c3 : Call)
        → length (name ++ codes ": PASS\n") < 2 ^ 31
        → without_nuls (name ++ codes ": PASS\n") ≡ name ++ codes ": PASS\n"
        → Fails c1 k
        → Fails c2 k
        → Fails c3 k
        → verdict inb name (refuses inb m3 c3 (refuses inb m2 c2 (refuses inb m1 c1 (done (0, k)))))
          ≡ done (0, print (name ++ codes ": PASS\n") k)
    pass_3 name m1 m2 m3 c1 c2 c3 small text h1 h2 h3 =
        let t1 = refuses inb m1 c1 (done (0, k)) in
        let e1 = refuses-Fails inb m1 c1 0 k (done (0, k)) h1 refl in
        let t2 = refuses inb m2 c2 t1 in
        let e2 = refuses-Fails inb m2 c2 0 k t1 h2 e1 in
        verdict-pass inb name k (refuses inb m3 c3 t2) s small text
          (refuses-Fails inb m3 c3 0 k t2 h3 e2)

    err_fd-passes :
        (fd : ℕ) (name : List ℕ)
        → length (name ++ codes ": PASS\n") < 2 ^ 31
        → without_nuls (name ++ codes ": PASS\n") ≡ name ++ codes ": PASS\n"
        → Fails (sys_read n fd buf 31) k
        → Fails (sys_write inb fd bytes 31) k
        → Fails (system_close fd) k
        → err_fd inb n buf bytes fd name k ≡ done (0, print (name ++ codes ": PASS\n") k)
    unfolding err_fd
    err_fd-passes fd name small text h1 h2 h3 =
        pass_3 name (codes "read fail\n") (codes "write fail\n") (codes "close fail\n")
          (sys_read n fd buf 31) (sys_write inb fd bytes 31) (system_close fd) small text h1 h2 h3

    pub err_neg_fd-passes :
        err_neg_fd inb n buf bytes k ≡ done (0, print (codes "err_neg_fd: PASS\n") k)
    unfolding err_neg_fd without_nuls system_read system_write system_close
    err_neg_fd-passes = err_fd-passes neg_fd (codes "err_neg_fd") (omega arith) refl refl refl refl

    pub err_big_fd-passes :
        err_big_fd inb n buf bytes k ≡ done (0, print (codes "err_big_fd: PASS\n") k)
    unfolding err_big_fd without_nuls system_read system_write system_close
    err_big_fd-passes = err_fd-passes big_fd (codes "err_big_fd") (omega arith) refl refl refl refl

    pub err_vidmap-passes :
        (table_1 : ℕ)
        → err_vidmap inb n buf bytes table_1 k ≡ done (0, print (codes "err_vidmap: PASS\n") k)
    unfolding err_vidmap without_nuls system_vidmap
    err_vidmap-passes table_1 =
        pass_2 (codes "err_vidmap") (codes "Null pointer fail\n")
          (codes "Kernel pointer fail fail\n") (sys_vidmap table_1 0) (sys_vidmap table_1 0x400000)
          (omega arith) refl refl refl

    pub err_stdin_out-passes :
        err_stdin_out inb n buf bytes k ≡ done (0, print (codes "err_stdin_out: PASS\n") k)
    unfolding err_stdin_out without_nuls system_read system_write
    err_stdin_out-passes =
        pass_2 (codes "err_stdin_out") (codes "write to stdin fail\n")
          (codes "read from stdout fail\n") (sys_write inb 0 bytes 31) (sys_read n 1 buf 31)
          (omega arith) refl refl refl

    pub err_syscall_num-passes :
        (table : ℕ → Call)
        → err_syscall_num inb n buf bytes table k
          ≡ done (0, print (codes "err_syscall_num: PASS\n") k)
    unfolding err_syscall_num without_nuls system_handler
    err_syscall_num-passes table =
        pass_3 (codes "err_syscall_num") (codes "syscall 0 fail\n") (codes "big num syscall fail\n")
          (codes "neg num syscall fail\n") (system_handler table big_fd)
          (system_handler table neg_fd) (system_handler table 0) (omega arith) refl refl refl refl

    pub err_unopened-passes :
        NoneOpen k
        → err_unopened inb n buf bytes k ≡ done (0, print (codes "err_unopened: PASS\n") k)
    unfolding err_unopened without_nuls
    err_unopened-passes h =
        let each = each_refuses inb n buf bytes in
        let closing = codes "close unopened or invalid fd fail\n" in
        let reading = codes "read from unopened fd fail\n" in
        let writing = codes "write to unopened fd fail\n" in
        let reads = λ (i : ℕ). sys_read n i buf 31 in
        let writes = λ (i : ℕ). sys_write inb i bytes 31 in
        let closed = each closing system_close 0 8 (done (0, k)) in
        let read_all = each reading reads 2 6 closed in
        let e1 =
          each_refuses-Fails inb n buf bytes closing system_close 0 8 0 k (done (0, k))
            (λ j lo hi. close_closed h j (omega arith)) refl in
        let e2 =
          each_refuses-Fails inb n buf bytes reading reads 2 6 0 k closed
            (λ j lo hi. read_closed h j lo (omega arith)) e1 in
        verdict-pass inb (codes "err_unopened") k (each writing writes 2 6 read_all) s (omega arith)
          refl
          (each_refuses-Fails inb n buf bytes writing writes 2 6 0 k read_all
            (λ j lo hi. write_closed h j lo (omega arith)) e2)

    pub err_open-passes :
        IsMissing k (codes "helloo")
        → IsMissing k (codes "shel")
        → IsMissing k []
        → err_open inb n buf bytes k ≡ done (0, print (codes "err_open: PASS\n") k)
    unfolding err_open without_nuls
    err_open-passes longer shorter empty =
        pass_3 (codes "err_open") (codes "'helloo' fail\n") (codes "'shel' fail\n")
          (codes "empty string fail\n") (sys_open inb (codes "helloo"))
          (sys_open inb (codes "shel")) (sys_open inb []) (omega arith) refl
          (open_missing (codes "helloo") longer) (open_missing (codes "shel") shorter)
          (open_missing [] empty)
