-- ===== src/Programs/Syserr.antt =====
-- The tests of the system calls' error paths, syscalls/ece391syserr.c.
pub mod Tests
pub mod Opens
pub mod Lots
pub mod Passes
use octave_os.Base.{
  ℕ, zero, suc, ◌+◌, ◌-◌, List, [], ◌∷◌, ◌++◌, some, Bool, ◌==◌, if◌then◌else◌, add32, sub32,
  minus_one, word_mod, get_or, Outcome, done, fault, ◌>>=◌,
}
use octave_os.Str.{Bytes, codes, as_bytes}
use octave_os.Kernel.{Kernel}
use octave_os.Paging.{system_vidmap}
use octave_os.Syscalls.{system_open, system_read, system_write, system_close}
use octave_os.Programs.{fdputs, system_handler}

abbrev pub big_fd : ℕ
big_fd = 1073741823

abbrev pub neg_fd : ℕ
neg_fd = sub32 0 1073741823

-- What a test has come to: `fail`, and the kernel.
abbrev pub Test : Type 0
Test = Outcome (ℕ × Kernel)

abbrev pub Call : Type 0
Call = Kernel → Outcome (ℕ × Kernel)

-- The calls, without the bytes that they write to a buffer.
abbrev pub sys_read : (n fd buf nbytes : ℕ) → Call
sys_read n fd buf nbytes k = system_read n fd buf nbytes k >>= λ (r, out, k'). done (r, k')

abbrev pub sys_write : (inb fd : ℕ) → Bytes → (nbytes : ℕ) → Call
sys_write inb fd buf nbytes k = system_write inb fd (some buf) nbytes k

abbrev pub sys_open : (inb : ℕ) → List ℕ → Call
sys_open inb name k = done (system_open inb name k)

abbrev pub sys_vidmap : (table_1 screen_start : ℕ) → Call
sys_vidmap table_1 screen_start k =
    let (r, k', p) = system_vidmap table_1 screen_start k in done (r, k')

-- `if (-1 != ...) { fail = 2; ece391_fdputs (1, ...); }`
unfoldable pub refuses : (inb : ℕ) → (message : List ℕ) → Call → Test → Test
unfolding fdputs
refuses inb message call t = t >>= λ (fail, k). call k >>= λ (r, k').
    (let failed = fdputs inb 1 message k' >>= λ k''. done (2, k'') in
      if r == minus_one then done (fail, k') else failed)

-- The end of a test: its name and whether it passed.
unfoldable pub verdict : (inb : ℕ) → (name : List ℕ) → Test → Test
unfolding fdputs
verdict inb name t = t >>= λ (fail, k).
    (let failed = fdputs inb 1 (name ++ codes ": FAIL\n") k >>= λ k'. done (fail, k') in
      let passed = fdputs inb 1 (name ++ codes ": PASS\n") k >>= λ k'. done (fail, k') in
      if fail == 0 then passed else failed)

-- `inb` is what the clock's port answers, `n` the number of its interrupts during a read, `buf` the
-- address of the test's buffer, `bytes` what it holds, `table_1` the address of the page table of
-- `ece391_vidmap`, and `table` the calls that `system_handler` reaches.
module _ (inb n buf : ℕ) (bytes : Bytes) where
  -- `err_neg_fd` and `err_big_fd`, which differ in the descriptor and the name.
  unfoldable pub err_fd : (fd : ℕ) → (name : List ℕ) → Kernel → Test
  unfolding refuses verdict
  err_fd fd name k =
      let read_done = refuses inb (codes "read fail\n") (sys_read n fd buf 31) (done (0, k)) in
      let write_done = refuses inb (codes "write fail\n") (sys_write inb fd bytes 31) read_done in
      let close_done = refuses inb (codes "close fail\n") (system_close fd) write_done in
      verdict inb name close_done

  unfoldable pub err_neg_fd : Kernel → Test
  unfolding err_fd
  err_neg_fd k = err_fd neg_fd (codes "err_neg_fd") k

  unfoldable pub err_big_fd : Kernel → Test
  unfolding err_fd
  err_big_fd k = err_fd big_fd (codes "err_big_fd") k

  -- `for (i = 0; i < 7; i++)`, with `m` rounds left: how many opens failed.
  unfoldable pub open_lots : (m cnt : ℕ) → Kernel → ℕ × Kernel
  open_lots zero cnt k = (cnt, k)
  open_lots (suc m) cnt k =
      let (r, k') = system_open inb (codes ".") k in
      open_lots m (if r == minus_one then cnt + 1 else cnt) k'

  -- `for (i = 2; i < 8; i++) ece391_close(i);` at `i`, with `m` rounds left.
  unfoldable pub close_lots : (i m : ℕ) → Kernel → Outcome Kernel
  close_lots i zero k = done k
  close_lots i (suc m) k = system_close i k >>= λ (r, k'). close_lots (i + 1) m k'

  unfoldable pub err_open_lots : Kernel → Test
  unfolding open_lots close_lots fdputs
  err_open_lots k =
      let (cnt, k1) = open_lots 7 0 k in
      close_lots 2 6 k1 >>= λ k2.
      (let passed = fdputs inb 1 (codes "err_open_lots: PASS\n") k2 >>= λ k'. done (0, k') in
        let failed = fdputs inb 1 (codes "err_open_lots: FAIL\n") k2 >>= λ k'. done (2, k') in
        if cnt == 1 then passed else failed)

  unfoldable pub err_open : Kernel → Test
  unfolding refuses verdict
  err_open k =
      let longer =
        refuses inb (codes "'helloo' fail\n") (sys_open inb (codes "helloo")) (done (0, k)) in
      let shorter = refuses inb (codes "'shel' fail\n") (sys_open inb (codes "shel")) longer in
      let empty = refuses inb (codes "empty string fail\n") (sys_open inb []) shorter in
      verdict inb (codes "err_open") empty

  -- A call for each descriptor from `i` on, of which `m` are left.
  unfoldable pub each_refuses : (message : List ℕ) → (ℕ → Call) → (i m : ℕ) → Test → Test
  unfolding refuses
  each_refuses message call i zero t = t
  each_refuses message call i (suc m) t =
      each_refuses message call (i + 1) m (refuses inb message (call i) t)

  unfoldable pub err_unopened : Kernel → Test
  unfolding each_refuses verdict
  err_unopened k =
      let closed =
        each_refuses (codes "close unopened or invalid fd fail\n") system_close 0 8 (done (0, k)) in
      let read_all =
        each_refuses (codes "read from unopened fd fail\n") (λ i. sys_read n i buf 31) 2 6 closed in
      let written =
        each_refuses (codes "write to unopened fd fail\n") (λ i. sys_write inb i bytes 31) 2 6
          read_all in
      verdict inb (codes "err_unopened") written

  unfoldable pub err_vidmap : (table_1 : ℕ) → Kernel → Test
  unfolding refuses verdict
  err_vidmap table_1 k =
      let null = refuses inb (codes "Null pointer fail\n") (sys_vidmap table_1 0) (done (0, k)) in
      let kernel_space =
        refuses inb (codes "Kernel pointer fail fail\n") (sys_vidmap table_1 0x400000) null in
      verdict inb (codes "err_vidmap") kernel_space

  unfoldable pub err_stdin_out : Kernel → Test
  unfolding refuses verdict
  err_stdin_out k =
      let stdin_done =
        refuses inb (codes "write to stdin fail\n") (sys_write inb 0 bytes 31) (done (0, k)) in
      let stdout_done =
        refuses inb (codes "read from stdout fail\n") (sys_read n 1 buf 31) stdin_done in
      verdict inb (codes "err_stdin_out") stdout_done

  -- `call_sys` of the three numbers.
  unfoldable pub err_syscall_num : (table : ℕ → Call) → Kernel → Test
  unfolding refuses verdict
  err_syscall_num table k =
      let big =
        refuses inb (codes "syscall 0 fail\n") (system_handler table big_fd) (done (0, k)) in
      let neg = refuses inb (codes "big num syscall fail\n") (system_handler table neg_fd) big in
      let zero_done = refuses inb (codes "neg num syscall fail\n") (system_handler table 0) neg in
      verdict inb (codes "err_syscall_num") zero_done

  -- `fail += ...`
  abbrev pub adds : (Kernel → Test) → Test → Test
  adds test t = t >>= λ (fail, k). test k >>= λ (r, k'). done (add32 fail r, k')

  -- `case 0`
  unfoldable pub all_tests : (table_1 : ℕ) → (table : ℕ → Call) → Kernel → Test
  unfolding err_neg_fd err_big_fd err_open_lots err_open err_unopened err_vidmap err_stdin_out
      err_syscall_num
  all_tests table_1 table k =
      let descriptors = adds err_big_fd (adds err_neg_fd (done (0, k))) in
      let opened = adds err_unopened (adds err_open (adds err_open_lots descriptors)) in
      let last =
        adds (err_syscall_num table) (adds err_stdin_out (adds (err_vidmap table_1) opened)) in
      last >>= λ (fail, k').
      (let failed = fdputs inb 1 (codes "\nOverall Tests: FAIL\n") k' >>= λ k''. done (fail, k'') in
        let passed =
          fdputs inb 1 (codes "\nOverall Tests: PASS\n") k' >>= λ k''. done (fail, k'') in
        if fail == 0 then passed else failed)

  -- The `switch`, on the first byte of the line less `'0'`.
  unfoldable pub select_test : (table_1 : ℕ) → (table : ℕ → Call) → (select : ℕ) → Kernel → Test
  unfolding all_tests
  select_test table_1 table select k =
      let invalid =
        fdputs inb 1 (codes "Invalid test number. Choose from tests 1-8 or 0") k >>= λ k'.
        done (0, k') in
      if select == 0
      then all_tests table_1 table k
      else if select == 1
      then err_neg_fd k
      else if select == 2
      then err_big_fd k
      else if select == 3
      then err_open_lots k
      else if select == 4
      then err_open k
      else if select == 5
      then err_unopened k
      else if select == 6
      then err_vidmap table_1 k
      else if select == 7
      then err_stdin_out k
      else if select == 8
      then err_syscall_num table k
      else invalid

  -- `main`; `bytes` is also what its own buffer holds before the line is read.
  unfoldable pub syserr : (table_1 : ℕ) → (table : ℕ → Call) → Kernel → Test
  unfolding select_test
  syserr table_1 table k = fdputs inb 1 (codes "Choose from tests 1-8. 0 to run all: ") k >>= λ k1.
      system_read n 0 buf 127 k1 >>= λ (cnt, out, k2).
      (let failed = fdputs inb 1 (codes "Can't read test #\n") k2 >>= λ k'. done (2, k') in
        let run = select_test table_1 table (sub32 (get_or out 0 (bytes 0)) b'0') k2 in
        if cnt == minus_one then failed else run)
