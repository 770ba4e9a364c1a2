-- ===== src/Programs/Syserr/Lots.antt =====
-- `err_open_lots` of syscalls/ece391syserr.c: the directory is opened until no descriptor is left, and
-- the descriptors are closed again.
use mathlib.Core.Path.{subst}
use octave_os.Base.{
  ℕ, zero, suc, ◌+◌, ◌<◌, ◌≤◌, ◌≡◌, refl, ◌∙◌, ap, arith, false, leb, ◌==◌, ◌||◌, if◌then◌else◌,
  minus_one, ltb_signed, leb_signed, Outcome, done, ◌>>=◌,
}
use octave_os.Str.{Bytes, codes}
use octave_os.Kernel.{
  dir_jump_s, Kernel, file_array_size, file_open, file_not_open, print, is_null, pid_to_pcb,
  put_entry,
}
use octave_os.Files.{dclose, close_entry}
use octave_os.Files.Descriptors.{entry}
use octave_os.Syscalls.{with_entry, call_close, system_close}
use octave_os.Programs.{fdputs}
use octave_os.Programs.Output.{HasScreen, fdputs-text, without_nuls}
use octave_os.Programs.Syserr.{open_lots, close_lots, err_open_lots}
use octave_os.Programs.Syserr.Tests.{NoneOpen}
use octave_os.Programs.Syserr.Opens.{
  HasDirectory, Same, Same-trans, Same-refl, Between, system_open-dopen, opened_next, dopen-next,
  dopen-none, Between-opened_next, Same-opened_next, HasDirectory-Same, HasScreen-Same,
}

-- A descriptor that is open on the directory closes.
abbrev closed_at : ℕ → Kernel → Kernel
closed_at i k = put_entry i (record (entry k i) { flags = file_not_open }) k

system_close-directory :
    (i : ℕ) (k : Kernel)
    → is_null (pid_to_pcb k.curr_pid) ≡ false
    → (entry k i).flags ≡ file_open
    → (entry k i).file_op_table_ptr ≡ dir_jump_s
    → 2 ≤ i
    → i < file_array_size
    → system_close i k ≡ done (0, closed_at i k)
unfolding system_close with_entry dclose close_entry
system_close-directory i k p f j lo hi =
    let low : (ltb_signed file_array_size i || ltb_signed i 2) ≡ false = ground arith in
    let low' : (leb_signed file_array_size i || ltb_signed i 2) ≡ false = ground arith in
    let inside : leb file_array_size i ≡ false = ground arith in
    let calls : system_close i k ≡ call_close (entry k i).file_op_table_ptr i k =
      rw low (rw inside (rw f refl)) in
    let closes : dclose i k ≡ (0, closed_at i k) = rw p (rw low' refl) in
    calls ∙ ap (λ ops. call_close ops i k) j ∙ ap done closes

Between-closed_at : (i : ℕ) (k : Kernel) → Between i 8 k → 2 ≤ i → Between (i + 1) 8 (closed_at i k)
Between-closed_at i k b lo = record {
  opened = λ j a l. let h = b.opened j in ground arith;
  jumps = λ j a l. let h = b.jumps j in ground arith;
  below = λ j a l. let h = b.below j in ground arith;
  above = λ j a l. absurd (omega arith);
}

Same-closed_at : (i : ℕ) (k : Kernel) → 2 ≤ i → Same k (closed_at i k)
Same-closed_at i k lo = record {
  image = refl;
  curr_pid = refl;
  pid_to_term = refl;
  screen = refl;
  low = λ j l. ground arith;
}

module _ (inb n buf : ℕ) (bytes : Bytes) where
  -- The rest of the loop behind one open.
  abbrev behind : (m cnt : ℕ) → ℕ × Kernel → ℕ × Kernel
  behind m cnt (r, k) = open_lots inb n buf bytes m (if r == minus_one then cnt + 1 else cnt) k

  open_lots-Between :
      (m i cnt : ℕ) (k : Kernel)
      → HasDirectory k
      → Between 2 i k
      → 2 ≤ i
      → i + m ≡ 8
      → (k' : Kernel) × (open_lots inb n buf bytes (suc m) cnt k ≡ (cnt + 1, k'))
        × Between 2 8 k'
        × Same k k'
  unfolding open_lots
  open_lots-Between zero i cnt k d b lo e =
      let b' : Between 2 8 k = subst (λ h. Between 2 h k) (omega arith) b in
      (k, ap (behind zero cnt) (system_open-dopen inb k d ∙ dopen-none k d b'), b', Same-refl k)
  open_lots-Between (suc m) i cnt k d b lo e =
      let small : i < file_array_size = omega arith in
      let kept = Same-opened_next i k lo in
      let more : (i == minus_one) ≡ false = ground arith in
      let (k', run, all_open, same) =
        open_lots-Between m (i + 1) cnt (opened_next i k)
          (HasDirectory-Same k (opened_next i k) kept d) (Between-opened_next i k b lo)
          (omega arith) (omega arith) in
      (
        k',
        ap (behind (suc m) cnt) (system_open-dopen inb k d ∙ dopen-next i k d b lo small)
            ∙ ap
                (λ t.
                  open_lots inb n buf bytes (suc m) (if t then cnt + 1 else cnt) (opened_next i k))
                more
            ∙ run,
        all_open,
        Same-trans k (opened_next i k) k' kept same,
      )

  close_lots-NoneOpen :
      (m i : ℕ) (k : Kernel)
      → is_null (pid_to_pcb k.curr_pid) ≡ false
      → Between i 8 k
      → 2 ≤ i
      → i + m ≡ 8
      → (k' : Kernel) × (close_lots inb n buf bytes i m k ≡ done k') × NoneOpen k' × Same k k'
  unfolding close_lots
  close_lots-NoneOpen zero i k p b lo e = (k, refl, λ j a l. b.below j a (omega arith), Same-refl k)
  close_lots-NoneOpen (suc m) i k p b lo e =
      let small : i < file_array_size = omega arith in
      let kept = Same-closed_at i k lo in
      let closes =
        system_close-directory i k p (b.opened i (omega arith) small)
          (b.jumps i (omega arith) small) lo small in
      let (k', run, none_open, same) =
        close_lots-NoneOpen m (i + 1) (closed_at i k) p (Between-closed_at i k b lo) (omega arith)
          (omega arith) in
      (
        k',
        ap (λ o. o >>= λ (r, k'). close_lots inb n buf bytes (i + 1) m k') closes ∙ run,
        none_open,
        Same-trans k (closed_at i k) k' kept same,
      )

  -- `err_open_lots` passes where no descriptor from 2 on is open and "." is a directory: of its seven
  -- opens exactly one fails, and its closes leave no descriptor open. Nothing else of the state that
  -- the other tests read changes.
  pub err_open_lots-passes :
      (k : Kernel)
      → HasDirectory k
      → HasScreen k
      → NoneOpen k
      → (k' : Kernel) × (err_open_lots inb n buf bytes k
          ≡ done (0, print (codes "err_open_lots: PASS\n") k'))
        × NoneOpen k'
        × Same k k'
  unfolding err_open_lots without_nuls
  err_open_lots-passes k d h none_open =
      let (k1, opens, all_open, same1) =
        open_lots-Between 6 2 0 k d (none_open-Between k none_open) (omega arith) refl in
      let p : is_null (pid_to_pcb k1.curr_pid) ≡ false = (HasDirectory-Same k k1 same1 d).process in
      let (k2, closes, closed, same2) = close_lots-NoneOpen 6 2 k1 p all_open (omega arith) refl in
      let same = Same-trans k k1 k2 same1 same2 in
      let text = codes "err_open_lots: PASS\n" in
      let puts = fdputs-text inb text k2 (HasScreen-Same k k2 same h) (omega arith) refl in
      (
        k2,
        ap report opens
            ∙ ap (λ o. o >>= λ k2. passed k2) closes
            ∙ ap (λ o. o >>= λ k'. done (0, k')) puts,
        closed,
        same,
      )
    where
      passed : Kernel → Outcome (ℕ × Kernel)
      passed k2 = fdputs inb 1 (codes "err_open_lots: PASS\n") k2 >>= λ k'. done (0, k')

      report : ℕ × Kernel → Outcome (ℕ × Kernel)
      report (cnt, k1) = close_lots inb n buf bytes 2 6 k1 >>= λ k2.
          (let failed = fdputs inb 1 (codes "err_open_lots: FAIL\n") k2 >>= λ k'. done (2, k') in
            if cnt == 1 then passed k2 else failed)

      none_open-Between : (k : Kernel) → NoneOpen k → Between 2 2 k
      none_open-Between k h = record {
        opened = λ j a l. absurd (omega arith);
        jumps = λ j a l. absurd (omega arith);
        below = λ j a l. absurd (omega arith);
        above = h;
      }
