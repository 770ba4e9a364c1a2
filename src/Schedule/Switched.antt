-- ===== src/Schedule/Switched.antt =====
-- The switch between processes by `schedule` of student-distrib/schedule.c.
use octave_os.Base.{
  ℕ, ◌+◌, ◌*◌, ◌%◌, ◌^◌, ◌<◌, ◌≡◌, ◌≢◌, refl, arith, some, false, ltb, leb, ◌==◌, nonzero, done,
  add32, rem_signed, not, ◌&&◌,
}
use octave_os.Str.{Bytes}
use octave_os.Kernel.{Kernel, eight_mb, max_pid}
use octave_os.Terminal.{max_term}
use octave_os.Paging.{user_program_mem, four_mb}
use octave_os.Paging.Maps.{
  translate, translate-setup_paging, setup_paging-processes, setup_paging-scheduler,
}
use octave_os.Process.{pid_to_ksb}
use octave_os.Schedule.{Scheduled, resumes, switch_to_pid, next_process, schedule}

-- What a switch from `k` to the process `next` leaves: that process runs on the stack it was left
-- with, traps to its own kernel stack, and sees its own memory; the process that is left has its
-- registers saved.
pub record Switched (ebp esp next : ℕ) (k : Kernel) (out : Scheduled × Kernel) : Type 0 where
  pub resumed : next ≢ k.curr_pid → out.0 ≡ resumes (k.pcbs next).my_k_ebp (k.pcbs next).my_k_esp
  pub running : out.1.curr_pid ≡ next
  pub kernel_stack : out.1.tss_esp0 ≡ pid_to_ksb next
  pub saved_ebp : (out.1.pcbs k.curr_pid).my_k_ebp ≡ ebp
  pub saved_esp : (out.1.pcbs k.curr_pid).my_k_esp ≡ esp
  pub others : (i : ℕ) → i ≢ k.curr_pid → out.1.pcbs i ≡ k.pcbs i
  pub memory :
      (table_1 offset : ℕ)
      → offset < four_mb
      → translate table_1 out.1 (user_program_mem + offset)
        ≡ some (eight_mb + next * four_mb + offset)

pub switch_to_pid-Switched :
    (ebp esp next : ℕ) (k : Kernel)
    → next < max_pid
    → Switched ebp esp next k (switch_to_pid ebp esp next k)
unfolding switch_to_pid
switch_to_pid-Switched ebp esp next k small =
    let p = setup_paging-processes next k in
    record {
      resumed = λ ne. ground (arith, p.0, p.1);
      running = refl;
      kernel_stack = refl;
      saved_ebp = ground (arith, p.0, p.1);
      saved_esp = ground (arith, p.0, p.1);
      others = λ i ne. ground (arith, p.0, p.1);
      memory = λ table_1 offset h. translate-setup_paging table_1 next offset k small h;
    }

switch_to_pid-counter :
    (ebp esp next : ℕ) (k : Kernel)
    → (switch_to_pid ebp esp next k).1.schedule_counter ≡ k.schedule_counter
unfolding switch_to_pid
switch_to_pid-counter ebp esp next k = (setup_paging-scheduler next k).3

-- The process on top of the terminal whose turn is next.
abbrev pub next_top : Kernel → ℕ
next_top k = (k.screen.terminals ((k.schedule_counter + 1) % 3)).top_pid

pub schedule-switch_to_pid :
    (stack : Bytes) (ebp esp : ℕ) (k : Kernel)
    → k.shells_done ≡ 1
    → k.pit_count ≢ 3
    → k.schedule_counter + 1 < 2 ^ 31
    → schedule stack ebp esp k
      ≡ done (
          switch_to_pid ebp esp
            (next_top k)
            (record k { schedule_counter = k.schedule_counter + 1 }))
unfolding schedule next_process
schedule-switch_to_pid stack ebp esp k ready shown small =
    let later : (ltb k.pit_count 3 && not (nonzero k.shells_done)) ≡ false = ground arith in
    let stays : (k.pit_count == 3) ≡ false = ground arith in
    let count : add32 k.schedule_counter 1 ≡ k.schedule_counter + 1 = omega arith in
    let turn : rem_signed (k.schedule_counter + 1) 3 ≡ (k.schedule_counter + 1) % 3 =
      ground arith in
    let known : leb max_term ((k.schedule_counter + 1) % 3) ≡ false = ground arith in
    rw (later, stays) (rw count (rw turn (rw known)))

-- Once the shells are started and the first of them is shown, `schedule` switches to the process on
-- top of the next of the three terminals in turn, which is one of the six: it sees its own memory, runs
-- on the stack that it was left with, if it is another than the one that ran, the registers of the
-- process that is left are saved, and no other control block changes. The count of switches goes up by one; it is below the largest
-- number of 32 bits with sign.
pub schedule-Switched :
    (stack : Bytes) (ebp esp : ℕ) (k : Kernel)
    → k.shells_done ≡ 1
    → k.pit_count ≢ 3
    → k.schedule_counter + 1 < 2 ^ 31
    → (k.screen.terminals ((k.schedule_counter + 1) % 3)).top_pid < max_pid
    → (out : Scheduled × Kernel) × (schedule stack ebp esp k ≡ done out)
      × Switched ebp esp (k.screen.terminals ((k.schedule_counter + 1) % 3)).top_pid k out
      × (out.1.schedule_counter ≡ k.schedule_counter + 1)
schedule-Switched stack ebp esp k ready shown small top =
    let k1 = record k { schedule_counter = k.schedule_counter + 1 } in
    let s = switch_to_pid-Switched ebp esp (next_top k) k1 top in
    (
      switch_to_pid ebp esp (next_top k) k1,
      schedule-switch_to_pid stack ebp esp k ready shown small,
      record {
        resumed = s.resumed;
        running = s.running;
        kernel_stack = s.kernel_stack;
        saved_ebp = s.saved_ebp;
        saved_esp = s.saved_esp;
        others = s.others;
        memory = s.memory;
      },
      switch_to_pid-counter ebp esp (next_top k) k1,
    )
