-- ===== src/Schedule.antt =====
-- The scheduler of student-distrib/schedule.c and the timer of student-distrib/pit.c that calls it.
--
-- `ebp` and `esp` are the registers that `schedule` saves for the process that it leaves, `stack` the
-- argument of `system_execute`.
pub mod Switched
pub mod Rounds
use octave_os.Base.{
  ℕ, ◌+◌, ◌-◌, ◌*◌, ◌/◌, ◌%◌, ◌^◌, List, [], ◌∷◌, Bool, not, ◌&&◌, ltb, leb, ◌==◌, if◌then◌else◌,
  nonzero, add32, rem_signed, Outcome, done, fault, out_of_bounds, ◌>>=◌,
}
use octave_os.Str.{Bytes, codes}
use octave_os.Kernel.{Kernel, outb}
use octave_os.Pic.{enable_irq, send_eoi}
use octave_os.Terminal.{max_term, term_switch}
use octave_os.Paging.{setup_paging}
use octave_os.Process.{kernel_ds, pid_to_ksb, put_pcb}
use octave_os.Execute.{Executed, returns, enters, system_execute}

-- How `schedule` ends: on the stack of the next process, or in a shell that it has started.
pub data Scheduled : Type 0 where
  resumes : (ebp esp : ℕ) → Scheduled
  starts : (entry_point : ℕ) → Scheduled

unfoldable pub init_scheduler : Kernel → Kernel
init_scheduler k = record k { schedule_counter = 2 }

-- The switch to a process.
unfoldable pub switch_to_pid : (ebp esp next_pid : ℕ) → Kernel → Scheduled × Kernel
switch_to_pid ebp esp next k =
    let k1 = setup_paging next k in
    let pid = k1.curr_pid in
    let k2 = put_pcb pid (record (k1.pcbs pid) { my_k_ebp = ebp; my_k_esp = esp }) k1 in
    let b = k2.pcbs next in
    (
      resumes b.my_k_ebp b.my_k_esp,
      record k2 { tss_ss0 = kernel_ds; tss_esp0 = pid_to_ksb next; curr_pid = next },
    )

-- The part of `schedule` behind the start of the shells.
unfoldable pub next_process : (ebp esp : ℕ) → Kernel → Outcome (Scheduled × Kernel)
unfolding switch_to_pid
next_process ebp esp k =
    let k1 = if k.pit_count == 3 then term_switch 0 k else k in
    let counter = add32 k1.schedule_counter 1 in
    let k2 = record k1 { schedule_counter = counter } in
    let t = rem_signed counter 3 in
    if leb max_term t
    then fault out_of_bounds
    else done (switch_to_pid ebp esp (k2.screen.terminals t).top_pid k2)

-- What follows the start of a shell: only a start that failed returns.
unfoldable pub after_shell : (ebp esp : ℕ) → Executed × Kernel → Outcome (Scheduled × Kernel)
unfolding next_process
after_shell ebp esp (returns r, k) = next_process ebp esp k
after_shell ebp esp (enters e, k) = done (starts e, k)

unfoldable pub schedule : (stack : Bytes) → (ebp esp : ℕ) → Kernel → Outcome (Scheduled × Kernel)
unfolding next_process after_shell
schedule stack ebp esp k =
    let k1 = term_switch k.pit_count k in
    let k2 = if k.pit_count == 2 then record k1 { shells_done = 1 } else k1 in
    let shell = system_execute stack ebp esp (codes "shell") k2 >>= after_shell ebp esp in
    if ltb k.pit_count 3 && not (nonzero k.shells_done) then shell else next_process ebp esp k

abbrev pub freq_divider : ℕ
freq_divider = 0x8000

unfoldable pub pit_init : Kernel → Kernel
pit_init k =
    let (pic, outs) = enable_irq 0 k.pic in
    let set =
      (0x34, 0x43) ∷ (freq_divider % 2 ^ 8, 0x40) ∷ (freq_divider / 2 ^ 8 % 2 ^ 8, 0x40) ∷ [] in
    outb outs (outb set (record k { pit_count = 0; shells_done = 0; pic = pic }))

unfoldable pub pit_handler : (stack : Bytes) → (ebp esp : ℕ) → Kernel → Outcome (Scheduled × Kernel)
unfolding schedule
pit_handler stack ebp esp k =
    schedule stack ebp esp (outb (send_eoi 0) (record k { pit_count = add32 k.pit_count 1 }))
