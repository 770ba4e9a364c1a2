-- ===== src/Schedule/Rounds.antt =====
-- The timer of student-distrib/pit.c over several ticks: the processes take turns.
use octave_os.Base.{
  ℕ, ◌+◌, ◌%◌, ◌^◌, ◌<◌, ◌≤◌, ◌≡◌, ◌≢◌, ◌∙◌, ap, sym, arith, add32, word_mod, done,
}
use mathlib.Core.Path.{ap₂}
use octave_os.Str.{Bytes}
use octave_os.Kernel.{Kernel, max_pid, outb}
use octave_os.Paging.Maps.{setup_paging-scheduler}
use octave_os.Pic.{send_eoi}
use octave_os.Schedule.{Scheduled, resumes, switch_to_pid, pit_handler}
use octave_os.Schedule.Switched.{Switched, switch_to_pid-Switched, schedule-switch_to_pid}

-- What a tick moves on, and the terminals, which it leaves.
record Ticked (k k' : Kernel) : Type 0 where
  terminals : k'.screen.terminals ≡ k.screen.terminals
  shells_done : k'.shells_done ≡ k.shells_done
  pit_count : k'.pit_count ≡ k.pit_count + 1
  turn : k'.schedule_counter ≡ k.schedule_counter + 1

-- The process on top of the terminal that is `d` turns ahead.
abbrev pub top : Kernel → ℕ → ℕ
top k d = (k.screen.terminals ((k.schedule_counter + d) % 3)).top_pid

-- The shells are started, the first of them is shown, and no count is near its end.
record IsSettled (k : Kernel) (ticks : ℕ) : Type 0 where
  ready : k.shells_done ≡ 1
  shown : 3 ≤ k.pit_count
  count : k.pit_count + ticks < word_mod
  turns : k.schedule_counter + ticks < 2 ^ 31

module _ (stack : Bytes) (ebp esp : ℕ) (k : Kernel) where
  abbrev counted : Kernel
  counted = outb (send_eoi 0) (record k { pit_count = add32 k.pit_count 1 })

  abbrev turned : Kernel
  turned = record counted { schedule_counter = k.schedule_counter + 1 }

  abbrev switched : Scheduled × Kernel
  switched = switch_to_pid ebp esp (top k 1) turned

  pit_handler-switched : IsSettled k 1 → pit_handler stack ebp esp k ≡ done switched
  unfolding pit_handler
  pit_handler-switched h =
      schedule-switch_to_pid stack ebp esp counted h.ready (λ e. omega (arith, h.shown, h.count, e))
        (omega (arith, h.turns))

  switched-Switched : top k 1 < max_pid → Switched ebp esp (top k 1) k switched
  switched-Switched small =
      let s = switch_to_pid-Switched ebp esp (top k 1) turned small in
      record {
        resumed = s.resumed;
        running = s.running;
        kernel_stack = s.kernel_stack;
        saved_ebp = s.saved_ebp;
        saved_esp = s.saved_esp;
        others = s.others;
        memory = s.memory;
      }

  switched-Ticked : IsSettled k 1 → Ticked k switched.1
  unfolding switch_to_pid
  switched-Ticked h =
      let (screen, pit, shells, turn) = setup_paging-scheduler (top k 1) turned in
      record {
        terminals = ap (λ s. s.terminals) screen;
        shells_done = shells;
        pit_count = pit ∙ omega (arith, h.count);
        turn = turn;
      }

IsSettled-less : (k : Kernel) (m : ℕ) → 1 ≤ m → IsSettled k m → IsSettled k 1
IsSettled-less k m le h = record {
  ready = h.ready;
  shown = h.shown;
  count = omega (arith, h.count);
  turns = omega (arith, h.turns);
}

IsSettled-Ticked : (k k' : Kernel) (m : ℕ) → Ticked k k' → IsSettled k (m + 1) → IsSettled k' m
IsSettled-Ticked k k' m t h = record {
  ready = t.shells_done ∙ h.ready;
  shown = omega (arith, t.pit_count, h.shown);
  count = omega (arith, t.pit_count, h.count);
  turns = omega (arith, t.turn, h.turns);
}

top-Ticked : (k k' : Kernel) (d : ℕ) → Ticked k k' → top k' d ≡ top k (d + 1)
top-Ticked k k' d t = ap₂ (λ f i. (f i).top_pid) t.terminals (omega (arith, t.turn))

-- Three ticks of the timer go round the terminals: the processes on top of the second, the third and
-- again the first run in turn, and the third tick resumes the process that the first interrupted with
-- the registers that it was interrupted with, whatever registers the two others were interrupted with.
-- The shells are started and shown, no count is near its end, the process that runs is the one whose
-- turn it is and is on top of neither of the two other terminals, and the three are processes.
pub pit_handler-round :
    (stack : Bytes) (ebp esp ebp2 esp2 ebp3 esp3 : ℕ) (k : Kernel)
    → k.shells_done ≡ 1
    → 3 ≤ k.pit_count
    → k.pit_count + 3 < word_mod
    → k.schedule_counter + 3 < 2 ^ 31
    → ((d : ℕ) → top k d < max_pid)
    → k.curr_pid ≡ top k 0
    → top k 1 ≢ k.curr_pid
    → top k 2 ≢ k.curr_pid
    → (o1 o2 : Scheduled) × (k1 k2 k3 : Kernel) × (pit_handler stack ebp esp k ≡ done (o1, k1))
      × (pit_handler stack ebp2 esp2 k1 ≡ done (o2, k2))
      × (pit_handler stack ebp3 esp3 k2 ≡ done (resumes ebp esp, k3))
      × (k1.curr_pid ≡ top k 1)
      × (k2.curr_pid ≡ top k 2)
      × (k3.curr_pid ≡ k.curr_pid)
pit_handler-round stack ebp esp ebp2 esp2 ebp3 esp3 k ready shown count turns small first ne1 ne2 =
    let h : IsSettled k 3 = record { ready = ready; shown = shown; count = count; turns = turns } in
    let h1 = IsSettled-less k 3 (omega arith) h in
    let k1 = (switched stack ebp esp k).1 in
    let t1 = switched-Ticked stack ebp esp k h1 in
    let s1 = switched-Switched stack ebp esp k (small 1) in
    let h2 : IsSettled k1 2 = IsSettled-Ticked k k1 2 t1 h in
    let e2 : top k1 1 ≡ top k 2 = top-Ticked k k1 1 t1 in
    let k2 = (switched stack ebp2 esp2 k1).1 in
    let t2 = switched-Ticked stack ebp2 esp2 k1 (IsSettled-less k1 2 (omega arith) h2) in
    let s2 = switched-Switched stack ebp2 esp2 k1 (omega (arith, small 2, e2)) in
    let h3 : IsSettled k2 1 = IsSettled-Ticked k1 k2 1 t2 h2 in
    let e3 : top k2 1 ≡ k.curr_pid =
      top-Ticked k1 k2 1 t2
      ∙ top-Ticked k k1 2 t1
      ∙ ap (λ i. (k.screen.terminals i).top_pid) (omega arith)
      ∙ sym first in
    let s3 = switched-Switched stack ebp3 esp3 k2 (omega (arith, small 0, e3, first)) in
    let back : top k2 1 ≢ k2.curr_pid = λ e. ne2 (sym e2 ∙ sym s2.running ∙ sym e ∙ e3) in
    let kept : k2.pcbs k.curr_pid ≡ k1.pcbs k.curr_pid =
      s2.others k.curr_pid (λ e. ne1 (sym s1.running ∙ sym e)) in
    let saved : k2.pcbs (top k2 1) ≡ k1.pcbs k.curr_pid = ap k2.pcbs e3 ∙ kept in
    let resumed : (switched stack ebp3 esp3 k2).0 ≡ resumes ebp esp =
      s3.resumed back
      ∙ ap₂ resumes (ap (λ b. b.my_k_ebp) saved ∙ s1.saved_ebp)
          (ap (λ b. b.my_k_esp) saved ∙ s1.saved_esp) in
    (
      (switched stack ebp esp k).0,
      (switched stack ebp2 esp2 k1).0,
      k1,
      k2,
      (switched stack ebp3 esp3 k2).1,
      pit_handler-switched stack ebp esp k h1,
      pit_handler-switched stack ebp2 esp2 k1 (IsSettled-less k1 2 (omega arith) h2),
      pit_handler-switched stack ebp3 esp3 k2 h3
          ∙ ap (λ o. done (o, (switched stack ebp3 esp3 k2).1)) resumed,
      s1.running,
      s2.running ∙ e2,
      s3.running ∙ e3,
    )
