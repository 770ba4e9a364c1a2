-- ===== src/Tests/Processes.antt =====
-- The processes and their memory, on the kernel of `Data`.
use octave_os.Base.{ℕ, ◌+◌, ◌≡◌, refl, arith, some, ◌==◌, if◌then◌else◌, [], ◌∷◌, done}
use octave_os.Kernel.{Kernel}
use octave_os.Terminal.{user_vmem_syscall, term_switch}
use octave_os.Terminal.Switch.{HasPages}
use octave_os.Paging.{user_program_mem, setup_paging, system_vidmap}
use octave_os.Paging.Maps.{
  translate, IsMapped, translate-setup_paging, system_vidmap-IsMapped, term_switch-IsMapped,
}
use octave_os.Str.{Bytes}
use octave_os.FileSys.{read_range}
use octave_os.Process.{system_halt, resumes_parent}
use octave_os.Execute.{parse_name, start_child}
use octave_os.Execute.Started.{parse_name-word, system_halt-start_child}
use octave_os.Schedule.{Scheduled, schedule, resumes, pit_handler}
use octave_os.Schedule.Rounds.{pit_handler-round}
use octave_os.Schedule.Switched.{Switched, schedule-Switched}
use octave_os.Tests.Data.{kernel}

translate-setup_paging_example :
    translate 0x3000 (setup_paging 2 kernel) (user_program_mem + 5) ≡ some 0x1000005
translate-setup_paging_example =
    translate-setup_paging 0x3000 2 5 kernel (omega arith) (omega arith)

kernel-HasPages : HasPages kernel.screen
kernel-HasPages = record { shown = omega arith; pages = λ t ht. refl }

system_vidmap-IsMapped_example :
    ((system_vidmap 0x3000 0x8048000 kernel).0 ≡ 0)
    × ((system_vidmap 0x3000 0x8048000 kernel).2 ≡ user_vmem_syscall)
    × IsMapped 0x3000 (system_vidmap 0x3000 0x8048000 kernel).1
system_vidmap-IsMapped_example =
    system_vidmap-IsMapped 0x3000 kernel kernel-HasPages (omega arith) 0x8048000 (omega arith)
      (omega arith)

-- The kernel after a program has mapped its page.
abbrev mapped : Kernel
mapped = (system_vidmap 0x3000 0x8048000 kernel).1

mapped-HasPages : HasPages mapped.screen
unfolding system_vidmap
mapped-HasPages = record { shown = omega arith; pages = λ t ht. refl }

mapped-IsMapped : IsMapped 0x3000 mapped
mapped-IsMapped =
    (system_vidmap-IsMapped 0x3000 kernel kernel-HasPages (omega arith) 0x8048000 (omega arith)
      (omega arith)).2

term_switch-IsMapped_example : IsMapped 0x3000 (term_switch 1 mapped)
unfolding system_vidmap
term_switch-IsMapped_example =
    term_switch-IsMapped 0x3000 mapped mapped-HasPages (omega arith) 1 (omega arith) mapped-IsMapped

-- The command " ls".
abbrev ls_command : Bytes
ls_command j = if j == 0 then 32 else if j == 1 then 108 else if j == 2 then 115 else 0

parse_name-word_example : parse_name ls_command ≡ done (3, 108 ∷ 115 ∷ [])
unfolding read_range
parse_name-word_example =
    parse_name-word ls_command 1 2 (λ j h. ground arith) (λ j lo hi. ground arith) refl
      (omega arith) (omega arith) (omega arith)

system_halt-start_child_example :
    ((system_halt (start_child 3 20 24 [] kernel)).0 ≡ resumes_parent 20 24)
    × ((system_halt (start_child 3 20 24 [] kernel)).1.curr_pid ≡ 1)
    × ((j : ℕ)
        → (system_halt (start_child 3 20 24 [] kernel)).1.free_pid j
          ≡ (if 3 == j then 1 else kernel.free_pid j))
system_halt-start_child_example = system_halt-start_child 3 20 24 [] kernel (λ e. omega arith) refl

schedule-Switched_example :
    (out : Scheduled × Kernel) × (schedule (λ i. 0) 20 24 kernel ≡ done out)
    × Switched 20 24 0 kernel out
    × (out.1.schedule_counter ≡ kernel.schedule_counter + 1)
schedule-Switched_example =
    schedule-Switched (λ i. 0) 20 24 kernel refl (λ e. omega arith) (omega arith) (omega arith)

-- The process of the third terminal runs.
abbrev third : Kernel
third = record kernel { curr_pid = 2 }

pit_handler-round_example :
    (o1 o2 : Scheduled) × (k1 k2 k3 : Kernel) × (pit_handler (λ i. 0) 11 12 third ≡ done (o1, k1))
    × (pit_handler (λ i. 0) 21 22 k1 ≡ done (o2, k2))
    × (pit_handler (λ i. 0) 31 32 k2 ≡ done (resumes 11 12, k3))
    × (k1.curr_pid ≡ 0)
    × (k2.curr_pid ≡ 1)
    × (k3.curr_pid ≡ 2)
pit_handler-round_example =
    pit_handler-round (λ i. 0) 11 12 21 22 31 32 third refl (omega arith) (omega arith)
      (omega arith) (λ d. omega arith) refl (λ e. omega arith) (λ e. omega arith)
