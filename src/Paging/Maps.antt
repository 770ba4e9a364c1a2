-- ===== src/Paging/Maps.antt =====
-- Where the addresses of a user program lead, with the page tables that paging.c, terminal.c and
-- system_execute.c set up (student-distrib).
use native.Mathlib.Decide.{ℕ_discrete}
use octave_os.Base.{
  ℕ, ◌+◌, ◌*◌, ◌/◌, ◌%◌, ◌^◌, ◌<◌, ◌≤◌, ◌≡◌, refl, arith, Bool, true, false, ltb, leb, ◌||◌,
  if◌then◌else◌, ◌==◌, Option, none, some, nonzero, Bool-cases, inl, inr, minus_one,
}
use octave_os.Kernel.{PageEntry, Kernel, current_term, eight_mb, max_pid}
use octave_os.Screen.{update_cursor}
use octave_os.Terminal.{fourkb, max_term, user_vmem_syscall, term_switch}
use octave_os.Terminal.Switch.{HasPages, video_mem-switch}
use octave_os.Paging.{user_program_mem, four_mb, setup_paging, system_vidmap, undo_user_paging}

abbrev pub not_present : PageEntry → Bool
not_present e = e.p == 0

-- The walk of the processor: the physical address behind a virtual one, where the pages are present.
-- An entry of the directory either maps 4 MB or leads to one of the two tables, `table_1` being the
-- address of the second.
abbrev pub translate : (table_1 : ℕ) → Kernel → (address : ℕ) → Option ℕ
translate table_1 k v =
    let pde = k.page_directory (v / 2 ^ 22 % 1024) in
    let i = v / 2 ^ 12 % 1024 in
    let pte = if pde.address_20 == table_1 / 2 ^ 12 then k.page_table_1 i else k.page_table_0 i in
    if not_present pde
    then none
    else if nonzero pde.ps
    then some (pde.address_20 / 2 ^ 10 * 2 ^ 22 + v % 2 ^ 22)
    else if not_present pte
    then none
    else some (pte.address_20 * 2 ^ 12 + v % 2 ^ 12)

-- With `setup_paging` of one of the six processes, the 4 MB from `USER_PROGRAM_MEM` on lead to the 4
-- MB of that process, which begin at 8 MB and 4 MB for each lower process number.
pub translate-setup_paging :
    (table_1 pid offset : ℕ) (k : Kernel)
    → pid < max_pid
    → offset < four_mb
    → translate table_1 (setup_paging pid k) (user_program_mem + offset)
      ≡ some (eight_mb + pid * four_mb + offset)
unfolding setup_paging
translate-setup_paging table_1 pid offset k hp ho = ground arith

-- Paging leaves the processes alone.
pub setup_paging-processes :
    (pid : ℕ) (k : Kernel)
    → ((setup_paging pid k).pcbs ≡ k.pcbs)
      × ((setup_paging pid k).curr_pid ≡ k.curr_pid)
      × ((setup_paging pid k).free_pid ≡ k.free_pid)
unfolding setup_paging undo_user_paging
setup_paging-processes pid k = elim (Bool-cases (pid == minus_one)) [
  | inl e ↦ rw e (refl, refl, refl)
  | inr ne ↦ rw ne (refl, refl, refl)
]

-- And the terminals and the scheduler.
pub setup_paging-scheduler :
    (pid : ℕ) (k : Kernel)
    → ((setup_paging pid k).screen ≡ k.screen)
      × ((setup_paging pid k).pit_count ≡ k.pit_count)
      × ((setup_paging pid k).shells_done ≡ k.shells_done)
      × ((setup_paging pid k).schedule_counter ≡ k.schedule_counter)
unfolding setup_paging undo_user_paging
setup_paging-scheduler pid k = elim (Bool-cases (pid == minus_one)) [
  | inl e ↦ rw e (refl, refl, refl, refl)
  | inr ne ↦ rw ne (refl, refl, refl, refl)
]

-- The entry of the directory for the page of video memory that a program sees.
abbrev vmem_pde : Kernel → PageEntry
vmem_pde k = k.page_directory (user_vmem_syscall / 2 ^ 22)

-- The page of video memory that a program sees is mapped, through the second table, and leads to the
-- text of the running process's terminal.
pub record IsMapped (table_1 : ℕ) (k : Kernel) : Type 0 where
  pub present : (vmem_pde k).p ≡ 1
  pub has_table : (vmem_pde k).ps ≡ 0
  pub second : (vmem_pde k).address_20 ≡ table_1 / 2 ^ 12
  pub leads :
      (offset : ℕ)
      → offset < fourkb
      → translate table_1 k (user_vmem_syscall + offset)
        ≡ some ((k.screen.terminals (current_term k)).video_mem + offset)

module _ (table_1 : ℕ) (k : Kernel) (ok : HasPages k.screen) (ht : current_term k < max_term) where
  -- `system_vidmap` with a pointer into the user's memory, which ends where the mapped page begins,
  -- succeeds, and the page it returns then leads to the text of the running process's terminal,
  -- where the terminals' pages are as they must be and that terminal is one of the three.
  pub system_vidmap-IsMapped :
      (screen_start : ℕ)
      → user_program_mem ≤ screen_start
      → screen_start < user_vmem_syscall
      → ((system_vidmap table_1 screen_start k).0 ≡ 0)
        × ((system_vidmap table_1 screen_start k).2 ≡ user_vmem_syscall)
        × IsMapped table_1 (system_vidmap table_1 screen_start k).1
  unfolding system_vidmap
  system_vidmap-IsMapped screen_start lo hi =
      let inside : (ltb screen_start user_program_mem || leb user_vmem_syscall screen_start)
          ≡ false =
        ground arith in
      rw inside (
        refl,
        refl,
        record {
          present = refl;
          has_table = refl;
          second = refl;
          leads = λ o ho. ground (arith, ok.pages (current_term k) ht);
        },
      )

  -- `term_switch` to one of the terminals keeps the mapped page leading to the text of the running
  -- process's terminal, wherever that text then stands. The terminals' pages are as they must be, and
  -- the running process has one of the three terminals.
  pub term_switch-IsMapped :
      (new : ℕ) → new < max_term → IsMapped table_1 k → IsMapped table_1 (term_switch new k)
  unfolding term_switch update_cursor
  term_switch-IsMapped new hn m = elim (ℕ_discrete k.screen.curr_term new) [
    | yes e ↦ let stays : (k.screen.curr_term == new) ≡ true = ground arith in rw stays m
    | no ne ↦
        let moves : (k.screen.curr_term == new) ≡ false = ground arith in
        let place = video_mem-switch new k.screen ok hn ne (current_term k) ht in
        rw moves (record {
          present = m.present;
          has_table = m.has_table;
          second = m.second;
          leads = λ o ho. ground (arith, place, m.present, m.has_table, m.second);
        })
  ]
