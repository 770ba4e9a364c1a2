-- ===== src/Rtc/Handler.antt =====
-- When `rtc_handler` of student-distrib/rtc.c wakes a process, and that `rtc_read` ends.
use mathlib.Core.Path.{subst}
use native.Mathlib.Nat.{mod-lt}
use native.Mathlib.Decide.{ℕ_discrete}
use octave_os.Base.{
  ℕ, zero, suc, ◌+◌, ◌%◌, ◌^◌, ◌<◌, ◌≤◌, ◌≡◌, refl, ◌∙◌, ap, ◌&&◌, arith, leb, ltb, ◌==◌,
  if◌then◌else◌, update, rem_signed, nonzero, done, Bool-cases, inl, inr, true, false, add32, ◌⊎◌,
  sym,
}
use octave_os.Kernel.{Kernel, max_pid}
use octave_os.Rtc.{wake, rtc_handler, rtc_wait, rtc_read, ticked}

-- No process has the scale 0 at which the handler divides by zero.
abbrev pub HasScales : (ℕ → ℕ) → Type 0
HasScales scales = (i : ℕ) → i < max_pid → 0 < scales i

-- The flag of a process after an interrupt.
abbrev pub woken : (count : ℕ) → (ℕ → ℕ) → (ℕ → ℕ) → ℕ → ℕ
woken count scales flags j = if rem_signed count (scales j) == 0 then 1 else flags j

-- One round of the loop, at any process.
round-woken :
    (count : ℕ) (scales flags : ℕ → ℕ) (i j : ℕ)
    → (if rem_signed count (scales i) == 0 then update flags i 1 else flags) j
      ≡ (if i == j then woken count scales flags j else flags j)
round-woken count scales flags i j = elim (Bool-cases (rem_signed count (scales i) == 0)) [
  | inl hit ↦ elim (ℕ_discrete i j) [ yes e ↦ rw hit (same e hit) | no ne ↦ rw hit (ground arith) ]
  | inr miss ↦ elim (ℕ_discrete i j) [
    | yes e ↦ rw miss (same' e miss)
    | no ne ↦ rw miss (ground arith)
  ]
]
  where
    same :
        i ≡ j
        → (rem_signed count (scales i) == 0) ≡ true
        → update flags i 1 j ≡ (if i == j then woken count scales flags j else flags j)
    same e hit = rw (← e, hit) (ground arith)

    same' :
        i ≡ j
        → (rem_signed count (scales i) == 0) ≡ false
        → flags j ≡ (if i == j then woken count scales flags j else flags j)
    same' e miss = rw (← e, miss) (ground arith)

wake_lem :
    (count : ℕ) (scales flags : ℕ → ℕ) (i n : ℕ)
    → i + n ≡ max_pid
    → HasScales scales
    → (flags' : ℕ → ℕ) × (wake count scales flags i n ≡ done flags')
      × ((j : ℕ)
          → flags' j ≡ (if leb i j && ltb j (i + n) then woken count scales flags j else flags j))
unfolding wake
wake_lem count scales flags i zero e pos = (flags, refl, λ j. ground arith)
wake_lem count scales flags i (suc n) e pos =
    let first = if rem_signed count (scales i) == 0 then update flags i 1 else flags in
    let rest = wake_lem count scales first (i + 1) n (omega arith) pos in
    let here : (scales i == 0) ≡ false = ground (arith, pos i) in
    (rest.0, rw here rest.1, λ j. rest.2 j ∙ ground (arith, round-woken count scales flags i j))

-- What an interrupt does to the kernel.
pub record Ticked (k k' : Kernel) : Type 0 where
  pub count : k'.rtc_count ≡ add32 k.rtc_count 1
  pub flags :
      (j : ℕ)
      → k'.process_flags j ≡ (
          if ltb j max_pid
          then woken (add32 k.rtc_count 1) k.rtc_scales k.process_flags j
          else k.process_flags j)
  pub scales : k'.rtc_scales ≡ k.rtc_scales
  pub pid : k'.curr_pid ≡ k.curr_pid

-- `rtc_handler` returns, where no scale is 0: it counts the interrupt and sets the flag of exactly
-- the processes whose scale divides the new count. The scales and the running process stay.
pub rtc_handler-Ticked :
    (k : Kernel) → HasScales k.rtc_scales → (k' : Kernel) × (rtc_handler k ≡ done k') × Ticked k k'
unfolding rtc_handler
rtc_handler-Ticked k pos =
    let w = wake_lem (add32 k.rtc_count 1) k.rtc_scales k.process_flags 0 max_pid refl pos in
    (
      ticked (add32 k.rtc_count 1) w.0 k,
      rw w.1,
      record { count = refl; flags = λ j. ground (arith, w.2 j); scales = refl; pid = refl },
    )

rtc_wait_set :
    (n : ℕ) (k : Kernel) → nonzero (k.process_flags k.curr_pid) ≡ true → rtc_wait n k ≡ done (0, k)
unfolding rtc_wait
rtc_wait_set zero k h = rw h
rtc_wait_set (suc n) k h = rw h

-- The next multiple of `m` after `c` is nearer than after `c`, or is the next number.
mod_next : (c m : ℕ) → 0 < m → ((c + 1) % m ≡ 0) ⊎ ((c + 1) % m ≡ c % m + 1)
mod_next c m h = grind arith

-- The flag of the running process after an interrupt whose count its scale divides.
set_by_tick :
    {k k' : Kernel}
    → Ticked k k'
    → k.curr_pid < max_pid
    → k.rtc_count + 1 < 2 ^ 31
    → (k.rtc_count + 1) % k.rtc_scales k.curr_pid ≡ 0
    → nonzero (k'.process_flags k'.curr_pid) ≡ true
set_by_tick {k} {k'} tick pid small hit =
    let count : add32 k.rtc_count 1 ≡ k.rtc_count + 1 = omega arith in
    let flag : k'.process_flags k'.curr_pid ≡ 1 =
      ap k'.process_flags tick.pid ∙ tick.flags k.curr_pid ∙ rw count (ground arith) in
    ap nonzero flag

-- With enough interrupts still to come, the wait ends.
rtc_wait_ends :
    (n : ℕ) (k : Kernel)
    → HasScales k.rtc_scales
    → k.curr_pid < max_pid
    → k.rtc_count + n < 2 ^ 31
    → k.rtc_scales k.curr_pid ≤ n + k.rtc_count % k.rtc_scales k.curr_pid
    → (k' : Kernel) × (rtc_wait n k ≡ done (0, k'))
unfolding rtc_wait
rtc_wait_ends zero k pos pid small near =
    absurd (omega (arith, pos k.curr_pid pid, mod-lt k.rtc_count (pos k.curr_pid pid)))
rtc_wait_ends (suc n) k pos pid small near =
    elim (Bool-cases (nonzero (k.process_flags k.curr_pid))) [
      | inl set ↦ (k, rw set)
      | inr clear ↦
          let (k', run, tick) = rtc_handler-Ticked k pos in
          let scale : k'.rtc_scales k'.curr_pid ≡ k.rtc_scales k.curr_pid =
            λ i. tick.scales i (tick.pid i) in
          let count : k'.rtc_count ≡ k.rtc_count + 1 = omega (arith, tick.count) in
          let rest : (k'' : Kernel) × (rtc_wait n k' ≡ done (0, k'')) =
            elim (mod_next k.rtc_count (k.rtc_scales k.curr_pid) (pos k.curr_pid pid)) [
              | inl hit ↦ (k', rtc_wait_set n k' (set_by_tick tick pid (omega arith) hit))
              | inr later ↦
                  rtc_wait_ends n k' (subst HasScales (sym tick.scales) pos)
                    (omega (arith, tick.pid)) (omega arith)
                    (rw (scale, count) (omega (arith, later)))
            ] in
          (rest.0, rw (clear, run) rest.1)
    ]

-- `rtc_read` returns 0 at the latest after as many interrupts as the scale of the process: with that
-- many still to come it ends, where no scale is 0 and the count does not wrap.
pub rtc_read_ends :
    (n : ℕ) (k : Kernel)
    → HasScales k.rtc_scales
    → k.curr_pid < max_pid
    → k.rtc_count + n < 2 ^ 31
    → k.rtc_scales k.curr_pid ≤ n
    → (k' : Kernel) × (rtc_read n k ≡ done (0, k'))
unfolding rtc_read
rtc_read_ends n k pos pid small enough =
    rtc_wait_ends n (record k { process_flags = update k.process_flags k.curr_pid 0 }) pos pid small
      (omega arith)
