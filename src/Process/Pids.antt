-- ===== src/Process/Pids.antt =====
-- The process numbers and kernel stacks of student-distrib/system_execute.c.
use native.Mathlib.Decide.{ℕ_discrete}
use octave_os.Base.{
  ap, ◌∙◌, Bool-cases, ℕ, zero, suc, ◌+◌, ◌<◌, ◌≤◌, ◌≡◌, refl, true, ◌⊎◌, inl, inr, arith, nonzero,
  minus_one,
}
use octave_os.Kernel.{at_address, Kernel, max_pid, pid_to_pcb}
use octave_os.Process.{find_free, find_free_process, pid_to_ksb}

-- `p` is the least free number of those from `i` up to `last`.
pub record IsLeastFree (free : ℕ → ℕ) (i last p : ℕ) : Type 0 where
  pub from : i ≤ p
  pub below : p < last
  pub is_free : nonzero (free p) ≡ true
  pub lower_taken : (q : ℕ) → i ≤ q → q < p → free q ≡ 0

-- Every number from `i` up to `last` is taken.
abbrev pub AllTaken : (free : ℕ → ℕ) → (i last : ℕ) → Type 0
AllTaken free i last = (q : ℕ) → i ≤ q → q < last → free q ≡ 0

find_free_lem :
    (free : ℕ → ℕ) (i n : ℕ)
    → IsLeastFree free i (i + n) (find_free free i n)
      ⊎ ((find_free free i n ≡ minus_one) × AllTaken free i (i + n))
unfolding find_free
find_free_lem free i zero = inr (refl, λ q hi hq. omega arith)
find_free_lem free i (suc n) = elim (Bool-cases (nonzero (free i))) [
  | inl is ↦ rw is (
      inl (record {
        from = omega arith;
        below = omega arith;
        is_free = is;
        lower_taken = λ q hi hq. omega arith;
      }))
  | inr taken ↦
      let zero_at : free i ≡ 0 = ground arith in
      let at : (q : ℕ) → q ≡ i → free q ≡ 0 = λ q e. ap free e ∙ zero_at in
      let reach : i + 1 + n ≡ i + suc n = omega arith in
      rw (taken) (elim (find_free_lem free (i + 1) n) [
        | inl l ↦ inl (record {
          from = omega (arith, l.from);
          below = omega (arith, l.below);
          is_free = l.is_free;
          lower_taken = λ q hi hq. elim (ℕ_discrete q i) [
            | yes e ↦ at q e
            | no ne ↦ l.lower_taken q (omega arith) hq
          ];
        })
        | inr (e, none_free) ↦ inr (
          e,
          λ q hi hq. elim (ℕ_discrete q i) [
            | yes e' ↦ at q e'
            | no ne ↦ none_free q (omega arith) (omega arith)
          ],
        )
      ])
]

-- `find_free_process` returns the least free process number of the six, or -1 where all are taken.
pub find_free_process-IsLeastFree :
    (k : Kernel)
    → IsLeastFree k.free_pid 0 max_pid (find_free_process k)
      ⊎ ((find_free_process k ≡ minus_one) × AllTaken k.free_pid 0 max_pid)
unfolding find_free_process
find_free_process-IsLeastFree k = find_free_lem k.free_pid 0 max_pid

-- The control blocks and kernel stacks of two of the six processes do not overlap: the block of the
-- process with the higher number lies below its stack, whose first word ends where the block of a
-- lower number begins at the latest.
pub pid_to_ksb-pid_to_pcb :
    (p q a b : ℕ)
    → p < q
    → q < max_pid
    → pid_to_pcb p ≡ at_address a
    → pid_to_pcb q ≡ at_address b
    → (b < pid_to_ksb q) × (pid_to_ksb q + 4 ≤ a)
unfolding pid_to_pcb pid_to_ksb
pid_to_ksb-pid_to_pcb p q a b hpq hq ha hb = ground arith
