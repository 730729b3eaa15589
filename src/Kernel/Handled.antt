-- ===== src/Kernel/Handled.antt =====
-- How a handler of kernel/kernel.c ends, `schedule` first, and the breaks it leaves.
use memory_management.Base.{
  ℕ, zero, suc, ◌+◌, ◌-◌, ◌%◌, ◌<◌, ◌≡◌, inl, inr, true, false, ◌==◌, if-cases, sub64, Bool-cases,
  ℕ_discrete, arith,
}
use memory_management.Base.Run.{
  Run, ok, fault, out_of_fuel, Settles, settled, Settles-bind, Settles-weaken, ◌>>=◌,
}
use memory_management.Kernel.Process.{Proc, Kernel, brk, sbrk}
use memory_management.Kernel.Schedule.{nproc, turn, is_runnable, run, schedule_loop}
use memory_management.Kernel.System.{Image, System, is_p_free}
use memory_management.Kernel.Breaks.{IsProcess, Moved, sbrk-Moved, refused, moved}
use memory_management.Kernel.Syscalls.{
  current_process, with_process, pagetable_asserts, set_pagetable, run_process, schedule,
}

-- A process in use has its break in range.
abbrev pub IsSound : Proc → Type 0
IsSound p = is_p_free p.p_state ≡ false → IsProcess p

abbrev pub HasBreaks : System → Type 0
HasBreaks s = (q : ℕ) → IsSound (s.processes q)

-- How a handler ends: a runnable process runs, with every break in its range; or the kernel
-- panics; or `schedule` spins, since no process is runnable.
pub data Handled : Run System → Type 0 where
  resumed :
      {s : System} → HasBreaks s → is_runnable (current_process s).p_state ≡ true → Handled (ok s)
  panicked : Handled fault
  idle :
      (s : System)
      → ((q : ℕ) → q < nproc → is_runnable (s.processes q).p_state ≡ false)
      → Handled out_of_fuel

-- What the loop of `schedule` gives.
data Chosen (processes : ℕ → Proc) (pid fuel : ℕ) : Run ℕ → Type 0 where
  chosen : {q : ℕ} → is_runnable (processes q).p_state ≡ true → Chosen processes pid fuel (ok q)
  nobody :
      ((j : ℕ) → j < fuel → is_runnable (processes (turn pid j)).p_state ≡ false)
      → Chosen processes pid fuel out_of_fuel

further :
    (processes : ℕ → Proc) (pid fuel : ℕ) (r : Run ℕ)
    → is_runnable (processes ((pid + 1) % nproc)).p_state ≡ false
    → Chosen processes ((pid + 1) % nproc) fuel r
    → Chosen processes pid (suc fuel) r
further processes pid fuel r e (chosen h) = chosen h
further processes pid fuel r e (nobody h) = nobody λ j small. elim (ℕ_discrete j 0) [
  | yes first ↦ let at : turn pid j ≡ (pid + 1) % nproc = omega arith in rw at e
  | no other ↦
      let at : turn pid j ≡ turn ((pid + 1) % nproc) (j - 1) = omega arith in
      rw at (h (j - 1) (omega arith))
]

schedule_loop-Chosen :
    (fuel pid : ℕ) (processes : ℕ → Proc)
    → Chosen processes pid fuel (schedule_loop fuel pid processes)
unfolding schedule_loop run
schedule_loop-Chosen zero pid processes = nobody (λ j h. absurd (omega arith))
schedule_loop-Chosen (suc fuel) pid processes =
    let next = (pid + 1) % nproc in
    elim (Bool-cases (is_runnable (processes next).p_state)) [
      | inl e ↦ rw e (chosen e)
      | inr e ↦ rw e (further processes pid fuel _ e (schedule_loop-Chosen fuel next processes))
    ]

module _ (image : Image) where
  pagetable-Handled :
      (pagetable : ℕ) (s : System)
      → HasBreaks s
      → is_runnable (current_process s).p_state ≡ true
      → Handled (set_pagetable image pagetable s)
  unfolding set_pagetable
  pagetable-Handled pagetable s v r =
      if-cases Handled (pagetable_asserts image pagetable s.kernel.mem) (λ e. resumed {s = s} v r)
        (λ e. panicked)

  pub run_process-Handled : (pid : ℕ) (s : System) → HasBreaks s → Handled (run_process image pid s)
  unfolding run_process run
  run_process-Handled pid s v = elim (Bool-cases (is_runnable (s.processes pid).p_state)) [
    | inl e ↦
        rw e (pagetable-Handled (s.processes pid).p_pagetable (record s { current = pid }) v e)
    | inr e ↦ rw e panicked
  ]

  choose :
      (pid : ℕ) (s : System) (r : Run ℕ)
      → HasBreaks s
      → Chosen s.processes pid nproc r
      → Handled (r >>= λ next. run_process image next s)
  choose pid s r v (chosen {q} h) = run_process-Handled q s v
  choose pid s r v (nobody h) = idle s (λ q small.
      let at : turn pid ((q + 16 - (pid % 16) + 15) % 16) ≡ q = omega arith in
      let here = h ((q + 16 - (pid % 16) + 15) % 16) (omega arith) in rw at at here)

  pub schedule-Handled : (s : System) → HasBreaks s → Handled (schedule image s)
  unfolding schedule
  schedule-Handled s v =
      choose (current_process s).p_pid s _ v
        (schedule_loop-Chosen nproc (current_process s).p_pid s.processes)

-- Changing the running process, with its break in range.
pub with_process-HasBreaks :
    (p : Proc) (s : System) → HasBreaks s → IsSound p → HasBreaks (with_process p s)
with_process-HasBreaks p s v w q = if-cases IsSound (q == s.current) (λ e. w) (λ e. v q)

pub same_breaks :
    (p p' : Proc)
    → p'.program_break ≡ p.program_break
    → p'.original_break ≡ p.original_break
    → IsProcess p
    → IsProcess p'
same_breaks p p' e f v = record {
  pos = omega (arith, v.pos, f);
  above = omega (arith, v.above, e, f);
  below = omega (arith, v.below, e);
}

-- A process that can run is in use.
pub runnable_busy : (p : Proc) → is_runnable p.p_state ≡ true → is_p_free p.p_state ≡ false
runnable_busy p h = ground arith

-- The calls that move the break.
Moved-IsProcess :
    (p : Proc) (d : ℕ) (k : Kernel) (r : ℕ × Proc × Kernel)
    → IsProcess p
    → Moved p d k r
    → IsProcess r.1
Moved-IsProcess p d k r v (refused h e) = rw e v
Moved-IsProcess p d k r v (moved e f w g) = w

pub sbrk-IsProcess :
    (p : Proc) (d : ℕ) (k : Kernel) → IsProcess p → Settles (λ r. IsProcess r.1) (sbrk p d k)
sbrk-IsProcess p d k v =
    Settles-weaken (sbrk-Moved p d k v) λ r m. settled (Moved-IsProcess p d k r v m)

pub brk-IsProcess :
    (p : Proc) (a : ℕ) (k : Kernel) → IsProcess p → Settles (λ r. IsProcess r.1) (brk p a k)
unfolding brk
brk-IsProcess p a k v =
    Settles-bind (sbrk-IsProcess p (sub64 a p.program_break) k v) λ r w. settled w
