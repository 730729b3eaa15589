-- ===== src/Kernel/Schedule.antt =====
-- `schedule` and `run` of kernel/kernel.c: the choice of the next process.
use memory_management.Base.{
  ℕ, zero, suc, ◌+◌, ◌-◌, ◌%◌, ◌<◌, ◌≡◌, sym, ap, ◌∙◌, inl, inr, Bool, true, false, if◌then◌else◌,
  Bool-cases, arith,
}
use mathlib.Core.Path.{subst}
use memory_management.Base.Run.{Run, ok, fault, out_of_fuel, Returns, returns, Returns-weaken}
use memory_management.Kernel.Process.{ProcState, p_runnable, Proc}

abbrev pub nproc : ℕ
nproc = 16

-- `p_state == P_RUNNABLE`
abbrev pub is_runnable : ProcState → Bool
is_runnable p_runnable = true
is_runnable _ = false

-- `run`, up to the jump to user mode: the process that is now current. The assert can fail.
unfoldable pub run : (ℕ → Proc) → (pid : ℕ) → Run ℕ
run processes pid = if is_runnable (processes pid).p_state then ok pid else fault

-- The loop of `schedule`, for the rounds in `fuel`; the source spins as long as no process is
-- runnable. The `check_keyboard` of each round, which reboots or powers off where a control key
-- was typed, is left out: no key is typed.
unfoldable pub schedule_loop : ℕ → (pid : ℕ) → (ℕ → Proc) → Run ℕ
unfolding run
schedule_loop zero pid processes = out_of_fuel
schedule_loop (suc fuel) pid processes =
    let next = (pid + 1) % nproc in
    let rest = schedule_loop fuel next processes in
    if is_runnable (processes next).p_state then run processes next else rest

-- The process `d + 1` places behind `pid`, around the table.
abbrev pub turn : (pid d : ℕ) → ℕ
turn pid d = (pid + d + 1) % nproc

-- Round robin: `q` is the first runnable process behind `pid`, within `rounds` places.
pub record Turn (processes : ℕ → Proc) (pid rounds q : ℕ) : Type 0 where
  pub distance : ℕ
  pub within : distance < rounds
  pub place : q ≡ turn pid distance
  pub runnable : is_runnable (processes q).p_state ≡ true
  pub passed : (j : ℕ) → j < distance → is_runnable (processes (turn pid j)).p_state ≡ false

module _ (processes : ℕ → Proc) where
  turn-next : (pid j : ℕ) → turn ((pid + 1) % nproc) j ≡ turn pid (suc j)
  turn-next pid j = omega arith

  first_turn : (pid : ℕ) → turn pid 0 ≡ (pid + 1) % nproc
  first_turn pid = omega arith

  module _ (pid d : ℕ) (e : is_runnable (processes ((pid + 1) % nproc)).p_state ≡ false) where
    passed_later :
        ((j : ℕ) → j < d → is_runnable (processes (turn ((pid + 1) % nproc) j)).p_state ≡ false)
        → (j : ℕ) → j < suc d
        → is_runnable (processes (turn pid j)).p_state ≡ false
    passed_later t zero h =
        subst (λ q. is_runnable (processes q).p_state ≡ false) (sym (first_turn pid)) e
    passed_later t (suc j) h =
        subst (λ q. is_runnable (processes q).p_state ≡ false) (turn-next pid j) (t j (omega arith))

  later :
      (pid fuel q : ℕ)
      → is_runnable (processes ((pid + 1) % nproc)).p_state ≡ false
      → Turn processes ((pid + 1) % nproc) fuel q
      → Turn processes pid (suc fuel) q
  later pid fuel q e t = record {
    distance = suc t.distance;
    within = omega (arith, t.within);
    place = t.place ∙ turn-next pid t.distance;
    runnable = t.runnable;
    passed = passed_later pid t.distance e t.passed;
  }

  runnable_behind :
      (pid j : ℕ)
      → is_runnable (processes ((pid + 1) % nproc)).p_state ≡ false
      → is_runnable (processes (turn pid j)).p_state ≡ true
      → (0 < j) × (is_runnable (processes (turn ((pid + 1) % nproc) (j - 1))).p_state ≡ true)
  runnable_behind pid zero e r =
      absurd (ground (arith, ap (λ q. is_runnable (processes q).p_state) (first_turn pid)))
  runnable_behind pid (suc j) e r =
      let pred : suc j - 1 ≡ j = omega arith in
      rw pred (
        omega arith,
        subst (λ q. is_runnable (processes q).p_state ≡ true) (sym (turn-next pid j)) r,
      )

  -- If a process at most `fuel` places behind `pid` is runnable, `fuel` rounds of `schedule` run
  -- the first runnable process behind `pid`.
  pub schedule_loop-Turn :
      (fuel pid j : ℕ)
      → j < fuel
      → is_runnable (processes (turn pid j)).p_state ≡ true
      → Returns (Turn processes pid fuel) (schedule_loop fuel pid processes)
  unfolding schedule_loop run
  schedule_loop-Turn zero pid j h r = absurd (omega arith)
  schedule_loop-Turn (suc fuel) pid j h r =
      let next = (pid + 1) % nproc in
      elim (Bool-cases (is_runnable (processes next).p_state)) [
        | inl e ↦ rw e (
            returns (record {
              distance = 0;
              within = omega arith;
              place = sym (first_turn pid);
              runnable = e;
              passed = λ i k. absurd (omega arith);
            }))
        | inr e ↦
            let behind = runnable_behind pid j e r in
            rw e (
              Returns-weaken
                (schedule_loop-Turn fuel next (j - 1) (omega (arith, behind.0)) behind.1)
                λ q t. later pid fuel q e t)
      ]
