-- ===== src/Kernel/Reached.antt =====
-- About `exception` of kernel/kernel.c, and what a sequence of exceptions leads to.
use memory_management.Base.{
  ℕ, ◌/◌, ◌%◌, ◌≡◌, ◌≢◌, refl, sym, ap, inl, inr, true, not, ◌&&◌, ◌||◌, ◌==◌, if-cases, Bool-cases,
  arith,
}
use mathlib.Core.Path.{subst}
use memory_management.Base.Run.{Run, ok}
use memory_management.Kernel.Registers.{Registers}
use memory_management.Kernel.Process.{Proc}
use memory_management.Kernel.Schedule.{is_runnable}
use memory_management.Kernel.System.{Image, System, check_virtual_memory}
use memory_management.Kernel.Breaks.{IsProcess}
use memory_management.Kernel.Syscalls.{
  Vm, current_process, with_process, pagetable_asserts, set_pagetable,
}
use memory_management.Kernel.Exception.{exception}
use memory_management.Kernel.Handled.{
  HasBreaks, Handled, resumed, panicked, idle, with_process-HasBreaks, same_breaks, runnable_busy,
}
use memory_management.Kernel.Traps.{dispatch-Handled}

-- The system that a run returns, or the one given.
unfoldable pub run_value : Run System → System → System
run_value (ok s) t = s
run_value _ t = t

ok_injective : {s u : System} → ◌≡◌ {A = Run System} (ok s) (ok u) → s ≡ u
unfolding run_value
ok_injective {s} e = ap (λ r. run_value r s) e

module _ (vm : Vm) (image : Image) where
  -- From a system whose processes in use have their breaks in range, with a runnable process that
  -- is interrupted by anything but a fork call, `exception` panics or spins in `schedule`, or it
  -- ends with a runnable process running and all breaks in range.
  exception-Handled :
      (reg : Registers) (addr : ℕ) (s : System)
      → HasBreaks s
      → is_runnable (current_process s).p_state ≡ true
      → reg.reg_intno ≢ 52
      → Handled (exception vm image reg addr s)
  unfolding exception set_pagetable
  exception-Handled reg addr s v r other =
      let p = current_process s in
      let q : Proc = record p { p_registers = reg } in
      let w : IsProcess q = same_breaks p q refl refl (v s.current (runnable_busy p r)) in
      let s1 = with_process q s in
      let v1 = with_process-HasBreaks q s v (λ busy. w) in
      let here : current_process s1 ≡ q = ground arith in
      let handled =
        dispatch-Handled vm image reg.reg_intno reg.reg_err addr s1 other v1
          (subst IsProcess (sym here) w) in
      elim (Bool-cases (pagetable_asserts image image.kernel_pagetable s.kernel.mem)) [
        | inl e ↦ rw e (
            if-cases Handled
              ((not (reg.reg_intno == 14) && not (reg.reg_intno == 13))
                || (reg.reg_err / 4 % 2 == 1))
              (λ f. if-cases Handled (check_virtual_memory image s1) (λ g. handled) (λ g. panicked))
              (λ f. handled))
        | inr e ↦ rw e panicked
      ]

  -- The systems that a sequence of exceptions, of which none is a fork call, leads to.
  pub data Reached (s : System) : System → Type 0 where
    start : Reached s s
    next :
        {t u : System} (reg : Registers) (addr : ℕ)
        → Reached s t
        → reg.reg_intno ≢ 52
        → exception vm image reg addr t ≡ ok u
        → Reached s u

  after_exception :
      (u : System) (r : Run System)
      → Handled r
      → r ≡ ok u
      → HasBreaks u × (is_runnable (current_process u).p_state ≡ true)
  after_exception u r (resumed {s} v h) e =
      let same : s ≡ u = ok_injective e in
      (subst HasBreaks same v, subst (λ t. is_runnable (current_process t).p_state ≡ true) same h)
  after_exception u r panicked e = absurd (ground arith)
  after_exception u r (idle s h) e = absurd (ground arith)

  -- After any sequence of exceptions from a system whose processes in use have their breaks in range,
  -- with a runnable current process, of which none is a fork call, the current process is runnable
  -- and every process in use has its break in range.
  pub Reached-HasBreaks :
      {s t : System}
      → HasBreaks s
      → is_runnable (current_process s).p_state ≡ true
      → Reached s t
      → HasBreaks t × (is_runnable (current_process t).p_state ≡ true)
  Reached-HasBreaks v r start = (v, r)
  Reached-HasBreaks v r (next {t} {u} reg addr before other e) =
      let ih = Reached-HasBreaks v r before in
      after_exception u (exception vm image reg addr t)
        (exception-Handled reg addr t ih.0 ih.1 other) e
