-- ===== src/Uspace/Called.antt =====
-- About the system calls of uspace/process.h: what they return to the process that makes them.
use memory_management.Base.{
  ℕ, ◌%◌, ◌/◌, ◌≡◌, ◌≢◌, refl, true, false, not, ◌&&◌, ◌||◌, ◌==◌, if◌then◌else◌, if-cases, sym,
  arith,
}
use mathlib.Core.Path.{subst}
use memory_management.Base.Run.{Run, ok, fault, Settles, settled, faulted, Settles-weaken, ◌>>=◌}
use memory_management.Kernel.Registers.{Registers}
use memory_management.Kernel.Process.{Proc, Kernel}
use memory_management.Kernel.Process
use memory_management.Kernel.Schedule.{is_runnable, run}
use memory_management.Kernel.System.{Image, System, check_virtual_memory}
use memory_management.Kernel.Breaks.{IsProcess, Moved, sbrk-Moved, refused, moved}
use memory_management.Kernel.Syscalls.{
  Vm, current_process, with_process, set_rax, set_pagetable, pagetable_asserts, run_process,
  syscall_break,
}
use memory_management.Kernel.Exception.{resume, dispatch, exception}
use memory_management.Uspace.Calls.{result, trap, getpid, sbrk}

-- The calling process, as the kernel has it in the call.
abbrev caller : (reg : Registers) (intno rdi rsi : ℕ) → System → Proc
caller reg intno rdi rsi s = record (current_process s) {
  p_registers = record reg { reg_intno = intno; reg_rdi = rdi; reg_rsi = rsi; reg_err = 0 };
}

current_process-with : (p : Proc) (s : System) → current_process (with_process p s) ≡ p
current_process-with p s = ground arith

module _ (vm : Vm) (image : Image) where
  -- A runnable process is resumed, with nothing else changed.
  resume-Settles :
      (s : System)
      → is_runnable (current_process s).p_state ≡ true
      → Settles (λ t. t ≡ s) (resume vm image s)
  unfolding resume run_process run set_pagetable
  resume-Settles s ready = rw ready (
      if-cases (Settles (λ t. t ≡ s))
        (pagetable_asserts image (current_process s).p_pagetable s.kernel.mem) (λ e. settled refl)
        (λ e. faulted))

  -- A system call is its case of the switch, or the kernel panics in a check.
  trap-Settles :
      {P : System → Type 0} (reg : Registers) (intno rdi rsi : ℕ) (s : System)
      → (intno == 14) ≡ false
      → (intno == 13) ≡ false
      → Settles P (dispatch vm image intno 0 0 (with_process (caller reg intno rdi rsi s) s))
      → Settles P (trap vm image reg intno rdi rsi s)
  unfolding trap exception set_pagetable
  trap-Settles {P} reg intno rdi rsi s page general h =
      let s1 = with_process (caller reg intno rdi rsi s) s in
      if-cases {A = Run System}
        (λ r. Settles P (
          r >>= λ s2.
          if (not (intno == 14) && not (intno == 13)) || (0 / 4 % 2 == 1)
          then (if check_virtual_memory image s2 then dispatch vm image intno 0 0 s2 else fault)
          else dispatch vm image intno 0 0 s2))
        {x = ok s1} {y = fault} (pagetable_asserts image image.kernel_pagetable s1.kernel.mem)
        (λ e.
          rw (page, general)
            (if-cases (Settles P) (check_virtual_memory image s1) (λ c. h) (λ c. faulted)))
        (λ e. faulted)

  -- What `getpid` leaves.
  record Named (s t : System) : Type 0 where
    pub pid : result t ≡ (current_process s).p_pid
    pub current : t.current ≡ s.current
    pub kernel : t.kernel ≡ s.kernel
    pub others : (q : ℕ) → q ≢ s.current → t.processes q ≡ s.processes q

  -- A runnable process that calls `getpid` goes on with its process number as the result, or the
  -- kernel panics in a check; page tables, page information and the other processes are as before.
  getpid-Named :
      (reg : Registers) (s : System)
      → is_runnable (current_process s).p_state ≡ true
      → Settles (Named s) (getpid vm image reg s)
  unfolding getpid dispatch
  getpid-Named reg s ready =
      let p = caller reg 49 reg.reg_rdi reg.reg_rsi s in
      let s1 = with_process p s in
      trap-Settles reg 49 reg.reg_rdi reg.reg_rsi s refl refl (
        Settles-weaken (resume-Settles (set_rax (current_process s1).p_pid s1) (ground arith))
          λ t same. settled (
            rw same (record {
              pid = ground arith;
              current = refl;
              kernel = refl;
              others = λ q other. ground arith;
            })))

  -- What `sbrk` leaves: its result is the one of the kernel's `sbrk` on the calling process.
  pub record Answered (reg : Registers) (increment : ℕ) (s t : System) : Type 0 where
    pub answer : ℕ × Proc × Kernel
    pub called : Process.sbrk (caller reg 58 increment reg.reg_rsi s) increment s.kernel ≡ ok answer
    pub break_moved : Moved (caller reg 58 increment reg.reg_rsi s) increment s.kernel answer
    pub value : result t ≡ answer.0
    pub break : (current_process t).program_break ≡ (answer.1).program_break
    pub kernel : t.kernel ≡ answer.2
    pub current : t.current ≡ s.current
    pub others : (q : ℕ) → q ≢ s.current → t.processes q ≡ s.processes q

  Moved-runnable :
      (p : Proc) (d : ℕ) (k : Kernel) (r : ℕ × Proc × Kernel)
      → Moved p d k r
      → is_runnable p.p_state ≡ true
      → is_runnable (r.1).p_state ≡ true
  Moved-runnable p d k r (refused _ e) ready = rw e ready
  Moved-runnable p d k r (moved _ e _ _) ready = rw e ready

  -- The end of the call, behind the kernel's `sbrk`.
  break-Answered :
      (reg : Registers) (increment : ℕ) (s : System) (r : Run (ℕ × Proc × Kernel))
      → let p = caller reg 58 increment reg.reg_rsi s in
        is_runnable p.p_state ≡ true
        → Process.sbrk p increment s.kernel ≡ r
        → Settles (Moved p increment s.kernel) r
        → Settles (Answered reg increment s) (
            (r >>= λ x.
            ok (set_rax x.0 (record (with_process x.1 (with_process p s)) { kernel = x.2 })))
            >>= resume vm image)
  break-Answered reg increment s r ready call (settled {a = x} m) =
      let p = caller reg 58 increment reg.reg_rsi s in
      let left : System = record (with_process x.1 (with_process p s)) { kernel = x.2 } in
      let ready' = Moved-runnable p increment s.kernel x m ready in
      Settles-weaken (resume-Settles (set_rax x.0 left) (ground arith)) λ t same. settled (
        rw same (record {
          answer = x;
          called = call;
          break_moved = m;
          value = ground arith;
          break = ground arith;
          kernel = refl;
          current = refl;
          others = λ q other. ground arith;
        }))
  break-Answered reg increment s r ready call faulted = faulted

  -- A runnable process with its break in range that calls `sbrk` goes on with the value that the
  -- kernel's `sbrk` returns for it, its break where that call puts it, and the page tables and page
  -- information that it leaves, or the kernel panics in a check; the other processes are as before.
  pub sbrk-Answered :
      (reg : Registers) (increment : ℕ) (s : System)
      → IsProcess (current_process s)
      → is_runnable (current_process s).p_state ≡ true
      → Settles (Answered reg increment s) (sbrk vm image reg increment s)
  unfolding sbrk dispatch syscall_break
  sbrk-Answered reg increment s v ready =
      let p = caller reg 58 increment reg.reg_rsi s in
      let s1 = with_process p s in
      trap-Settles reg 58 increment reg.reg_rsi s refl refl (
        subst
          (λ q. Settles (Answered reg increment s) (
            (Process.sbrk q q.p_registers.reg_rdi s.kernel >>= λ x.
            ok (set_rax x.0 (record (with_process x.1 s1) { kernel = x.2 })))
            >>= resume vm image))
          (sym (current_process-with p s))
          (break-Answered reg increment s (Process.sbrk p increment s.kernel) ready refl (
            sbrk-Moved p increment s.kernel
              (record { pos = v.pos; above = v.above; below = v.below }))))
