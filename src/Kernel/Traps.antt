-- ===== src/Kernel/Traps.antt =====
-- About the interrupts, system calls and page faults that `exception` of kernel/kernel.c handles.
use memory_management.Base.{
  ℕ, ◌+◌, ◌/◌, ◌%◌, ◌^◌, ◌≡◌, ◌≢◌, refl, sym, ap, inl, inr, Bool, not, ◌&&◌, ◌||◌, ◌==◌, ltb, leb,
  if◌then◌else◌, if-cases, round_down, arith,
}
use mathlib.Core.Path.{subst}
use memory_management.Base.Run.{Run, ok, Settles, settled, faulted, ◌>>=◌}
use memory_management.Kernel.PageTable.{Entries, page_size, virtual_memory_map}
use memory_management.Kernel.Process.{Proc, Kernel, p_broken, brk, sbrk}
use memory_management.Kernel.Schedule.{nproc, is_runnable}
use memory_management.Kernel.System.{Image, System, is_p_free}
use memory_management.Kernel.Breaks.{Any, IsProcess, virtual_memory_map-Settles}
use memory_management.Kernel.Syscalls.{
  Vm, current_process, with_process, set_rax, set_state, syscall_mapping, syscall_mem_tog,
  syscall_break,
}
use memory_management.Kernel.Exception.{
  resume, syscall_exit, give_up, grow_heap, page_fault, dispatch,
}
use memory_management.Kernel.Handled.{
  IsSound, HasBreaks, Handled, panicked, run_process-Handled, schedule-Handled,
  with_process-HasBreaks, same_breaks, sbrk-IsProcess, brk-IsProcess,
}

module _ (vm : Vm) (image : Image) where
  open vm use {palloc, process_free, process_page_alloc}

  resume-Handled : (s : System) → HasBreaks s → Handled (resume vm image s)
  unfolding resume
  resume-Handled s v =
      if-cases Handled (is_runnable (current_process s).p_state)
        (λ e. run_process-Handled image s.current s v) (λ e. schedule-Handled image s v)

  exit-HasBreaks : (s : System) → HasBreaks s → HasBreaks (syscall_exit vm image s)
  exit-HasBreaks s v q = elim (vm.freed (current_process s).p_pid q s) [
    | inl same ↦ subst IsSound (sym same) (v q)
    | inr free ↦ λ busy. absurd (ground (arith, ap is_p_free free))
  ]

  give_up-Handled :
      (s : System) → HasBreaks s → IsProcess (current_process s) → Handled (give_up vm image s)
  give_up-Handled s v w =
      let broken : Proc = record (current_process s) { p_state = p_broken } in
      resume-Handled (syscall_exit vm image (set_state p_broken s)) (
        exit-HasBreaks (set_state p_broken s) (
          with_process-HasBreaks broken s v
            (λ busy. same_breaks (current_process s) broken refl refl w)))

  rax-HasBreaks : (n : ℕ) (s : System) → HasBreaks s → HasBreaks (set_rax n s)
  rax-HasBreaks n s v =
      let p = current_process s in
      let q : Proc = record p { p_registers = record (p.p_registers) { reg_rax = n } } in
      with_process-HasBreaks q s v (λ busy. same_breaks p q refl refl (v s.current busy))

  moved-Handled :
      (s : System) (r : Run (ℕ × Proc × Kernel))
      → HasBreaks s
      → Settles (λ x. IsProcess x.1) r
      → Handled (
          (r >>= λ x. ok (set_rax x.0 (record (with_process x.1 s) { kernel = x.2 })))
          >>= resume vm image)
  moved-Handled s r v (settled {a = x} w) =
      let s' : System = record (with_process x.1 s) { kernel = x.2 } in
      resume-Handled (set_rax x.0 s')
        (rax-HasBreaks x.0 s' (with_process-HasBreaks x.1 s v (λ busy. w)))
  moved-Handled s r v faulted = panicked

  break-Handled :
      (call : Proc → ℕ → Kernel → Run (ℕ × Proc × Kernel)) (s : System)
      → HasBreaks s
      → Settles
          (λ r. IsProcess r.1)
          (call (current_process s) (current_process s).p_registers.reg_rdi s.kernel)
      → Handled (syscall_break call s >>= resume vm image)
  unfolding syscall_break
  break-Handled call s v c =
      moved-Handled s (call (current_process s) (current_process s).p_registers.reg_rdi s.kernel) v
        c

  mapped-Handled :
      (s : System) (r : Run (Bool × Entries))
      → HasBreaks s
      → IsProcess (current_process s)
      → Settles Any r
      → Handled (
          r >>= λ x.
          if x.0
          then resume vm image (record s { kernel = record (s.kernel) { mem = x.1 } })
          else give_up vm image (record s { kernel = record (s.kernel) { mem = x.1 } }))
  mapped-Handled s r v w (settled {a = x} u) =
      if-cases Handled x.0
        (λ e. resume-Handled (record s { kernel = record (s.kernel) { mem = x.1 } }) v)
        (λ e. give_up-Handled (record s { kernel = record (s.kernel) { mem = x.1 } }) v w)
  mapped-Handled s r v w faulted = panicked

  grow_heap-Handled :
      (addr : ℕ) (s : System)
      → HasBreaks s
      → IsProcess (current_process s)
      → Handled (grow_heap vm image addr s)
  unfolding grow_heap
  grow_heap-Handled addr s v w =
      let got = palloc (current_process s).p_pid s in
      let ps = vm.palloc_processes (current_process s).p_pid s in
      let same : current_process got.1 ≡ current_process s =
        λ i. ps i (vm.palloc_current (current_process s).p_pid s i) in
      let v' : HasBreaks got.1 = λ q. subst (λ f. IsSound (f q)) (sym ps) (v q) in
      let w' : IsProcess (current_process got.1) = subst IsProcess (sym same) w in
      if-cases Handled (got.0 == 0) (λ e. give_up-Handled got.1 v' w')
        (λ e.
          mapped-Handled got.1
            (virtual_memory_map (current_process got.1).p_pagetable (round_down addr page_size)
              got.0 page_size 7 got.1.kernel.mem)
            v' w'
            (virtual_memory_map-Settles (current_process got.1).p_pagetable
              (round_down addr page_size) got.0 page_size 7 got.1.kernel.mem))

  page_fault-Handled :
      (err addr : ℕ) (s : System)
      → HasBreaks s
      → IsProcess (current_process s)
      → Handled (page_fault vm image err addr s)
  unfolding page_fault
  page_fault-Handled err addr s v w =
      let p = current_process s in
      if-cases Handled ((err % 2 == 0) && ltb addr p.program_break && leb p.original_break addr)
        (λ e. grow_heap-Handled addr s v w)
        λ e. if-cases Handled (err / 4 % 2 == 0) (λ f. panicked) (λ f. give_up-Handled s v w)

  toggle-HasBreaks : (s : System) → HasBreaks s → HasBreaks (syscall_mem_tog s)
  unfolding syscall_mem_tog
  toggle-HasBreaks s v =
      let p = current_process s in
      let arg = p.p_registers.reg_rdi % 2 ^ 32 in
      let q : Proc = record p { display_status = not p.display_status } in
      if-cases HasBreaks {x = record s { disp_global = not s.disp_global }} (arg == 0) (λ e. v)
        λ e.
          if-cases HasBreaks {x = s} (leb (2 ^ 31) arg || ltb nproc arg || not (arg == p.p_pid))
            (λ f. v)
            (λ f.
              with_process-HasBreaks q s v (λ busy. same_breaks p q refl refl (v s.current busy)))

  page_alloc-HasBreaks :
      (pid addr : ℕ) (s : System) → HasBreaks s → HasBreaks (process_page_alloc pid addr s).1
  page_alloc-HasBreaks pid addr s v q =
      subst (λ f. IsSound (f q)) (sym (vm.page_alloc_processes pid addr s)) (v q)

  pub dispatch-Handled :
      (intno err addr : ℕ) (s : System)
      → intno ≢ 52
      → HasBreaks s
      → IsProcess (current_process s)
      → Handled (dispatch vm image intno err addr s)
  unfolding dispatch
  dispatch-Handled intno err addr s other v w =
      let p = current_process s in
      let mem = syscall_mapping p s.kernel.mem in
      let rdi = p.p_registers.reg_rdi in
      if-cases Handled (intno == 48) (λ e. panicked)
        λ e.
          if-cases Handled (intno == 49)
            (λ f. resume-Handled (set_rax p.p_pid s) (rax-HasBreaks p.p_pid s v))
            λ f.
              if-cases Handled (intno == 52) (λ f. absurd (other (ground arith)))
                λ f.
                  if-cases Handled (intno == 54)
                    (λ f. resume-Handled (record s { kernel = record (s.kernel) { mem = mem } }) v)
                    λ f.
                      if-cases Handled (intno == 53)
                        (λ f. schedule-Handled image (syscall_exit vm image s) (exit-HasBreaks s v))
                        λ f.
                          if-cases Handled (intno == 50) (λ f. schedule-Handled image s v)
                            λ f.
                              if-cases Handled (intno == 57)
                                (λ f. break-Handled brk s v (brk-IsProcess p rdi s.kernel w))
                                λ f.
                                  if-cases Handled (intno == 58)
                                    (λ f. break-Handled sbrk s v (sbrk-IsProcess p rdi s.kernel w))
                                    λ f.
                                      if-cases Handled (intno == 51)
                                        (λ f.
                                          resume-Handled (process_page_alloc s.current rdi s).1
                                            (page_alloc-HasBreaks s.current rdi s v))
                                        λ f.
                                          if-cases Handled (intno == 56)
                                            (λ f.
                                              resume-Handled (syscall_mem_tog s)
                                                (toggle-HasBreaks s v))
                                            λ f.
                                              if-cases Handled (intno == 32)
                                                (λ f.
                                                  schedule-Handled image
                                                    (record s { ticks = (s.ticks + 1) % 2 ^ 32 }) v)
                                                λ f.
                                                  if-cases Handled (intno == 14)
                                                    (λ f. page_fault-Handled err addr s v w)
                                                    (λ f. panicked)
