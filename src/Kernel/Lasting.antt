-- ===== src/Kernel/Lasting.antt =====
-- About the start of the kernel and everything after it: kernel and exception of kernel/kernel.c.
use mathlib.Core.Path.{subst}
use memory_management.Base.{
  ℕ, ◌≤◌, ◌≡◌, sym, inl, inr, true, ◌&&◌, Option, List, [], ◌∷◌, ==-refl, Bool-cases, if◌then◌else◌,
  if-cases, ltb, update, arith,
}
use memory_management.Base.Run.{
  Run, Settles, settled, faulted, Settles-bind, Settles-weaken, Returns-Settles,
}
use memory_management.Hardware.Descriptors.{Handlers}
use memory_management.Kernel.Process.{process_init}
use memory_management.Kernel.Schedule.{nproc, is_runnable}
use memory_management.Kernel.System.{Image, System, pageinfo_init}
use memory_management.Kernel.Syscalls.{Vm, current_process}
use memory_management.Kernel.Breaks.{IsProcess}
use memory_management.Kernel.Handled.{IsSound, HasBreaks, same_breaks}
use memory_management.Kernel.Reached.{Reached, Reached-HasBreaks}
use memory_management.Kernel.Start.{Setup, process_setup}
use memory_management.Kernel.Identity.{IsLoaded, virtual_memory_init-Identity}
use memory_management.Kernel.First.{programs, setup_all, free_process, kernel}
use memory_management.Kernel.Started.{
  OwnSlot, is_listed, setup_all-Listed, run_process-current, kernel-Started,
}

-- Loading a program sets the breaks of the process, and giving it a stack leaves them.
pub record SetsBreaks (setup : Setup) : Type 0 where
  pub load :
      (pid program : ℕ) (s : System)
      → (setup.process_load pid program s).0 ≡ true
      → IsProcess ((setup.process_load pid program s).1.processes pid)
  pub stack :
      (pid : ℕ) (s : System)
      → let t = setup.process_setup_stack pid s in
        ((t.processes pid).program_break ≡ (s.processes pid).program_break)
        × ((t.processes pid).original_break ≡ (s.processes pid).original_break)

Settles-both :
    {A : Type 0} {P Q : A → Type 0} {r : Run A}
    → Settles P r
    → Settles Q r
    → Settles (λ a. P a × Q a) r
Settles-both (settled p) (settled q) = settled (p, q)
Settles-both faulted q = faulted

module _ (setup : Setup) (own : OwnSlot setup) (sets : SetsBreaks setup) where
  process_setup-IsProcess :
      (pid program : ℕ) (s : System)
      → Settles (λ t. IsProcess (t.processes pid)) (process_setup setup pid program s)
  unfolding process_setup
  process_setup-IsProcess pid program s =
      let p = process_init 0 (s.processes pid) in
      let tables =
        setup.process_config_tables pid (record s { processes = update s.processes pid p }) in
      let loaded = setup.process_load pid program tables.1 in
      let t = setup.process_setup_stack pid loaded.1 in
      let stack = sets.stack pid loaded.1 in
      if-cases (Settles (λ t. IsProcess (t.processes pid))) (tables.0 && loaded.0)
        (λ e.
          let v : IsProcess (t.processes pid) =
            same_breaks (loaded.1.processes pid) (t.processes pid) stack.0 stack.1
              (sets.load pid program tables.1 (ground arith)) in
          settled (rw (==-refl pid) (record { pos = v.pos; above = v.above; below = v.below })))
        (λ e. faulted)

  -- Every process that has been set up has its breaks in range.
  setup_all-IsProcess :
      (ps : List (ℕ × ℕ)) (s : System)
      → Settles
          (λ t. (q : ℕ) → is_listed q ps ≡ true → IsProcess (t.processes q))
          (setup_all setup ps s)
  unfolding setup_all
  setup_all-IsProcess [] s = settled (λ q none_listed. absurd (ground arith))
  setup_all-IsProcess (p ∷ ps) s = Settles-bind (process_setup-IsProcess p.0 p.1 s) λ s1 first.
      Settles-weaken (Settles-both (setup_all-Listed setup own ps s1) (setup_all-IsProcess ps s1))
        λ t (kept, rest). settled (λ q listed. elim (Bool-cases (is_listed q ps)) [
          | inl e ↦ rest q e
          | inr e ↦
              let at : q ≡ p.0 = ground arith in
              let same : s1.processes q ≡ t.processes q = sym (kept.kept q e) in
              subst IsProcess same (rw at first)
        ])

module _ (vm : Vm) (image : Image) (l : IsLoaded image) (setup : Setup) (own : OwnSlot setup)
    (sets : SetsBreaks setup) where
  kernel-HasBreaks :
      (handlers : Handlers) (cr0 : ℕ) (command : Option (List ℕ)) (console : ℕ → ℕ) (s : System)
      → ((q : ℕ) → nproc ≤ q → IsSound (s.processes q))
      → Settles (λ m. HasBreaks m.system) (kernel image handlers setup cr0 command console s)
  unfolding kernel
  kernel-HasBreaks handlers cr0 command console s beyond =
      Settles-bind (Returns-Settles (virtual_memory_init-Identity image l s)) λ s1 mapped.
        let cleared : System = record s1 {
          kernel = pageinfo_init image s1.kernel;
          processes = λ q. if ltb q nproc then free_process q else s1.processes q;
        } in
        let at_start : HasBreaks cleared = λ q.
          if-cases IsSound (ltb q nproc) (λ e. λ busy. absurd (ground arith))
            λ e. subst (λ slots. IsSound (slots q)) (sym mapped.2) (beyond q (ground arith)) in
        Settles-bind
          (Settles-both (setup_all-Listed setup own (programs command) cleared)
            (setup_all-IsProcess setup own sets (programs command) cleared))
          λ s2 (chosen, process). Settles-bind (run_process-current image l setup own s2) λ s3 same.
            let sound : HasBreaks s2 = λ q. elim (Bool-cases (is_listed q (programs command))) [
              | inl e ↦ λ busy. process q e
              | inr e ↦ subst IsSound (sym (chosen.kept q e)) (at_start q)
            ] in
            settled (subst HasBreaks (sym same) sound)

  -- Where loading a program sets the breaks of its process and the setup of one process spares the
  -- others, `kernel` panics, or every sequence of exceptions after it that does not panic or spin,
  -- of which none is a fork call, leaves a runnable process running and the breaks of all processes in use in their range.
  pub kernel-Lasting :
      (handlers : Handlers) (cr0 : ℕ) (command : Option (List ℕ)) (console : ℕ → ℕ) (s : System)
      → ((q : ℕ) → nproc ≤ q → IsSound (s.processes q))
      → Settles
          (λ m.
            (t : System)
            → Reached vm image m.system t
            → HasBreaks t × (is_runnable (current_process t).p_state ≡ true))
          (kernel image handlers setup cr0 command console s)
  kernel-Lasting handlers cr0 command console s beyond =
      Settles-weaken
        (Settles-both (kernel-Started image l setup own handlers cr0 command console s)
          (kernel-HasBreaks handlers cr0 command console s beyond))
        λ m (started, sound).
          settled (λ t reached. Reached-HasBreaks vm image sound started.runs reached)
