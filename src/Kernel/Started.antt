-- ===== src/Kernel/Started.antt =====
-- About kernel of kernel/kernel.c: the processes that it starts.
use memory_management.Base.{
  ℕ, ◌<◌, ◌≡◌, ◌≢◌, refl, ◌∙◌, ap, inl, inr, Bool, true, false, ◌&&◌, ◌||◌, Option, none, some,
  List, [], ◌∷◌, ◌==◌, Bool-cases, if◌then◌else◌, if-cases, ltb, update, arith,
}
use memory_management.Base.Run.{
  Settles, settled, faulted, Settles-bind, Settles-weaken, Returns-Settles,
}
use memory_management.Hardware.Descriptors.{Handlers}
use memory_management.Kernel.Process.{p_free, p_runnable, process_init}
use memory_management.Kernel.Schedule.{nproc, is_runnable, run}
use memory_management.Kernel.System.{Image, System, pageinfo_init}
use memory_management.Kernel.Syscalls.{
  current_process, pagetable_asserts, run_process, set_pagetable,
}
use memory_management.Kernel.Start.{Setup, process_setup}
use memory_management.Kernel.Identity.{IsLoaded, virtual_memory_init-Identity}
use memory_management.Kernel.First.{programs, setup_all, free_process, Machine, kernel}

-- What the functions that set up a process leave alone: the descriptors of the others.
pub record OwnSlot (setup : Setup) : Type 0 where
  pub tables :
      (pid q : ℕ) (s : System)
      → q ≢ pid
      → (setup.process_config_tables pid s).1.processes q ≡ s.processes q
  pub load :
      (pid program q : ℕ) (s : System)
      → q ≢ pid
      → (setup.process_load pid program s).1.processes q ≡ s.processes q
  pub stack :
      (pid q : ℕ) (s : System)
      → q ≢ pid
      → (setup.process_setup_stack pid s).processes q ≡ s.processes q

-- Whether a process is among those to start.
abbrev pub is_listed : (q : ℕ) → List (ℕ × ℕ) → Bool
is_listed q [] = false
is_listed q (p ∷ ps) = (q == p.0) || is_listed q ps

-- Exactly the listed processes are runnable; the descriptors of the others are as before.
pub record Listed (ps : List (ℕ × ℕ)) (s t : System) : Type 0 where
  pub started : (q : ℕ) → is_listed q ps ≡ true → (t.processes q).p_state ≡ p_runnable
  pub kept : (q : ℕ) → is_listed q ps ≡ false → t.processes q ≡ s.processes q

module _ (setup : Setup) (own : OwnSlot setup) where
  process_setup-Listed :
      (pid program : ℕ) (s : System)
      → Settles (Listed ((pid, program) ∷ []) s) (process_setup setup pid program s)
  unfolding process_setup
  process_setup-Listed pid program s =
      let p = process_init 0 (s.processes pid) in
      let s1 = record s { processes = update s.processes pid p } in
      let tables = setup.process_config_tables pid s1 in
      let loaded = setup.process_load pid program tables.1 in
      let t = setup.process_setup_stack pid loaded.1 in
      let same : (q : ℕ) → q ≢ pid → t.processes q ≡ s.processes q = λ q other.
        own.stack pid q loaded.1 other
        ∙ own.load pid program q tables.1 other
        ∙ own.tables pid q s1 other
        ∙ ground arith in
      if-cases (Settles (Listed ((pid, program) ∷ []) s)) (tables.0 && loaded.0)
        (λ e. settled (record {
          started = λ q listed. let at : q ≡ pid = ground arith in rw at (ground arith);
          kept = λ q missing.
              let other : q ≢ pid = λ at. ground arith in
              let out : (q == pid) ≡ false = ground arith in rw out (same q other);
        }))
        (λ e. faulted)

  pub setup_all-Listed :
      (ps : List (ℕ × ℕ)) (s : System) → Settles (Listed ps s) (setup_all setup ps s)
  unfolding setup_all
  setup_all-Listed [] s =
      settled (record { started = λ q none_listed. absurd (ground arith); kept = λ q h. refl })
  setup_all-Listed (p ∷ ps) s = Settles-bind (process_setup-Listed p.0 p.1 s) λ s1 first.
      Settles-weaken (setup_all-Listed ps s1) λ t rest. settled (record {
        started = λ q listed. elim (Bool-cases (is_listed q ps)) [
          | inl e ↦ rest.started q e
          | inr e ↦ ap (λ p'. p'.p_state) (rest.kept q e) ∙ first.started q (ground arith)
        ];
        kept = λ q h. rest.kept q (ground arith) ∙ first.kept q (ground arith);
      })

-- What the kernel has started.
pub record Started (command : Option (List ℕ)) (m : Machine) : Type 0 where
  pub current : m.system.current ≡ 1
  pub runs : is_runnable (current_process m.system).p_state ≡ true
  pub listed :
      (q : ℕ)
      → q < nproc
      → (m.system.processes q).p_state
        ≡ (if is_listed q (programs command) then p_runnable else p_free)

programs-first : (command : Option (List ℕ)) → is_listed 1 (programs command) ≡ true
unfolding programs
programs-first none = refl
programs-first (some command) = ground arith

module _ (image : Image) (l : IsLoaded image) (setup : Setup) (own : OwnSlot setup) where
  -- Running process 1 is checked, and then it is the current process.
  pub run_process-current :
      (s : System) → Settles (λ t. t ≡ record s { current = 1 }) (run_process image 1 s)
  unfolding run_process run set_pagetable
  run_process-current s = elim (Bool-cases (is_runnable (s.processes 1).p_state)) [
    | inl e ↦ rw e (
        if-cases (Settles (λ t. t ≡ record s { current = 1 }))
          (pagetable_asserts image (s.processes 1).p_pagetable s.kernel.mem) (λ c. settled refl)
          (λ c. faulted))
    | inr e ↦ rw e faulted
  ]

  -- With its page tables in physical memory, `kernel` panics in a check or an assert, or it runs
  -- process 1, and of the 16 processes exactly those that the command asks for are runnable, the
  -- others being free. The functions that set up one process leave the other descriptors alone.
  pub kernel-Started :
      (handlers : Handlers) (cr0 : ℕ) (command : Option (List ℕ)) (console : ℕ → ℕ) (s : System)
      → Settles (Started command) (kernel image handlers setup cr0 command console s)
  unfolding kernel
  kernel-Started handlers cr0 command console s =
      Settles-bind (Returns-Settles (virtual_memory_init-Identity image l s)) λ s1 mapped.
        let cleared : System = record s1 {
          kernel = pageinfo_init image s1.kernel;
          processes = λ q. if ltb q nproc then free_process q else s1.processes q;
        } in
        Settles-bind (setup_all-Listed setup own (programs command) cleared) λ s2 chosen.
          Settles-bind (run_process-current s2) λ s3 same.
            let first = programs-first command in
            let states : (q : ℕ)
                → q < nproc
                → (s3.processes q).p_state
                  ≡ (if is_listed q (programs command) then p_runnable else p_free) =
              λ q slot. elim (Bool-cases (is_listed q (programs command))) [
                | inl e ↦ rw (e, same) (chosen.started q e)
                | inr e ↦ rw (e, same) (ap (λ p. p.p_state) (chosen.kept q e) ∙ ground arith)
              ] in
            settled (record {
              current = rw same refl;
              runs = rw same (ap is_runnable (chosen.started 1 first));
              listed = states;
            })
