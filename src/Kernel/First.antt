-- ===== src/Kernel/First.antt =====
-- kernel of kernel/kernel.c and hardware_init of kernel/k-hardware.c: how the kernel starts the
-- first processes.
use memory_management.Base.{ℕ, false, Option, none, some, List, [], ◌∷◌, ◌++◌, ltb, if◌then◌else◌}
use memory_management.Base.Run.{Run, ok, ◌>>=◌}
use memory_management.Clib.Strings.{same_text}
use memory_management.Clib.Console.{console_clear}
use memory_management.Hardware.Interrupts.{Outb, interrupt_init, timer_init}
use memory_management.Hardware.Descriptors.{Gate, Handlers, init_segments, init_gates, init_control}
use memory_management.Kernel.Registers.{zero_registers}
use memory_management.Kernel.Process.{p_free, Proc}
use memory_management.Kernel.Schedule.{nproc}
use memory_management.Kernel.System.{Image, System, pageinfo_init}
use memory_management.Kernel.Syscalls.{run_process}
use memory_management.Kernel.Start.{Setup, virtual_memory_init, process_setup}

-- The processes that a command asks for, each with its program.
unfoldable pub programs : (command : Option (List ℕ)) → List (ℕ × ℕ)
unfolding same_text
programs none = (1, 0) ∷ []
programs (some command) =
    if same_text command (b'm' ∷ b'a' ∷ b'l' ∷ b'l' ∷ b'o' ∷ b'c' ∷ [])
    then (1, 1) ∷ []
    else if same_text command
        (b'a' ∷ b'l' ∷ b'l' ∷ b'o' ∷ b'c' ∷ b't' ∷ b'e' ∷ b's' ∷ b't' ∷ b's' ∷ [])
    then (1, 2) ∷ []
    else if same_text command (b't' ∷ b'e' ∷ b's' ∷ b't' ∷ [])
    then (1, 3) ∷ []
    else if same_text command (b't' ∷ b'e' ∷ b's' ∷ b't' ∷ b'2' ∷ [])
    then (1, 3) ∷ (2, 3) ∷ []
    else (1, 0) ∷ []

-- A descriptor after the loop that sets them up.
abbrev pub free_process : (pid : ℕ) → Proc
free_process pid = record {
  p_pid = pid;
  program_break = 0;
  original_break = 0;
  p_registers = zero_registers;
  p_state = p_free;
  p_pagetable = 0;
  display_status = false;
}

-- The processes that the kernel sets up, in their order.
unfoldable pub setup_all : Setup → List (ℕ × ℕ) → System → Run System
unfolding process_setup
setup_all setup [] s = ok s
setup_all setup (p ∷ ps) s = do s' ← process_setup setup p.0 p.1 s; setup_all setup ps s'

-- The machine behind `hardware_init`, `console_clear` and `timer_init`: what the descriptor tables
-- and the control register hold, the interrupts enabled, the writes to ports, the console and its cursor.
pub record Machine : Type 0 where
  pub segments : List ℕ
  pub gates : ℕ → Gate
  pub control : ℕ
  pub interrupts_enabled : ℕ
  pub writes : List Outb
  pub console : ℕ → ℕ
  pub cursorpos : ℕ
  pub system : System

-- `kernel`, up to the first process that runs; HZ is 100.
unfoldable pub kernel :
    Image
    → Handlers
    → Setup
    → (cr0 : ℕ) → (command : Option (List ℕ)) → (ℕ → ℕ)
    → System
    → Run Machine
unfolding virtual_memory_init pageinfo_init setup_all run_process console_clear timer_init
kernel image handlers setup cr0 command console s = do
  let interrupts = interrupt_init
  s1 ← virtual_memory_init image s
  let screen = console_clear console
  let timer = timer_init 100 interrupts.0
  let s2 : System = record s1 {
    kernel = pageinfo_init image s1.kernel;
    processes = λ q. if ltb q nproc then free_process q else s1.processes q;
  }
  s3 ← setup_all setup (programs command) s2
  s4 ← run_process image 1 s3
  ok (record {
    segments = init_segments handlers;
    gates = init_gates handlers;
    control = init_control cr0;
    interrupts_enabled = timer.0;
    writes = interrupts.1 ++ timer.1;
    console = screen.0;
    cursorpos = screen.1;
    system = s4;
  })
