-- ===== src/Uspace/Calls.antt =====
-- The system calls of uspace/process.h, as a process makes them: the `int` instruction enters
-- `exception` with the process's registers. The result is the state in which a process runs next;
-- a register that a call does not set is as it was.
use memory_management.Base.{ℕ, ◌^◌, ◌%◌}
use memory_management.Base.Run.{Run}
use memory_management.Kernel.Registers.{Registers}
use memory_management.Kernel.System.{Image, System}
use memory_management.Kernel.Syscalls.{Vm, current_process}
use memory_management.Kernel.Exception.{exception}

-- What a stub finds in %rax: all of it, or an `int`.
abbrev pub result : System → ℕ
result s = (current_process s).p_registers.reg_rax

abbrev int_result : System → ℕ
int_result s = result s % 2 ^ 32

module _ (vm : Vm) (image : Image) (reg : Registers) where
  -- `int`, with the values that the constraints put in %rdi and %rsi
  unfoldable pub trap : (intno rdi rsi : ℕ) → System → Run System
  unfolding exception
  trap intno rdi rsi s =
      exception vm image
        (record reg { reg_intno = intno; reg_rdi = rdi; reg_rsi = rsi; reg_err = 0 }) 0 s

  unfoldable panic : (msg : ℕ) → System → Run System
  unfolding trap
  panic msg = trap 48 msg reg.reg_rsi

  unfoldable pub getpid : System → Run System
  unfolding trap
  getpid = trap 49 reg.reg_rdi reg.reg_rsi

  unfoldable yield : System → Run System
  unfolding trap
  yield = trap 50 reg.reg_rdi reg.reg_rsi

  unfoldable sys_page_alloc : (addr : ℕ) → System → Run System
  unfolding trap
  sys_page_alloc addr = trap 51 addr reg.reg_rsi

  unfoldable fork : System → Run System
  unfolding trap
  fork = trap 52 reg.reg_rdi reg.reg_rsi

  unfoldable exit : System → Run System
  unfolding trap
  exit = trap 53 reg.reg_rdi reg.reg_rsi

  unfoldable mapping : (addr map : ℕ) → System → Run System
  unfolding trap
  mapping addr map = trap 54 map addr

  unfoldable mem_tog : (p : ℕ) → System → Run System
  unfolding trap
  mem_tog p = trap 56 p reg.reg_rsi

  unfoldable pub brk : (addr : ℕ) → System → Run System
  unfolding trap
  brk addr = trap 57 addr reg.reg_rsi

  unfoldable pub sbrk : (increment : ℕ) → System → Run System
  unfolding trap
  sbrk increment = trap 58 increment reg.reg_rsi
