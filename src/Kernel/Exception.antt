-- ===== src/Kernel/Exception.antt =====
-- `exception` of kernel/kernel.c. A fault is a panic; a run without fuel is a `schedule` that
-- spins. No control key is pressed, and what the handler draws is left out.
use memory_management.Base.{
  ℕ, ◌+◌, ◌/◌, ◌%◌, ◌^◌, not, ◌&&◌, ◌||◌, ◌==◌, ltb, leb, if◌then◌else◌, round_down,
}
use memory_management.Base.Run.{Run, fault, ◌>>=◌}
use memory_management.Kernel.PageTable.{page_size, virtual_memory_map}
use memory_management.Kernel.Registers.{Registers}
use memory_management.Kernel.Process.{p_broken, brk, sbrk}
use memory_management.Kernel.Schedule.{is_runnable}
use memory_management.Kernel.System.{Image, System, check_virtual_memory}
use memory_management.Kernel.Syscalls.{
  Vm, current_process, with_process, set_rax, set_state, set_pagetable, syscall_mapping,
  syscall_mem_tog, run_process, schedule, syscall_break,
}

module _ (vm : Vm) (image : Image) where
  open vm use {palloc, process_fork, process_free, process_page_alloc}

  -- `run(current)`, or another process where that one cannot run.
  unfoldable pub resume : System → Run System
  resume s =
      if is_runnable (current_process s).p_state
      then run_process image s.current s
      else schedule image s

  abbrev pub syscall_exit : System → System
  syscall_exit s = process_free (current_process s).p_pid s

  -- `current->p_state = P_BROKEN; syscall_exit(); break;`
  abbrev pub give_up : System → Run System
  give_up s = resume (syscall_exit (set_state p_broken s))

  -- A fault on a page of the heap that is not there: it gets a physical page.
  unfoldable pub grow_heap : (addr : ℕ) → System → Run System
  grow_heap addr s =
      let (pa, s') = palloc (current_process s).p_pid s in
      if pa == 0 then give_up s' else (do
        r ←
            virtual_memory_map (current_process s').p_pagetable (round_down addr page_size) pa
              page_size 7 s'.kernel.mem
        let mapped = record s' { kernel = record (s'.kernel) { mem = r.1 } }
        if r.0 then resume mapped else give_up mapped)

  -- INT_PAGEFAULT, at the address that %cr2 holds.
  unfoldable pub page_fault : (err addr : ℕ) → System → Run System
  page_fault err addr s =
      let p = current_process s in
      if (err % 2 == 0) && ltb addr p.program_break && leb p.original_break addr
      then grow_heap addr s
      else if err / 4 % 2 == 0
      then fault
      else give_up s

  -- The switch and the code behind it.
  unfoldable pub dispatch : (intno err addr : ℕ) → System → Run System
  dispatch intno err addr s =
      let p = current_process s in
      if intno == 48
      then fault
      else if intno == 49
      then resume (set_rax p.p_pid s)
      else if intno == 52
      then resume (let (r, s') = process_fork s.current s in set_rax r s')
      else if intno == 54
      then resume (record s { kernel = record (s.kernel) { mem = syscall_mapping p s.kernel.mem } })
      else if intno == 53
      then schedule image (syscall_exit s)
      else if intno == 50
      then schedule image s
      else if intno == 57
      then syscall_break brk s >>= resume
      else if intno == 58
      then syscall_break sbrk s >>= resume
      else if intno == 51
      then resume (process_page_alloc s.current p.p_registers.reg_rdi s).1
      else if intno == 56
      then resume (syscall_mem_tog s)
      else if intno == 32
      then schedule image (record s { ticks = (s.ticks + 1) % 2 ^ 32 })
      else if intno == 14
      then page_fault err addr s
      else fault

  -- `exception`, with the address that %cr2 holds.
  unfoldable pub exception : Registers → (addr : ℕ) → System → Run System
  exception reg addr s = do
    s1 ←
        set_pagetable image image.kernel_pagetable
          (with_process (record (current_process s) { p_registers = reg }) s)
    if (not (reg.reg_intno == 14) && not (reg.reg_intno == 13)) || (reg.reg_err / 4 % 2 == 1)
        then (if check_virtual_memory image s1
            then dispatch reg.reg_intno reg.reg_err addr s1
            else fault)
        else dispatch reg.reg_intno reg.reg_err addr s1
