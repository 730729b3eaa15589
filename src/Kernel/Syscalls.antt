-- ===== src/Kernel/Syscalls.antt =====
-- The system calls of kernel/kernel.c that act on the whole system, set_pagetable of kernel/vm.c,
-- and the functions of k-vm, which exist as an object file only and are parameters.
use memory_management.Base.{
  ℕ, ◌+◌, ◌-◌, ◌%◌, ◌^◌, ◌≡◌, ◌⊎◌, Bool, not, ◌&&◌, ◌||◌, Option, none, some, ◌==◌, ltb, leb,
  if◌then◌else◌, update, add64,
}
use memory_management.Base.Run.{Run, ok, fault, ◌>>=◌}
use memory_management.Kernel.PageTable.{
  Entries, page_size, page_number, is_present, is_writable, is_user, Vamapping,
  virtual_memory_lookup,
}
use memory_management.Kernel.Process.{ProcState, p_free, Proc, Kernel}
use memory_management.Kernel.Schedule.{nproc, schedule_loop, run}
use memory_management.Kernel.System.{Image, System}

-- k-vm: what kernel.h documents of it, and what the handlers rely on. A 0 stands for NULL and for
-- the return value 0.
pub record Vm : Type 0 where
  pub palloc : (pid : ℕ) → System → ℕ × System
  pub process_fork : (pid : ℕ) → System → ℕ × System
  pub process_free : (pid : ℕ) → System → System
  pub process_page_alloc : (pid addr : ℕ) → System → ℕ × System
  pub palloc_processes : (pid : ℕ) (s : System) → (palloc pid s).1.processes ≡ s.processes
  pub palloc_current : (pid : ℕ) (s : System) → (palloc pid s).1.current ≡ s.current
  pub page_alloc_processes :
      (pid addr : ℕ) (s : System) → (process_page_alloc pid addr s).1.processes ≡ s.processes
  -- a freed process has a free slot, and the others stay as they are
  pub freed :
      (pid q : ℕ) (s : System)
      → ((process_free pid s).processes q ≡ s.processes q)
        ⊎ (((process_free pid s).processes q).p_state ≡ p_free)

abbrev pub current_process : System → Proc
current_process s = s.processes s.current

abbrev pub with_process : Proc → System → System
with_process p s = record s { processes = update s.processes s.current p }

-- `current->p_registers.reg_rax = v`
abbrev pub set_rax : ℕ → System → System
set_rax v s =
    let p = current_process s in
    with_process (record p { p_registers = record (p.p_registers) { reg_rax = v } }) s

abbrev pub set_state : ProcState → System → System
set_state state s = with_process (record (current_process s) { p_state = state }) s

-- The asserts of `set_pagetable`.
unfoldable pub pagetable_asserts : Image → (pagetable : ℕ) → Entries → Bool
pagetable_asserts image pagetable mem =
    let maps = λ (pt va : ℕ). (virtual_memory_lookup pt va mem).pa == va in
    (pagetable % page_size == 0)
    && maps pagetable image.default_int_handler
    && maps image.kernel_pagetable pagetable
    && maps pagetable image.kernel_pagetable
    && maps pagetable image.virtual_memory_map

-- `set_pagetable`; the register that it loads is not modelled.
unfoldable pub set_pagetable : Image → (pagetable : ℕ) → System → Run System
set_pagetable image pagetable s =
    if pagetable_asserts image pagetable s.kernel.mem then ok s else fault

-- `pn` as an `int`
abbrev pn_word : Option ℕ → ℕ
pn_word none = 2 ^ 32 - 1
pn_word (some pn) = pn % 2 ^ 32

-- `memcpy((void *)map.pa, &ptr_lookup, sizeof(vamapping))`, to an aligned address; the padding of
-- the struct is 0.
abbrev write_mapping : ℕ → Vamapping → Entries → Entries
write_mapping pa m mem =
    update (update (update mem pa (pn_word m.pn)) (pa + 8) m.pa) (pa + 16) m.perm

-- `syscall_mapping`
unfoldable pub syscall_mapping : Proc → Entries → Entries
syscall_mapping p mem =
    let mapping_ptr = p.p_registers.reg_rdi in
    let ptr = p.p_registers.reg_rsi in
    let map = virtual_memory_lookup p.p_pagetable mapping_ptr mem in
    let endaddr = add64 mapping_ptr 23 in
    let end_map = virtual_memory_lookup p.p_pagetable endaddr mem in
    if not (is_writable map.perm && is_user map.perm)
    then mem
    else if not (page_number endaddr == page_number ptr)
        && not (is_writable end_map.perm && is_present end_map.perm)
    then mem
    else write_mapping map.pa (virtual_memory_lookup p.p_pagetable ptr mem) mem

-- `syscall_mem_tog`; its argument is an `int`.
unfoldable pub syscall_mem_tog : System → System
syscall_mem_tog s =
    let p = current_process s in
    let arg = p.p_registers.reg_rdi % 2 ^ 32 in
    if arg == 0
    then record s { disp_global = not s.disp_global }
    else if leb (2 ^ 31) arg || ltb nproc arg || not (arg == p.p_pid)
    then s
    else with_process (record p { display_status = not p.display_status }) s

-- `run`
unfoldable pub run_process : Image → (pid : ℕ) → System → Run System
run_process image pid s = do
  next ← run s.processes pid
  set_pagetable image (s.processes next).p_pagetable (record s { current = next })

-- `schedule`, one time round the table: without a runnable process it spins.
unfoldable pub schedule : Image → System → Run System
schedule image s = do
  next ← schedule_loop nproc (current_process s).p_pid s.processes
  run_process image next s

-- `brk` and `sbrk` as system calls
unfoldable pub syscall_break :
    (Proc → (argument : ℕ) → Kernel → Run (ℕ × Proc × Kernel)) → System → Run System
syscall_break call s = do
  r ← call (current_process s) (current_process s).p_registers.reg_rdi s.kernel
  ok (set_rax r.0 (record (with_process r.1 s) { kernel = r.2 }))
