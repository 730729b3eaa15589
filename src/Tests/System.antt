-- ===== src/Tests/System.antt =====
-- kernel/kernel.c at a concrete system.
use memory_management.Base.{
  ℕ, ◌+◌, ◌*◌, ◌/◌, ◌≡◌, ◌⊎◌, refl, inl, inr, ℕ_discrete, true, ◌^◌, ◌-◌, ◌==◌, ◌&&◌, ◌||◌, ltb,
  leb, if◌then◌else◌, update, arith,
}
use memory_management.Tests.{proc, kernel, proc-IsProcess}
use memory_management.Kernel.Registers.{Registers, zero_registers}
use memory_management.Kernel.Process.{Proc, Kernel, p_free, po_kernel}
use memory_management.Kernel.PageTable.{
  Entries, pageindex, virtual_memory_lookup, lookup_loop, mask_perm,
}
use memory_management.Kernel.System.{
  Image, System, pageinfo_init, check_virtual_memory, check_page_table_mappings, check_level,
  check_page_table_ownership, check_process, check_owner, count_users, all_from,
}
use memory_management.Kernel.Checks.{initial_info, pageinfo_init_lem}
use memory_management.Kernel.Syscalls.{
  Vm, current_process, pagetable_asserts, set_pagetable, run_process, schedule,
}
use memory_management.Kernel.Schedule.{is_runnable, run, schedule_loop}
use memory_management.Kernel.Exception.{resume, dispatch, exception}
use memory_management.Kernel.Handled.{HasBreaks}
use memory_management.Kernel.Reached.{run_value, start, next, Reached-HasBreaks}
use memory_management.Kernel.Display.{Animation}

abbrev pub image : Image
image = record {
  start_data = 0x45000;
  end = 0x48000;
  kernel_pagetable = 0x46000;
  default_int_handler = 0x40100;
  virtual_memory_map = 0x41000;
}

pageinfo_init_lem_example : (pageinfo_init image kernel).pageinfo 0x42 ≡ initial_info image.end 0x42
pageinfo_init_lem_example = pageinfo_init_lem image kernel 0x42 (omega arith)

-- Tables at 0x46000, 0x47000, 0x48000 and 0x49000, each linked to the next; the last one maps the
-- first two megabytes to themselves.
abbrev pub identity : Entries
identity = λ q.
    if q == 0x46000
    then 0x47007
    else if q == 0x47000
    then 0x48007
    else if q == 0x48000
    then 0x49007
    else if leb 0x49000 q && ltb q 0x4A000
    then (q - 0x49000) / 8 * 4096 + 7
    else 0

-- The kernel owns the pages; the first table has three users.
abbrev owned : Kernel
owned = record {
  mem = identity;
  pageinfo = λ pn. record { owner = po_kernel; refcount = if pn == 0x46 then 3 else 1 };
}

-- A process on the kernel's own tables.
abbrev pub user : (pid : ℕ) → Proc
user pid = record proc { p_pid = pid; p_pagetable = 0x46000 }

-- Process 1 runs, and process 2 can.
abbrev pub system : System
system = record {
  kernel = owned;
  processes = λ q. if (q == 1) || (q == 2) then user q else record proc { p_state = p_free };
  current = 1;
  ticks = 0;
  disp_global = true;
}

system_consistent : check_virtual_memory image system ≡ true
unfolding check_virtual_memory check_page_table_mappings check_level check_page_table_ownership
    check_process check_owner count_users all_from virtual_memory_lookup lookup_loop mask_perm
    pageindex
system_consistent = refl

pub system-HasBreaks : HasBreaks system
system-HasBreaks q busy = ground (arith, proc-IsProcess)

pub freed-update :
    (s : System) (pid q : ℕ)
    → let slots = update s.processes pid (record (s.processes pid) { p_state = p_free }) in
      (slots q ≡ s.processes q) ⊎ ((slots q).p_state ≡ p_free)
freed-update s pid q = elim (ℕ_discrete q pid) [
  | yes same ↦ inr (rw same (ground arith))
  | no other ↦ inl (ground arith)
]

-- A k-vm without free pages or slots.
abbrev pub vm : Vm
vm = record {
  palloc = λ pid s. (0, s);
  process_fork = λ pid s. (2 ^ 64 - 1, s);
  process_free = λ pid s. record s {
    processes = update s.processes pid (record (s.processes pid) { p_state = p_free });
  };
  process_page_alloc = λ pid addr s. (2 ^ 64 - 1, s);
  palloc_processes = λ pid s. refl;
  palloc_current = λ pid s. refl;
  page_alloc_processes = λ pid addr s. refl;
  freed = λ pid q s. freed-update s pid q;
}

-- A timer interrupt.
abbrev timer : Registers
timer = record zero_registers { reg_intno = 32 }

-- A timer interrupt hands over to process 2, and a second one back to process 1.
abbrev after : System
after = run_value (exception vm image timer 0 system) system

Reached-HasBreaks_example : HasBreaks after × (is_runnable (current_process after).p_state ≡ true)
unfolding run_value exception dispatch resume set_pagetable pagetable_asserts run_process schedule
    schedule_loop run check_virtual_memory check_page_table_mappings check_level
    check_page_table_ownership check_process check_owner count_users all_from virtual_memory_lookup
    lookup_loop mask_perm pageindex
Reached-HasBreaks_example =
    Reached-HasBreaks vm image {s = system} {t = after} system-HasBreaks refl
      (next timer 0 start (omega arith) refl)

abbrev animation : Animation
animation = record { last_ticks = 0; showing = 1 }
