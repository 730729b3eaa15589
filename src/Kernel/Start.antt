-- ===== src/Kernel/Start.antt =====
-- The start of the kernel: virtual_memory_init of kernel/vm.c and process_setup of
-- kernel/kernel.c.
use memory_management.Base.{ℕ, ◌+◌, ◌*◌, Bool, ◌&&◌, ◌==◌, ltb, leb, if◌then◌else◌, update}
use memory_management.Base.Run.{Run, ok, fault, ◌>>=◌}
use memory_management.Kernel.PageTable.{
  Entries, page_size, page_number, memsize_physical, is_present, is_writable, virtual_memory_lookup,
  virtual_memory_map,
}
use memory_management.Kernel.Process.{p_runnable, process_init}
use memory_management.Kernel.System.{Image, System, all_from}
use memory_management.Kernel.Syscalls.{set_pagetable}

-- `&kernel_pagetables[i]`
abbrev pub table_at : Image → (i : ℕ) → ℕ
table_at image i = image.kernel_pagetable + i * page_size

-- The five page tables, cleared and linked: the first three levels, and the two tables of the
-- last one. They are aligned, so `|` with the three flags is a sum.
unfoldable pub link_tables : Image → Entries → Entries
link_tables image mem =
    let table = table_at image in
    let cleared : Entries = λ q. if leb (table 0) q && ltb q (table 5) then 0 else mem q in
    update
      (update (update (update cleared (table 0) (table 1 + 7)) (table 1) (table 2 + 7)) (table 2)
        (table 3 + 7))
      (table 2 + 8) (table 4 + 7)

-- The asserts of the loop of `virtual_memory_init` for one page.
unfoldable pub is_identity : (pagetable pn : ℕ) → Entries → Bool
is_identity pagetable pn mem =
    let addr = pn * page_size in
    let vmap = virtual_memory_lookup pagetable addr mem in
    (vmap.pa == addr) && is_present vmap.perm && is_writable vmap.perm

-- `virtual_memory_init`
unfoldable pub virtual_memory_init : Image → System → Run System
unfolding link_tables is_identity
virtual_memory_init image s = do
  r ←
      virtual_memory_map image.kernel_pagetable 0 0 memsize_physical 7
        (link_tables image s.kernel.mem)
  if all_from (page_number memsize_physical) 0 (λ pn. is_identity image.kernel_pagetable pn r.1)
      then set_pagetable image image.kernel_pagetable
          (record s { kernel = record (s.kernel) { mem = r.1 } })
      else fault

-- The functions of k-vm that set up a process; whether the first two succeed.
pub record Setup : Type 0 where
  pub process_config_tables : (pid : ℕ) → System → Bool × System
  pub process_load : (pid program_number : ℕ) → System → Bool × System
  pub process_setup_stack : (pid : ℕ) → System → System

-- `process_setup`
unfoldable pub process_setup : Setup → (pid program_number : ℕ) → System → Run System
process_setup setup pid program_number s =
    let p = process_init 0 (s.processes pid) in
    let tables =
      setup.process_config_tables pid (record s { processes = update s.processes pid p }) in
    let loaded = setup.process_load pid program_number tables.1 in
    let t = setup.process_setup_stack pid loaded.1 in
    if tables.0 && loaded.0
    then ok (record t {
      processes = update t.processes pid (record (t.processes pid) { p_state = p_runnable });
    })
    else fault
