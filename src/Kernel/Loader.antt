-- ===== src/Kernel/Loader.antt =====
-- The program loader of kernel/k-loader.c. The images of the programs are bytes by program number;
-- the bytes that the loader writes through a process's page tables are a memory of physical bytes,
-- apart from the entries of page tables. What the loader prints is left out.
use memory_management.Base.{
  ℕ, zero, suc, ◌+◌, ◌-◌, ◌/◌, ◌%◌, Bool, true, false, not, ◌&&◌, Option, none, some, ◌==◌, ltb,
  if◌then◌else◌, update, add64, sub64, round_up, round_down,
}
use memory_management.Base.Run.{Run, ok, fault, out_of_fuel, ◌>>=◌}
use memory_management.Clib.Memory.{Memory}
use memory_management.Boot.Elf.{ElfProgram, elf_header, elf_magic, elf_program, elf_program_size}
use memory_management.Kernel.PageTable.{
  Entries, page_size, is_present, is_writable, pte_addr, entry_at, virtual_memory_lookup,
  virtual_memory_map,
}
use memory_management.Kernel.System.{Image, System}
use memory_management.Kernel.Syscalls.{Vm, set_pagetable}

-- The physical address that the processor writes to for a virtual one, with the levels left, if
-- each level's entry is present and writable; CR0_WP makes that count in the kernel too.
unfoldable pub write_address : (left level pt va : ℕ) → Entries → Option ℕ
write_address zero level pt va mem = some (pt + va % page_size)
write_address (suc left) level pt va mem =
    let pe = mem (entry_at pt va level) in
    let rest = write_address left (level + 1) (pte_addr pe) va mem in
    if is_present pe && is_writable pe then rest else none

-- A write by the kernel to a virtual address; one that a page fault stops is a panic.
unfoldable pub store_byte : (pagetable va byte : ℕ) → Entries → Memory → Run Memory
unfolding write_address
store_byte pagetable va byte mem bytes = elim (write_address 4 0 pagetable va mem) [
  | none ↦ fault
  | some pa ↦ ok (update bytes pa byte)
]

-- `memcpy` from the image of a program, with the bytes left.
unfoldable pub copy_in :
    (left pagetable va src : ℕ) → (file : Memory) → Entries → Memory → Run Memory
unfolding store_byte
copy_in zero pagetable va src file mem bytes = ok bytes
copy_in (suc left) pagetable va src file mem bytes = do
  bytes' ← store_byte pagetable va (file src) mem bytes
  copy_in left pagetable (va + 1) (src + 1) file mem bytes'

-- `memset` to 0, with the bytes left.
unfoldable pub clear_in : (left pagetable va : ℕ) → Entries → Memory → Run Memory
unfolding store_byte
clear_in zero pagetable va mem bytes = ok bytes
clear_in (suc left) pagetable va mem bytes = do
  bytes' ← store_byte pagetable va 0 mem bytes
  clear_in left pagetable (va + 1) mem bytes'

-- The bytes of a segment: the file's from `va` up to `end_file`, and zeros up to `end_mem`.
unfoldable pub fill :
    (pagetable va end_file end_mem src : ℕ) → (file : Memory) → Entries → Memory → Run Memory
unfolding copy_in clear_in
fill pagetable va end_file end_mem src file mem bytes = do
  bytes' ← copy_in (sub64 end_file va) pagetable va src file mem bytes
  clear_in (sub64 end_mem end_file) pagetable end_file mem bytes'

-- The rounds of a loop over the pages from `va` up to `end_mem`, and one to end.
abbrev pub page_rounds : (va end_mem : ℕ) → ℕ
page_rounds va end_mem = (end_mem - va + 4095) / page_size + 1

-- The kernel, and the bytes of physical memory.
pub record Loading : Type 0 where
  pub system : System
  pub bytes : Memory

abbrev pub with_mem : Entries → System → System
with_mem mem s = record s { kernel = record (s.kernel) { mem = mem } }

-- The loop that makes the pages of a segment read-only.
unfoldable pub protect_loop : ℕ → (pagetable addr end_mem : ℕ) → Entries → Run Entries
unfolding virtual_memory_map
protect_loop zero pagetable addr end_mem mem = out_of_fuel
protect_loop (suc fuel) pagetable addr end_mem mem =
    let map = virtual_memory_lookup pagetable addr mem in
    let round = virtual_memory_map pagetable addr map.pa page_size 5 mem >>= λ r.
    protect_loop fuel pagetable (add64 addr page_size) end_mem r.1 in
    if ltb addr end_mem then round else ok mem

-- The end of `program_load_segment`: the permissions and the breaks.
unfoldable pub finish_segment : (pid va end_mem flags : ℕ) → System → Run System
unfolding protect_loop
finish_segment pid va end_mem flags s = do
  let p = s.processes pid
  mem ←
      (if flags / 2 % 2 == 0
        then protect_loop (page_rounds va end_mem) p.p_pagetable va end_mem s.kernel.mem
        else ok s.kernel.mem)
  let top = round_up end_mem page_size
  ok (
      with_mem mem (record s {
        processes = update s.processes pid (record p { program_break = top; original_break = top });
      }))

-- `p->p_registers.reg_rip = entry`
abbrev pub set_rip : (pid entry : ℕ) → System → System
set_rip pid entry s =
    let p = s.processes pid in
    record s {
      processes =
          update s.processes pid
            (record p { p_registers = record (p.p_registers) { reg_rip = entry } });
    }

module _ (vm : Vm) where
  open vm use {palloc}

  -- The loop that allocates the pages of a segment; `false` for the return of -1.
  unfoldable pub alloc_loop : ℕ → (pid addr end_mem : ℕ) → System → Run (Bool × System)
  unfolding virtual_memory_map
  alloc_loop zero pid addr end_mem s = out_of_fuel
  alloc_loop (suc fuel) pid addr end_mem s =
      let (pa, s') = palloc (s.processes pid).p_pid s in
      let mapped =
        virtual_memory_map (s'.processes pid).p_pagetable addr pa page_size 7 s'.kernel.mem in
      let rest = λ (r : Bool × Entries).
        if r.0
        then alloc_loop fuel pid (add64 addr page_size) end_mem (with_mem r.1 s')
        else ok (false, with_mem r.1 s') in
      if not (ltb addr end_mem)
      then ok (true, s)
      else if pa == 0
      then ok (false, s')
      else mapped >>= rest

module _ (vm : Vm) (image : Image) where
  -- `program_load_segment`
  unfoldable pub program_load_segment :
      (pid : ℕ) → ElfProgram → (src : ℕ) → (file : Memory) → Loading → Run (Bool × Loading)
  unfolding alloc_loop fill finish_segment set_pagetable
  program_load_segment pid ph src file l = do
    let va = round_down ph.p_va page_size
    let end_file = add64 ph.p_va ph.p_filesz
    let end_mem = add64 ph.p_va ph.p_memsz
    (done, s1) ← alloc_loop vm (page_rounds va end_mem) pid va end_mem l.system
    if done
        then (do
          s2 ← set_pagetable image (s1.processes pid).p_pagetable s1
          bytes ←
              fill (s2.processes pid).p_pagetable va end_file end_mem src file s2.kernel.mem l.bytes
          s3 ← set_pagetable image image.kernel_pagetable s2
          s4 ← finish_segment pid va end_mem ph.p_flags s3
          ok (true, record { system = s4; bytes = bytes }))
        else ok (false, record l { system = s1 })

  -- The loop of `program_load` over the program headers, with the headers left.
  unfoldable pub segments_loop :
      (left ph pid : ℕ) → (file : Memory) → Loading → Run (Bool × Loading)
  unfolding program_load_segment elf_program
  segments_loop zero ph pid file l = ok (true, l)
  segments_loop (suc left) ph pid file l =
      let p = elf_program ph file in
      let rest = segments_loop left (ph + elf_program_size) pid file in
      if p.p_type == 1
      then program_load_segment pid p p.p_offset file l
        >>= (λ r. if r.0 then rest r.1 else ok (false, r.1))
      else rest l

  -- `program_load`; there are four programs, and the number is an `int` by its bit pattern.
  unfoldable pub program_load :
      (images : ℕ → Memory) → (pid program_number : ℕ) → Loading → Run (Bool × Loading)
  unfolding segments_loop elf_header
  program_load images pid program_number l =
      let file = images program_number in
      let header = elf_header 0 file in
      if ltb program_number 4 && (header.e_magic == elf_magic)
      then (do
        (done, l') ← segments_loop header.e_phnum header.e_phoff pid file l
        if done
            then ok (true, record l' { system = set_rip pid header.e_entry l'.system })
            else ok (false, l'))
      else fault
