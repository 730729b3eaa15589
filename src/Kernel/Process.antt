-- ===== src/Kernel/Process.antt =====
-- The process descriptors and the page information of kernel/kernel.h and kernel/kernel.c, and the
-- calls that move a process's break.
use memory_management.Base.{
  ℕ, zero, suc, ◌+◌, ◌-◌, ◌/◌, ◌%◌, ◌^◌, Bool, true, false, not, ◌||◌, none, some, ◌==◌, ltb, leb,
  if◌then◌else◌, update, minus_one, add64, sub64, round_up, round_down,
}
use memory_management.Base.Run.{Run, ok, out_of_fuel, ◌>>=◌}
use memory_management.Kernel.Registers.{Registers, zero_registers}
use memory_management.Kernel.PageTable.{
  Entries, page_size, page_number, memsize_physical, memsize_virtual, virtual_memory_lookup,
  virtual_memory_map,
}

-- `procstate_t`
pub data ProcState : Type 0 where
  p_free p_runnable p_blocked p_broken : ProcState

-- `pageowner_t`, or the process that owns the page
pub data Owner : Type 0 where
  po_free po_reserved po_kernel : Owner
  process : ℕ → Owner

-- `physical_pageinfo`; `refcount` is the bit pattern of an `int8_t`.
pub record PageInfo : Type 0 where
  pub owner : Owner
  pub refcount : ℕ

-- The fields of `proc` that the modelled code uses.
pub record Proc : Type 0 where
  pub p_pid : ℕ
  pub program_break : ℕ
  pub original_break : ℕ
  pub p_registers : Registers
  pub p_state : ProcState
  pub p_pagetable : ℕ
  pub display_status : Bool

-- `process_init`; the flags are PROCINIT_ALLOW_PROGRAMMED_IO (1) and PROCINIT_DISABLE_INTERRUPTS
-- (2).
unfoldable pub process_init : (flags : ℕ) → Proc → Proc
process_init flags p =
    let io : ℕ = if flags % 2 == 1 then 0x3000 else 0 in
    let interrupts : ℕ = if flags / 2 % 2 == 1 then 0 else 0x200 in
    record p {
      p_registers = record zero_registers {
        reg_cs = 0x13;
        reg_fs = 0x23;
        reg_gs = 0x23;
        reg_ss = 0x23;
        reg_rflags = interrupts + io;
      };
      display_status = true;
    }

-- `pageinfo` by page number, and the page tables in physical memory.
pub record Kernel : Type 0 where
  pub mem : Entries
  pub pageinfo : ℕ → PageInfo

-- `assign_physical_page`; `false` for -1
unfoldable assign_physical_page : (addr : ℕ) → Owner → Kernel → Bool × Kernel
assign_physical_page addr owner k =
    let pn = page_number addr in
    if not (addr % 0x1000 == 0)
      || not (ltb addr memsize_physical)
      || not ((k.pageinfo pn).refcount == 0)
    then (false, k)
    else (
      true,
      record k { pageinfo = update k.pageinfo pn (record { owner = owner; refcount = 1 }) },
    )

-- `refcount--`, and the owner of a page that nobody refers to any more
unfoldable pub drop_page : PageInfo → PageInfo
drop_page i =
    let r = (i.refcount + 255) % 256 in
    record { owner = if r == 0 then po_free else i.owner; refcount = r }

-- One round of the loop of `sbrk`: the page at `i` is unmapped, if it is mapped.
unfoldable pub unmap_page : (pagetable i : ℕ) → Kernel → Run Kernel
unmap_page pagetable i k =
    let vmap = virtual_memory_lookup pagetable i k.mem in
    elim vmap.pn [
      | none ↦ ok k
      | some pn ↦ (do
        r ← virtual_memory_map pagetable i vmap.pa page_size 6 k.mem
        ok (record { mem = r.1; pageinfo = update k.pageinfo pn (drop_page (k.pageinfo pn)) }))
    ]

-- The loop of `sbrk` down to the page of the new break.
unfoldable pub unmap_loop : ℕ → (pagetable i low : ℕ) → Kernel → Run Kernel
unmap_loop zero pagetable i low k = out_of_fuel
unmap_loop (suc fuel) pagetable i low k =
    let round = unmap_page pagetable i k >>= unmap_loop fuel pagetable (sub64 i page_size) low in
    if leb low i then round else ok k

-- A page-aligned address and a round for each page below it, with one to end.
abbrev pub unmap_fuel : ℕ → ℕ
unmap_fuel i = i / page_size + 2

-- `(uint64_t) (int) x`, the conversion of a return value to the register
unfoldable pub int_to_word : ℕ → ℕ
int_to_word x = let y = x % 2 ^ 32 in if ltb y (2 ^ 31) then y else y + (2 ^ 64 - 2 ^ 32)

-- `sbrk`; the difference is the bit pattern of an `intptr_t`.
unfoldable pub sbrk : Proc → (difference : ℕ) → Kernel → Run (ℕ × Proc × Kernel)
sbrk p difference k =
    let new_break = add64 p.program_break difference in
    let old_break = p.program_break in
    let top_page = round_up old_break page_size in
    if not (ltb new_break (memsize_virtual - page_size)) || ltb new_break p.original_break
    then ok (minus_one, p, k)
    else (do
      k' ←
          (if leb (2 ^ 63) difference
            then unmap_loop (unmap_fuel top_page) p.p_pagetable top_page
                (round_down new_break page_size) k
            else ok k)
      ok (int_to_word old_break, record p { program_break = new_break }, k'))

-- `brk`
unfoldable pub brk : Proc → (new_address : ℕ) → Kernel → Run (ℕ × Proc × Kernel)
brk p new_address k = do
  r ← sbrk p (sub64 new_address p.program_break) k
  ok (if r.0 == minus_one then minus_one else 0, r.1, r.2)
