-- ===== src/Kernel/System.antt =====
-- The global state of kernel/kernel.c, and the loops that fill and check it: pageinfo_init,
-- check_virtual_memory and what they call.
use memory_management.Base.{
  ℕ, zero, suc, ◌+◌, ◌-◌, ◌*◌, ◌/◌, Bool, true, false, not, ◌&&◌, ◌||◌, Option, none, some, ◌==◌,
  ltb, leb, if◌then◌else◌, update,
}
use memory_management.Hardware.Interrupts.{physical_memory_isreserved}
use memory_management.Kernel.PageTable.{
  Entries, page_size, page_number, memsize_physical, pte_addr, is_writable, virtual_memory_lookup,
}
use memory_management.Kernel.Process.{
  ProcState, p_free, Owner, po_free, po_reserved, po_kernel, process, PageInfo, Proc, Kernel,
}
use memory_management.Kernel.Schedule.{nproc}

-- `p_state == P_FREE`
abbrev pub is_p_free : ProcState → Bool
is_p_free p_free = true
is_p_free _ = false

-- Addresses that the linker gives: `end`, `start_data`, and what `set_pagetable` wants mapped.
pub record Image : Type 0 where
  pub start_data : ℕ
  pub end : ℕ
  pub kernel_pagetable : ℕ
  pub default_int_handler : ℕ
  pub virtual_memory_map : ℕ

-- The globals of kernel.c.
pub record System : Type 0 where
  pub kernel : Kernel
  pub processes : ℕ → Proc
  pub current : ℕ
  pub ticks : ℕ
  pub disp_global : Bool

-- A loop of `left` rounds from `i` on that asserts `test`.
unfoldable pub all_from : (left i : ℕ) → (ℕ → Bool) → Bool
all_from zero i test = true
all_from (suc left) i test = let rest = all_from left (i + 1) test in test i && rest

-- `owner` in `pageinfo_init`
unfoldable pub initial_owner : (end addr : ℕ) → Owner
unfolding physical_memory_isreserved
initial_owner end addr =
    if physical_memory_isreserved addr
    then po_reserved
    else if (leb 0x40000 addr && ltb addr end) || (addr == 0x80000 - page_size)
    then po_kernel
    else po_free

abbrev pub is_free : Owner → Bool
is_free po_free = true
is_free _ = false

-- The loop of `pageinfo_init`, with the pages left.
unfoldable pub pageinfo_loop : (left addr end : ℕ) → (ℕ → PageInfo) → ℕ → PageInfo
pageinfo_loop zero addr end pageinfo = pageinfo
pageinfo_loop (suc left) addr end pageinfo =
    let owner = initial_owner end addr in
    pageinfo_loop left (addr + page_size) end (
      update pageinfo (page_number addr)
        (record { owner = owner; refcount = if is_free owner then 0 else 1 }))

unfoldable pub pageinfo_init : Image → Kernel → Kernel
pageinfo_init image k = record k {
  pageinfo = pageinfo_loop (page_number memsize_physical) 0 image.end k.pageinfo;
}

-- The number of pages from `from` up to `to`, the rounds of a loop over them.
abbrev pub pages : (from to : ℕ) → ℕ
pages from to = (to - from + (page_size - 1)) / page_size

-- `check_page_table_mappings`: whether its asserts hold.
unfoldable pub check_page_table_mappings : Image → (pt : ℕ) → Entries → Bool
check_page_table_mappings image pt mem =
    let stack = virtual_memory_lookup pt (0x80000 - page_size) mem in
    (pte_addr pt == pt)
    && all_from (pages 0x40000 image.end) 0 (λ i.
      let va = 0x40000 + i * page_size in
      let vam = virtual_memory_lookup pt va mem in
      (vam.pa == va) && (ltb va image.start_data || is_writable vam.perm))
    && (stack.pa == 0x80000 - page_size)
    && is_writable stack.perm

abbrev pub owner_eq : Owner → Owner → Bool
owner_eq po_free po_free = true
owner_eq po_reserved po_reserved = true
owner_eq po_kernel po_kernel = true
owner_eq (process p) (process q) = p == q
owner_eq po_free (process p) = p == 0
owner_eq (process p) po_free = p == 0
owner_eq _ _ = false

-- `check_page_table_ownership_level`, by the levels below: whether its asserts hold.
unfoldable pub check_level : (levels pt : ℕ) → (owner : Owner) → (refcount : ℕ) → Kernel → Bool
check_level zero pt owner refcount k =
    ltb (page_number pt) 512
    && owner_eq (k.pageinfo (page_number pt)).owner owner
    && ((k.pageinfo (page_number pt)).refcount == refcount)
check_level (suc levels) pt owner refcount k =
    ltb (page_number pt) 512
    && owner_eq (k.pageinfo (page_number pt)).owner owner
    && ((k.pageinfo (page_number pt)).refcount == refcount)
    && all_from 512 0 (λ index.
      let entry = k.mem (pt + 8 * index) in
      let below = check_level levels (pte_addr entry) owner 1 k in (entry == 0) || below)

-- The references to the kernel's page table: its own, and those of the active processes that use
-- it. The loop has `left` processes to go.
unfoldable pub count_users : (left pid pt : ℕ) → (ℕ → Proc) → ℕ
count_users zero pid pt processes = 1
count_users (suc left) pid pt processes =
    let rest = count_users left (pid + 1) pt processes in
    if not (is_p_free (processes pid).p_state) && ((processes pid).p_pagetable == pt)
    then suc rest
    else rest

-- `check_page_table_ownership`
unfoldable pub check_page_table_ownership : Image → (pt : ℕ) → (owner : Owner) → System → Bool
check_page_table_ownership image pt owner s =
    if pt == image.kernel_pagetable
    then check_level 3 pt po_kernel (count_users nproc 0 pt s.processes) s.kernel
    else check_level 3 pt owner 1 s.kernel

-- `owner` as a process number, where it is not negative; PO_FREE is 0.
abbrev pub owner_pid : Owner → Option ℕ
owner_pid po_free = some 0
owner_pid (process pid) = some pid
owner_pid _ = none

-- `refcount > 0`, of an `int8_t`
abbrev pub is_referenced : PageInfo → Bool
is_referenced i = ltb 0 i.refcount && ltb i.refcount 128

-- The assert for one page at the end of `check_virtual_memory`, by the number of its owner.
unfoldable pub check_owner : PageInfo → Option ℕ → (ℕ → Proc) → Bool
check_owner i none processes = true
check_owner i (some pid) processes =
    not (is_referenced i) || not (is_p_free (processes pid).p_state)

abbrev pub check_page_owner : System → (pn : ℕ) → Bool
check_page_owner s pn =
    let i = s.kernel.pageinfo pn in check_owner i (owner_pid i.owner) s.processes

-- The asserts for one process in `check_virtual_memory`.
unfoldable pub check_process : Image → System → (pid : ℕ) → Bool
check_process image s pid =
    let p = s.processes pid in
    is_p_free p.p_state
    || (p.p_pagetable == image.kernel_pagetable)
    || (check_page_table_mappings image p.p_pagetable s.kernel.mem
        && check_page_table_ownership image p.p_pagetable (process pid) s)

-- `check_virtual_memory`: whether its asserts hold.
unfoldable pub check_virtual_memory : Image → System → Bool
check_virtual_memory image s =
    is_p_free (s.processes 0).p_state
    && check_page_table_mappings image image.kernel_pagetable s.kernel.mem
    && check_page_table_ownership image image.kernel_pagetable po_kernel s
    && all_from nproc 0 (check_process image s)
    && all_from (page_number memsize_physical) 0 (check_page_owner s)
