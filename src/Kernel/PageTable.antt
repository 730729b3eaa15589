-- ===== src/Kernel/PageTable.antt =====
-- The page tables of kernel/vm.c, and the macros of shared/x86-64.h that they use.
-- Physical memory is read and written in the 8-byte entries of page tables, so it is a function
-- from the address of an entry to its value. The flag bits of an entry are read by `/` and `%`.
use memory_management.Base.{
  ℕ, zero, suc, ◌+◌, ◌-◌, ◌*◌, ◌/◌, ◌%◌, ◌^◌, Bool, true, false, not, ◌&&◌, ◌||◌, Option, none,
  some, ◌==◌, ltb, leb, if◌then◌else◌, update, minus_one, add64,
}
use memory_management.Base.Run.{Run, ok, fault, ◌>>=◌}

-- A page-table entry of 64 bits at each address.
abbrev pub Entries : Type 0
Entries = ℕ → ℕ

abbrev pub page_size : ℕ
page_size = 4096

abbrev pub memsize_physical : ℕ
memsize_physical = 0x200000

abbrev pub memsize_virtual : ℕ
memsize_virtual = 0x300000

-- `PAGENUMBER`, as the bit pattern of an `int`; `PTE_ADDR`, `PTE_FLAGS` and `PAGEOFFSET`
abbrev pub page_number : ℕ → ℕ
page_number a = a / page_size % 2 ^ 32

abbrev pub pte_addr : ℕ → ℕ
pte_addr pe = pe / page_size * page_size

abbrev pub pte_flags : ℕ → ℕ
pte_flags pe = pe % page_size

-- `pe & PTE_P`, `pe & PTE_W` and `pe & PTE_U` as tests
abbrev pub is_present : ℕ → Bool
is_present pe = pe % 2 == 1

abbrev pub is_writable : ℕ → Bool
is_writable pe = pe / 2 % 2 == 1

abbrev pub is_user : ℕ → Bool
is_user pe = pe / 4 % 2 == 1

-- `pageindex(addr, level)`
unfoldable pub pageindex : (addr level : ℕ) → ℕ
pageindex addr level = addr / 2 ^ (12 + (3 - level) * 9) % 512

-- `&pt->entry[PAGEINDEX(va, level)]`
abbrev pub entry_at : (pt va level : ℕ) → ℕ
entry_at pt va level = pt + 8 * pageindex va level

-- `struct vamapping`; `pn` is `none` for -1.
pub record Vamapping : Type 0 where
  pub pn : Option ℕ
  pub pa : ℕ
  pub perm : ℕ

-- `pe & ~(pe' & (PTE_W | PTE_U))`, written over the two bits: where `pe'` has a bit, `pe` loses it.
unfoldable pub mask_perm : (pe' pe : ℕ) → ℕ
mask_perm pe' pe =
    let no_w = if is_writable pe' && is_writable pe then pe - 2 else pe in
    if is_user pe' && is_user no_w then no_w - 4 else no_w

-- The loop of `virtual_memory_lookup`, with the rounds left: the entry that it ends with.
unfoldable pub lookup_loop : ℕ → (level pt pe va : ℕ) → Entries → ℕ
lookup_loop zero level pt pe va mem = pe
lookup_loop (suc n) level pt pe va mem =
    let pe' = mask_perm pe (mem (entry_at pt va level)) in
    let rest = lookup_loop n (level + 1) (pte_addr pe') pe' va mem in
    if is_present pe then rest else pe

unfoldable pub virtual_memory_lookup : (pagetable va : ℕ) → Entries → Vamapping
virtual_memory_lookup pagetable va mem =
    let pe = lookup_loop 4 0 pagetable 7 va mem in
    if is_present pe
    then record {
      pn = some (page_number pe);
      pa = pte_addr pe + va % page_size;
      perm = pte_flags pe;
    }
    else record { pn = none; pa = minus_one; perm = 0 }

-- `lookup_l4pagetable`, with the rounds left: `none` for NULL, a fault for a failed `assert`.
unfoldable pub l4_loop : ℕ → (level pt va perm : ℕ) → Entries → Run (Option ℕ)
l4_loop zero level pt va perm mem = ok (some pt)
l4_loop (suc n) level pt va perm mem =
    let pe = mem (entry_at pt va level) in
    let rest = l4_loop n (level + 1) (pte_addr pe) va perm mem in
    if not (is_present pe)
    then ok none
    else if not (ltb (pte_addr pe) memsize_physical)
    then fault
    else if is_writable perm && not (is_writable pe)
    then fault
    else if is_user perm && not (is_user pe)
    then fault
    else rest

unfoldable pub lookup_l4pagetable : (pagetable va perm : ℕ) → Entries → Run (Option ℕ)
lookup_l4pagetable pagetable va perm mem = l4_loop 3 0 pagetable va perm mem

-- One page of `virtual_memory_map` in the last-level table `l4`. The result is `none` for the
-- error of a present page with no table. `pa | perm` is a sum, since the asserts want `pa` to be
-- a multiple of the page size and `perm` below it.
unfoldable pub map_page : (l4 : Option ℕ) → (va pa perm : ℕ) → Entries → Option Entries
map_page (some t) va pa perm mem =
    some (update mem (entry_at t va 3) (if is_present perm then pa + perm else perm))
map_page none va pa perm mem = if is_present perm then none else some mem

-- The loop of `virtual_memory_map`, with the number of pages left; `last` is `last_index123`
-- (the bit pattern of an `int`) and `l4` the table found for it.
unfoldable pub map_loop :
    ℕ → (pagetable va pa perm : ℕ) → (last : ℕ) → (l4 : Option ℕ) → Entries → Run (Bool × Entries)
map_loop zero pagetable va pa perm last l4 mem = ok (true, mem)
map_loop (suc n) pagetable va pa perm last l4 mem =
    let cur = va / 2 ^ 21 % 2 ^ 32 in
    let rest = λ (l4' : Option ℕ) (mem' : Entries).
      map_loop n pagetable (add64 va page_size) (add64 pa page_size) perm cur l4' mem' in
    do
      l4' ← (if cur == last then ok l4 else lookup_l4pagetable pagetable va perm mem)
      elim (map_page l4' va pa perm mem) [ none ↦ ok (false, mem) | some mem' ↦ rest l4' mem' ]

-- The asserts of `virtual_memory_map`.
unfoldable pub map_asserts : (pagetable va pa sz perm : ℕ) → Bool
map_asserts pagetable va pa sz perm =
    (va % page_size == 0)
    && (sz % page_size == 0)
    && (leb va (add64 va sz) || (add64 va sz == 0))
    && (not (is_present perm)
        || ((pa % page_size == 0) && leb pa (add64 pa sz) && leb (add64 pa sz) memsize_physical))
    && ltb perm 0x1000
    && (pagetable % page_size == 0)

-- `virtual_memory_map`: `true` for the return value 0, `false` for -1.
unfoldable pub virtual_memory_map : (pagetable va pa sz perm : ℕ) → Entries → Run (Bool × Entries)
virtual_memory_map pagetable va pa sz perm mem =
    if map_asserts pagetable va pa sz perm
    then map_loop (sz / page_size) pagetable va pa perm (2 ^ 32 - 1) none mem
    else fault
