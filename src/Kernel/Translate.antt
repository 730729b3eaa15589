-- ===== src/Kernel/Translate.antt =====
-- About the walk through the page tables: virtual_memory_lookup and lookup_l4pagetable of
-- kernel/vm.c find the same last-level table.
use memory_management.Base.{
  ℕ, suc, ◌∙◌, ◌+◌, ◌-◌, ◌%◌, ◌<◌, ◌≡◌, refl, ap, true, none, some, ltb, if◌then◌else◌, minus_one,
  arith,
}
use memory_management.Base.Run.{ok}
use memory_management.Kernel.PageTable.{
  Entries, Vamapping, page_size, page_number, memsize_physical, pte_addr, pte_flags, is_present,
  is_writable, is_user, entry_at, mask_perm, lookup_loop, virtual_memory_lookup, l4_loop,
  lookup_l4pagetable,
}

-- An entry that leads to a table in physical memory, for every kind of access.
pub record Leads (entry table : ℕ) : Type 0 where
  pub bits : entry % 8 ≡ 7
  pub addr : pte_addr entry ≡ table
  pub physical : table < memsize_physical

-- The tables `t1`, `t2` and `t` of the levels below `pt` on the way of `va`.
pub record Walk (mem : Entries) (pt va t1 t2 t : ℕ) : Type 0 where
  pub first : Leads (mem (entry_at pt va 0)) t1
  pub second : Leads (mem (entry_at t1 va 1)) t2
  pub third : Leads (mem (entry_at t2 va 2)) t

-- What an entry of the last level says of the address `va`.
abbrev pub leaf : (va entry : ℕ) → Vamapping
leaf va entry =
    if is_present entry
    then record {
      pn = some (page_number entry);
      pa = pte_addr entry + va % page_size;
      perm = pte_flags entry;
    }
    else record { pn = none; pa = minus_one; perm = 0 }

-- A level clears what the level above has, and the level below it then has all.
mask_perm-full : (pe' pe : ℕ) → pe' % 8 ≡ 7 → pe % 8 ≡ 7 → mask_perm pe' pe ≡ pe - 6
unfolding mask_perm
mask_perm-full pe' pe h' h = ground arith

mask_perm-low : (pe' pe : ℕ) → pe' % 8 ≡ 1 → mask_perm pe' pe ≡ pe
unfolding mask_perm
mask_perm-low pe' pe h = ground arith

lookup_loop-full :
    (n level pt pe va t : ℕ) (mem : Entries)
    → pe % 8 ≡ 7
    → Leads (mem (entry_at pt va level)) t
    → lookup_loop (suc n) level pt pe va mem
      ≡ lookup_loop n (level + 1) t (mem (entry_at pt va level) - 6) va mem
unfolding lookup_loop
lookup_loop-full n level pt pe va t mem h l =
    let e = mem (entry_at pt va level) in
    let present : is_present pe ≡ true = ground arith in
    let table : pte_addr (e - 6) ≡ t = omega arith in
    rw (present, mask_perm-full pe e h l.bits, table) refl

lookup_loop-low :
    (n level pt pe va : ℕ) (mem : Entries)
    → pe % 8 ≡ 1
    → lookup_loop (suc n) level pt pe va mem
      ≡ lookup_loop n
          (level + 1)
          (pte_addr (mem (entry_at pt va level)))
          (mem (entry_at pt va level))
          va
          mem
unfolding lookup_loop
lookup_loop-low n level pt pe va mem h =
    let present : is_present pe ≡ true = ground arith in
    rw (present, mask_perm-low pe (mem (entry_at pt va level)) h) refl

l4_loop-Leads :
    (n level pt va perm t : ℕ) (mem : Entries)
    → Leads (mem (entry_at pt va level)) t
    → l4_loop (suc n) level pt va perm mem ≡ l4_loop n (level + 1) t va perm mem
unfolding l4_loop
l4_loop-Leads n level pt va perm t mem l =
    let e = mem (entry_at pt va level) in
    let present : is_present e ≡ true = ground arith in
    let writable : is_writable e ≡ true = ground arith in
    let user : is_user e ≡ true = ground arith in
    let physical : ltb t memsize_physical ≡ true = ground arith in
    rw (present, writable, user, l.addr, physical) (ground arith)

module _ {mem : Entries} {pt va t1 t2 t : ℕ} (w : Walk mem pt va t1 t2 t) where
  -- The lookup ends at the entry of the last table, whole.
  lookup_loop-leaf : lookup_loop 4 0 pt 7 va mem ≡ mem (entry_at t va 3)
  unfolding lookup_loop
  lookup_loop-leaf =
      let e1 = mem (entry_at pt va 0) in
      let e2 = mem (entry_at t1 va 1) in
      let e3 = mem (entry_at t2 va 2) in
      let cleared1 : (e1 - 6) % 8 ≡ 1 = omega (arith, w.first.bits) in
      let cleared3 : (e3 - 6) % 8 ≡ 1 = omega (arith, w.third.bits) in
      lookup_loop-full 3 0 pt 7 va t1 mem refl w.first
      ∙ lookup_loop-low 2 1 t1 (e1 - 6) va mem cleared1
      ∙ ap (λ table. lookup_loop 2 2 table e2 va mem) w.second.addr
      ∙ lookup_loop-full 1 2 t2 e2 va t mem w.second.bits w.third
      ∙ lookup_loop-low 0 3 t (e3 - 6) va mem cleared3

  pub virtual_memory_lookup-leaf : virtual_memory_lookup pt va mem ≡ leaf va (mem (entry_at t va 3))
  unfolding virtual_memory_lookup
  virtual_memory_lookup-leaf = ap (leaf va) lookup_loop-leaf

  pub lookup_l4pagetable-some : (perm : ℕ) → lookup_l4pagetable pt va perm mem ≡ ok (some t)
  unfolding lookup_l4pagetable l4_loop
  lookup_l4pagetable-some perm =
      l4_loop-Leads 2 0 pt va perm t1 mem w.first
      ∙ l4_loop-Leads 1 1 t1 va perm t2 mem w.second
      ∙ l4_loop-Leads 0 2 t2 va perm t mem w.third
