-- ===== src/Kernel/Identity.antt =====
-- About virtual_memory_init of kernel/vm.c: the kernel starts with the identity map.
use memory_management.Base.{
  ℕ, ◌+◌, ◌*◌, ◌/◌, ◌%◌, ◌≤◌, ◌<◌, ◌≡◌, inl, refl, Bool, true, some, arith,
}
use memory_management.Base.Run.{ok, Returns, returns, Returns-bind}
use memory_management.Kernel.PageTable.{
  Entries, page_size, memsize_physical, pageindex, virtual_memory_lookup,
}
use memory_management.Kernel.System.{Image, System, all_from}
use memory_management.Kernel.Checks.{all_from_iff}
use memory_management.Kernel.Syscalls.{set_pagetable, pagetable_asserts}
use memory_management.Kernel.Translate.{Leads, Walk}
use memory_management.Kernel.Mapped.{Apart, Mapped, virtual_memory_map-Mapped}
use memory_management.Kernel.Start.{table_at, link_tables, is_identity, virtual_memory_init}

-- The linker puts the page tables, and what `set_pagetable` looks up, into physical memory.
pub record IsLoaded (image : Image) : Type 0 where
  pub aligned : image.kernel_pagetable % page_size ≡ 0
  pub tables : image.kernel_pagetable + 5 * page_size ≤ memsize_physical
  pub handler : image.default_int_handler < memsize_physical
  pub mapper : image.virtual_memory_map < memsize_physical

-- Every physical address is mapped to itself, for every access.
abbrev pub Identity : (pagetable : ℕ) → Entries → Type 0
Identity pagetable mem =
    (va : ℕ)
    → va < memsize_physical
    → virtual_memory_lookup pagetable va mem
      ≡ record { pn = some (va / page_size); pa = va; perm = 7 }

module _ (image : Image) (l : IsLoaded image) where
  Leads-table_at : (e i : ℕ) → i < 5 → e ≡ table_at image i + 7 → Leads e (table_at image i)
  Leads-table_at e i small same = record {
    bits = omega (arith, l.aligned);
    addr = omega (arith, l.aligned);
    physical = omega (arith, l.tables);
  }

  link_tables-Walk :
      (mem : Entries)
      → Walk
          (link_tables image mem)
          image.kernel_pagetable
          0
          (table_at image 1)
          (table_at image 2)
          (table_at image 3)
  unfolding link_tables pageindex
  link_tables-Walk mem = record {
    first = Leads-table_at _ 1 (omega arith) (ground arith);
    second = Leads-table_at _ 2 (omega arith) (ground arith);
    third = Leads-table_at _ 3 (omega arith) (ground arith);
  }

  tables-Apart :
      Apart image.kernel_pagetable 0 (table_at image 1) (table_at image 2) (table_at image 3)
  unfolding pageindex
  tables-Apart = record {
    first = inl (omega arith);
    second = inl (omega arith);
    third = inl (omega arith);
  }

  Mapped-Identity :
      (mem : Entries) (r : Bool × Entries)
      → Mapped image.kernel_pagetable 0 0 7 512 (table_at image 3) 0 mem r
      → Identity image.kernel_pagetable r.1
  Mapped-Identity mem r m va low =
      let found = m.found (va / page_size) (va % page_size) (omega arith) (omega arith) in
      let same : 0 + va / page_size * page_size + va % page_size ≡ va = omega arith in
      let number : 0 / page_size + va / page_size ≡ va / page_size = omega arith in
      rw (same, number) at found

  -- The asserts of `virtual_memory_init` hold under the identity map.
  is_identity-true :
      (mem : Entries) (pn : ℕ)
      → Identity image.kernel_pagetable mem
      → pn < 512
      → is_identity image.kernel_pagetable pn mem ≡ true
  unfolding is_identity
  is_identity-true mem pn id small =
      let found = id (pn * page_size) (omega arith) in rw found (ground arith)

  set_pagetable-ok :
      (s : System)
      → Identity image.kernel_pagetable s.kernel.mem
      → set_pagetable image image.kernel_pagetable s ≡ ok s
  unfolding set_pagetable pagetable_asserts
  set_pagetable-ok s id =
      let k = image.kernel_pagetable in
      rw
        (
          id image.default_int_handler l.handler,
          id k (omega (arith, l.tables)),
          id image.virtual_memory_map l.mapper,
        )
        (ground (arith, l.aligned))

  -- With its page tables in physical memory the kernel starts: no assert of virtual_memory_init
  -- fails, and afterwards every physical address is mapped to itself, writable and for users too;
  -- the owners of pages, the processes and the other globals are as before.
  pub virtual_memory_init-Identity :
      (s : System)
      → Returns
          (λ t.
            Identity image.kernel_pagetable t.kernel.mem
            × (t.kernel.pageinfo ≡ s.kernel.pageinfo)
            × (t.processes ≡ s.processes)
            × (t.current ≡ s.current)
            × (t.ticks ≡ s.ticks)
            × (t.disp_global ≡ s.disp_global))
          (virtual_memory_init image s)
  unfolding virtual_memory_init
  virtual_memory_init-Identity s =
      let k = image.kernel_pagetable in
      let mem = link_tables image s.kernel.mem in
      Returns-bind
        (virtual_memory_map-Mapped k 0 0 512 0 7 (table_at image 1) (table_at image 2)
          (table_at image 3) mem (link_tables-Walk s.kernel.mem) tables-Apart l.aligned
          (omega arith) (omega arith) (omega arith) refl (omega arith) refl (omega arith))
        λ r mapped.
          let id = Mapped-Identity mem r mapped in
          let checked : all_from 512 0 (λ pn. is_identity k pn r.1) ≡ true =
            (all_from_iff 512 0 (λ pn. is_identity k pn r.1)).1
              (λ pn lo hi. is_identity-true r.1 pn id hi) in
          let t = record s { kernel = record (s.kernel) { mem = r.1 } } in
          rw (checked, set_pagetable-ok t id) (returns (id, refl, refl, refl, refl, refl))
