-- ===== src/Kernel/Mapped.antt =====
-- About virtual_memory_map of kernel/vm.c: what it writes, and what a lookup finds then. The pages
-- lie in one region of 2 MB, which one table of the last level maps.
use memory_management.Base.{
  ℕ, zero, suc, ◌+◌, ◌-◌, ◌*◌, ◌/◌, ◌%◌, ◌^◌, ◌≤◌, ◌<◌, ◌≡◌, ◌⊎◌, ◌∙◌, refl, ap, sym, Bool, true,
  some, add64, arith,
}
use memory_management.Base.Run.{Returns, Returns-weaken}
use memory_management.Kernel.PageTable.{
  Entries, page_size, page_number, memsize_physical, is_present, pte_addr, pte_flags, entry_at,
  pageindex, virtual_memory_lookup, map_asserts, virtual_memory_map,
}
use memory_management.Kernel.Translate.{Leads, Walk, leaf, virtual_memory_lookup-leaf}
use memory_management.Kernel.Pages.{with_pages, map_loop-start}

-- The page of the table `t` does not hold the address `q`.
abbrev Outside : (t q : ℕ) → Type 0
Outside t q = (q < t) ⊎ (t + page_size ≤ q)

-- The three entries on the way to `t` are not in `t` itself.
pub record Apart (pt va t1 t2 t : ℕ) : Type 0 where
  pub first : Outside t (entry_at pt va 0)
  pub second : Outside t (entry_at t1 va 1)
  pub third : Outside t (entry_at t2 va 2)

-- The levels above the last one see only the region.
entry_at-region :
    (pt va va' level : ℕ)
    → level < 3
    → va / 2 ^ 21 ≡ va' / 2 ^ 21
    → entry_at pt va level ≡ entry_at pt va' level
unfolding pageindex
entry_at-region pt va va' zero h same = omega arith
entry_at-region pt va va' (suc zero) h same = omega arith
entry_at-region pt va va' (suc (suc zero)) h same = omega arith
entry_at-region pt va va' (suc (suc (suc level))) h same = absurd (omega arith)

Leads-eq : {e e' table : ℕ} → e' ≡ e → Leads e table → Leads e' table
Leads-eq same l = rw same l

-- A walk is also one of another address of its region, in a memory that has the same three
-- entries.
Walk-with_pages :
    (pt va va' t1 t2 t i n pa perm : ℕ) (mem mem' : Entries)
    → va / 2 ^ 21 ≡ va' / 2 ^ 21
    → i + n ≤ 512
    → Walk mem pt va t1 t2 t
    → Apart pt va t1 t2 t
    → ((q : ℕ) → mem' q ≡ with_pages t i n pa perm mem q)
    → Walk mem' pt va' t1 t2 t
Walk-with_pages pt va va' t1 t2 t i n pa perm mem mem' same room w apart written =
    let kept : (q : ℕ) → Outside t q → mem' q ≡ mem q = λ q out. written q ∙ ground arith in
    let moved : (p level : ℕ)
        → level < 3
        → mem' (entry_at p va' level) ≡ mem' (entry_at p va level) =
      λ p level low. ap mem' (entry_at-region p va' va level low (sym same)) in
    record {
      first = Leads-eq (moved pt 0 (omega arith) ∙ kept (entry_at pt va 0) apart.first) w.first;
      second = Leads-eq (moved t1 1 (omega arith) ∙ kept (entry_at t1 va 1) apart.second) w.second;
      third = Leads-eq (moved t2 2 (omega arith) ∙ kept (entry_at t2 va 2) apart.third) w.third;
    }

leaf_lem :
    (va pa j off perm : ℕ)
    → pa % page_size ≡ 0
    → perm % 2 ≡ 1
    → perm < page_size
    → va % page_size ≡ off
    → pa + j * page_size ≤ memsize_physical
    → leaf va (pa + j * page_size + perm)
      ≡ record { pn = some (pa / page_size + j); pa = pa + j * page_size + off; perm = perm }
leaf_lem va pa j off perm aligned odd fits at low =
    let e = pa + j * page_size + perm in
    let number : page_number e ≡ pa / page_size + j = omega arith in
    let addr : pte_addr e + va % page_size ≡ pa + j * page_size + off = omega arith in
    let flags : pte_flags e ≡ perm = omega arith in
    let present : is_present e ≡ true = ground arith in rw (present, addr, number, flags) refl

-- What a lookup finds in a page that `with_pages` has mapped.
virtual_memory_lookup-with_pages :
    (region t i n j off pa perm : ℕ) {pt t1 t2 : ℕ} (mem mem' : Entries)
    → Walk mem' pt (region * 2 ^ 21 + (i + j) * page_size + off) t1 t2 t
    → ((q : ℕ) → mem' q ≡ with_pages t i n pa perm mem q)
    → i + n ≤ 512
    → j < n
    → off < page_size
    → pa % page_size ≡ 0
    → perm % 2 ≡ 1
    → perm < page_size
    → pa + j * page_size ≤ memsize_physical
    → virtual_memory_lookup pt (region * 2 ^ 21 + (i + j) * page_size + off) mem'
      ≡ record { pn = some (pa / page_size + j); pa = pa + j * page_size + off; perm = perm }
unfolding pageindex
virtual_memory_lookup-with_pages region t i n j off pa perm {pt} mem mem' w written room lt small
      aligned odd fits low =
    let va = region * 2 ^ 21 + (i + j) * page_size + off in
    let place : entry_at t va 3 ≡ t + 8 * (i + j) = omega arith in
    let value : mem' (t + 8 * (i + j)) ≡ pa + j * page_size + perm =
      written (t + 8 * (i + j)) ∙ ground arith in
    let entry : mem' (entry_at t va 3) ≡ pa + j * page_size + perm = ap mem' place ∙ value in
    virtual_memory_lookup-leaf w
    ∙ ap (leaf va) entry
    ∙ leaf_lem va pa j off perm aligned odd fits (omega arith) low

map_asserts-true :
    (pt va pa n perm : ℕ)
    → pt % page_size ≡ 0
    → va % page_size ≡ 0
    → va + n * page_size < 2 ^ 64
    → pa % page_size ≡ 0
    → pa + n * page_size ≤ memsize_physical
    → perm < page_size
    → map_asserts pt va pa (n * page_size) perm ≡ true
unfolding map_asserts
map_asserts-true pt va pa n perm table at top aligned fits flags =
    let size : n * page_size % page_size ≡ 0 = omega arith in
    let end : add64 va (n * page_size) ≡ va + n * page_size = omega arith in
    let end' : add64 pa (n * page_size) ≡ pa + n * page_size = omega arith in
    rw (size, end, end') (ground arith)

-- What `virtual_memory_map` has done.
pub record Mapped (pt va pa perm n t i : ℕ) (mem : Entries) (r : Bool × Entries) : Type 0 where
  pub done : r.0 ≡ true
  -- every address of the pages
  pub found :
      (j off : ℕ)
      → j < n
      → off < page_size
      → virtual_memory_lookup pt (va + j * page_size + off) r.1
        ≡ record { pn = some (pa / page_size + j); pa = pa + j * page_size + off; perm = perm }
  -- nothing but the entries of the pages
  pub kept : (q : ℕ) → (q < t + 8 * i) ⊎ (t + 8 * (i + n) ≤ q) → r.1 q ≡ mem q

-- Where a last-level table `t` exists for the 2 MB region of `va`, its three upper entries allow
-- every access and do not lie in `t` itself, and the asserts of the code hold, mapping `n` present
-- pages of that region to physical memory succeeds. Then `virtual_memory_lookup` finds each
-- address of the pages at its physical address with the permissions given, and no entry but
-- those of the pages has changed.
pub virtual_memory_map-Mapped :
    (pt region i n pa perm t1 t2 t : ℕ) (mem : Entries)
    → Walk mem pt (region * 2 ^ 21 + i * page_size) t1 t2 t
    → Apart pt (region * 2 ^ 21 + i * page_size) t1 t2 t
    → pt % page_size ≡ 0
    → region < 2 ^ 32 - 1
    → i + n ≤ 512
    → i < 512
    → pa % page_size ≡ 0
    → pa + n * page_size ≤ memsize_physical
    → perm % 2 ≡ 1
    → perm < page_size
    → let va = region * 2 ^ 21 + i * page_size in
      Returns
        (Mapped pt va pa perm n t i mem)
        (virtual_memory_map pt va pa (n * page_size) perm mem)
unfolding virtual_memory_map
virtual_memory_map-Mapped pt region i n pa perm t1 t2 t mem w apart table small room slot aligned
      fits odd flags =
    let va = region * 2 ^ 21 + i * page_size in
    let asserts : map_asserts pt va pa (n * page_size) perm ≡ true =
      map_asserts-true pt va pa n perm table (omega arith) (omega arith) aligned fits flags in
    let count : n * page_size / page_size ≡ n = omega arith in
    rw (asserts, count)
      (Returns-weaken (map_loop-start n pt region i pa perm mem w odd small room (omega arith))
        λ r (done, written). record {
          done = done;
          found = λ j off lt low.
              let va' = region * 2 ^ 21 + (i + j) * page_size + off in
              let same : va + j * page_size + off ≡ va' = omega arith in
              let w' =
                Walk-with_pages pt va va' t1 t2 t i n pa perm mem r.1 (omega arith) room w apart
                  written in
              rw same (
                virtual_memory_lookup-with_pages region t i n j off pa perm mem r.1 w' written room
                  lt low aligned odd flags (omega arith));
          kept = λ q out. written q ∙ ground arith;
        })
