-- ===== src/Kernel/Pages.antt =====
-- About the loop of virtual_memory_map of kernel/vm.c: the entries that it writes. The pages lie in
-- one region of 2 MB, which one table of the last level maps.
use memory_management.Base.{
  ℕ, zero, suc, ◌+◌, ◌-◌, ◌*◌, ◌/◌, ◌%◌, ◌^◌, ◌≤◌, ◌<◌, ◌≡◌, ◌∙◌, refl, Bool, true, false, ◌&&◌,
  Option, none, some, ◌==◌, ltb, leb, if◌then◌else◌, update, add64, arith,
}
use memory_management.Base.Run.{ok, Returns, returns, Returns-weaken}
use memory_management.Kernel.PageTable.{
  Entries, page_size, is_present, pageindex, lookup_l4pagetable, map_page, map_loop,
}
use memory_management.Kernel.Translate.{Walk, lookup_l4pagetable-some}

-- The entries `i` to `i + n - 1` of the table `t` map the pages from `pa` on.
abbrev pub with_pages : (t i n pa perm : ℕ) → Entries → Entries
with_pages t i n pa perm mem = λ q.
    if leb (t + 8 * i) q && ltb q (t + 8 * (i + n)) && ((q - t) % 8 == 0)
    then pa + ((q - t) / 8 - i) * page_size + perm
    else mem q

-- One page more in front.
with_pages-suc :
    (t i n pa perm q : ℕ) (mem : Entries)
    → with_pages t (i + 1) n (pa + page_size) perm (update mem (t + 8 * i) (pa + perm)) q
      ≡ with_pages t i (suc n) pa perm mem q
with_pages-suc t i n pa perm q mem = ground arith

-- One round of the loop: it finds the table, now or before, and writes one entry.
map_loop-round :
    (n pt va pa perm last i t : ℕ) (l4 : Option ℕ) (mem : Entries)
    → perm % 2 ≡ 1
    → pageindex va 3 ≡ i
    → let region = va / 2 ^ 21 % 2 ^ 32 in
      (if region == last then ok l4 else lookup_l4pagetable pt va perm mem) ≡ ok (some t)
      → map_loop (suc n) pt va pa perm last l4 mem
        ≡ map_loop n pt
            (add64 va page_size)
            (add64 pa page_size)
            perm
            region
            (some t)
            (update mem (t + 8 * i) (pa + perm))
unfolding map_loop map_page
map_loop-round n pt va pa perm last i t l4 mem odd place found =
    let present : is_present perm ≡ true = ground arith in rw (found, place, present) refl

-- The pages that a run of the loop has written.
abbrev Wrote : (t i n pa perm : ℕ) → Entries → Bool × Entries → Type 0
Wrote t i n pa perm mem r = (r.0 ≡ true) × ((q : ℕ) → r.1 q ≡ with_pages t i n pa perm mem q)

-- One round that finds the table, and then the rest.
map_loop-step :
    (n pt region i t pa perm last : ℕ) (l4 : Option ℕ) (mem : Entries)
    → let va = region * 2 ^ 21 + i * page_size in
      perm % 2 ≡ 1
      → region < 2 ^ 32
      → i + suc n ≤ 512
      → pa + suc n * page_size < 2 ^ 64
      → (if region == last then ok l4 else lookup_l4pagetable pt va perm mem) ≡ ok (some t)
      → Returns (Wrote t (i + 1) n (pa + page_size) perm (update mem (t + 8 * i) (pa + perm))) (
          map_loop n pt
            (region * 2 ^ 21 + (i + 1) * page_size)
            (pa + page_size)
            perm
            region
            (some t)
            (update mem (t + 8 * i) (pa + perm)))
      → Returns (Wrote t i (suc n) pa perm mem) (map_loop (suc n) pt va pa perm last l4 mem)
unfolding pageindex
map_loop-step n pt region i t pa perm last l4 mem odd small room fits found rest =
    let va = region * 2 ^ 21 + i * page_size in
    let here : va / 2 ^ 21 % 2 ^ 32 ≡ region = omega arith in
    let found' : (if va / 2 ^ 21 % 2 ^ 32 == last then ok l4 else lookup_l4pagetable pt va perm mem)
        ≡ ok (some t) =
      rw here found in
    let next : add64 va page_size ≡ region * 2 ^ 21 + (i + 1) * page_size = omega arith in
    let next' : add64 pa page_size ≡ pa + page_size = omega arith in
    rw (map_loop-round n pt va pa perm last i t l4 mem odd (omega arith) found', here, next, next')
      (Returns-weaken rest
        λ r (done, written). (done, λ q. written q ∙ with_pages-suc t i n pa perm q mem))

-- The loop, once it has found the table.
map_loop-Wrote :
    (n pt region i t pa perm : ℕ) (mem : Entries)
    → perm % 2 ≡ 1
    → region < 2 ^ 32
    → i + n ≤ 512
    → pa + n * page_size < 2 ^ 64
    → Returns
        (Wrote t i n pa perm mem)
        (map_loop n pt (region * 2 ^ 21 + i * page_size) pa perm region (some t) mem)
unfolding map_loop
map_loop-Wrote zero pt region i t pa perm mem odd small room fits =
    returns (refl, λ q. ground arith)
map_loop-Wrote (suc n) pt region i t pa perm mem odd small room fits =
    map_loop-step n pt region i t pa perm region (some t) mem odd small room fits (ground arith) (
      map_loop-Wrote n pt region (i + 1) t (pa + page_size) perm
        (update mem (t + 8 * i) (pa + perm)) odd small (omega arith) (omega arith))

-- The loop, from its start: the region is not the one of no table.
pub map_loop-start :
    (n pt region i pa perm : ℕ) {t1 t2 t : ℕ} (mem : Entries)
    → Walk mem pt (region * 2 ^ 21 + i * page_size) t1 t2 t
    → perm % 2 ≡ 1
    → region < 2 ^ 32 - 1
    → i + n ≤ 512
    → pa + n * page_size < 2 ^ 64
    → Returns
        (Wrote t i n pa perm mem)
        (map_loop n pt (region * 2 ^ 21 + i * page_size) pa perm (2 ^ 32 - 1) none mem)
unfolding map_loop
map_loop-start zero pt region i pa perm mem w odd small room fits =
    returns (refl, λ q. ground arith)
map_loop-start (suc n) pt region i pa perm {t1} {t2} {t} mem w odd small room fits =
    let other : (region == 2 ^ 32 - 1) ≡ false = ground arith in
    map_loop-step n pt region i t pa perm (2 ^ 32 - 1) none mem odd (omega arith) room fits
      (rw other (lookup_l4pagetable-some w perm))
      (map_loop-Wrote n pt region (i + 1) t (pa + page_size) perm
        (update mem (t + 8 * i) (pa + perm)) odd (omega arith) (omega arith) (omega arith))
