-- ===== src/Malloc/Informed.antt =====
-- About heap_info of uspace/malloc.c: what it says of the heap.
use memory_management.Base.{
  ℕ, ◌+◌, ◌*◌, ◌%◌, ◌^◌, ◌<◌, ◌≡◌, ◌≢◌, Distinct, ap, refl, ◌∙◌, inl, inr, true, false, ◌||◌, List,
  [], ◌∷◌, length, arith, ◌==◌, if◌then◌else◌, Bool-cases, has, minus_one, sub64, mul64,
}
use memory_management.Base.Run.{ok, Returns, returns, Returns-bind, ◌>>=◌}
use memory_management.Malloc.Chain.{Chain-Distinct}
use memory_management.Malloc.Detach.{IsArena-payload}
use memory_management.Malloc.Entries.{store_entries}
use memory_management.Malloc.Listing.{Listing, listing}
use memory_management.Malloc.Links.{Ptr, null}
use memory_management.Malloc.Arena.{Arena, header, of_option}
use memory_management.Malloc.Ops.{Breaks, HeapInfo, entries_loop, malloc, fill_arrays, heap_info}
use memory_management.Malloc.Allocate.{IsState, Malloced, failed, got, malloc-Malloced}
use memory_management.Malloc.Info.{
  total, largest, larger, free_loop-total, others, entries_loop-others,
}

length-none : (xs : List ℕ) → length xs ≡ 0 → xs ≡ []
length-none [] e = refl
length-none (x ∷ xs) e = absurd (omega arith)

nonempty : (xs : List ℕ) → length xs ≢ 0 → xs ≢ []
nonempty xs h e = h (ap length e)

module _ (os : Breaks) (a : Arena) (o : os.Os) (fs bs : List Ptr) where
  -- How `heap_info` ends, beside its first fields.
  pub data Outcome (bs' : List Ptr) (r : ℕ × HeapInfo × Arena × os.Os) : Type 0 where
    empty :
        bs ≡ [] → r.0 ≡ 0 → r.1.size_array ≡ null → r.1.ptr_array ≡ null → r.2 ≡ a → Outcome bs' r
    no_memory : r.0 ≡ minus_one → bs ≢ [] → r.2.payload ≡ a.payload → Outcome bs' r
    listed : r.0 ≡ 0 → Listing a r.2 bs bs' r.1 → Outcome bs' r

  pub record Informed (r : ℕ × HeapInfo × Arena × os.Os) : Type 0 where
    pub num_allocs : r.1.num_allocs ≡ length bs
    pub free_space : r.1.free_space ≡ total a.size fs % 2 ^ 32
    pub largest_free_chunk : r.1.largest_free_chunk ≡ largest a.size fs
    pub fs' : List Ptr
    pub bs' : List Ptr
    pub outcome : Outcome bs' r
    pub state : IsState os r.2 r.3 fs' bs'

  module _ (info : HeapInfo) (n_eq : info.num_allocs ≡ length bs)
      (space_eq : info.free_space ≡ total a.size fs % 2 ^ 32)
      (most_eq : info.largest_free_chunk ≡ largest a.size fs) where
    -- A state with the first fields of `info`, and an outcome.
    informed :
        (r : ℕ × HeapInfo × Arena × os.Os) (fs' bs' : List Ptr)
        → r.1.num_allocs ≡ info.num_allocs
        → r.1.free_space ≡ info.free_space
        → r.1.largest_free_chunk ≡ info.largest_free_chunk
        → Outcome bs' r
        → IsState os r.2 r.3 fs' bs'
        → Informed r
    informed r fs' bs' e1 e2 e3 out state = record {
      num_allocs = e1 ∙ n_eq;
      free_space = e2 ∙ space_eq;
      largest_free_chunk = e3 ∙ most_eq;
      outcome = out;
      fs' = fs';
      bs' = bs';
      state = state;
    }

    -- The second array, and the entries.
    second :
        (p1 : Ptr) (r1 r2 : Ptr × Arena × os.Os) (fs1 bs1 : List Ptr)
        → has p1 bs ≡ false
        → ((q : Ptr) → has q bs1 ≡ ((q == p1) || has q bs))
        → ((q : Ptr) → has q bs ≡ true → r1.1.alloc_bytes q ≡ a.alloc_bytes q)
        → r1.1.alloc_bytes p1 ≡ length bs * 8
        → r1.1.payload ≡ a.payload
        → r1.0 ≡ p1 + header
        → sub64 r1.0 header ≡ p1
        → mul64 info.num_allocs 8 ≡ length bs * 8
        → Distinct bs
        → bs ≢ []
        → Malloced os r1.1 r1.2 fs1 bs1 (mul64 info.num_allocs 8) r2
        → Returns Informed (
            if r2.0 == null
            then ok (minus_one, info, r2.1, r2.2)
            else (of_option (
                  entries_loop
                    (r2.1.alloc.count + 1)
                    r2.1.alloc.head
                    (sub64 r1.0 header)
                    (sub64 r2.0 header)
                    r1.0
                    r2.0
                    0
                    r2.1
                    r2.1.payload)
                >>= λ m. ok (
                  0,
                  record info { size_array = r1.0; ptr_array = r2.0 },
                  record (r2.1) { payload = m },
                  r2.2,
                )))
    second p1 r1 r2 fs1 bs1 new members kept bytes payload at own some d ne (failed z same v) =
        let hit : (r2.0 == null) ≡ true = ground arith in
        rw hit (
          returns (
            informed _ fs1 bs1 refl refl refl
              (no_memory refl ne (ap (λ (x : Arena). x.payload) same ∙ payload)) v))
    second p1 r1 r2 fs1 bs1 new members kept bytes payload at own some d ne (got p2 new' c v) =
        let hit : (r2.0 == null) ≡ false = ground (arith, c.result) in
        let b = r2.1 in
        let linked = v.arena.alloc_linked in
        let member : has p2 c.bs' ≡ true = ground (arith, c.member p2) in
        let block = v.arena.block p2 (ground arith) in
        let low = os.top_small r2.2 v.process in
        let own' : sub64 r2.0 header ≡ p2 = omega (arith, c.result, block, low) in
        let at' : r2.0 ≡ p2 + header = c.result in
        let found =
          entries_loop-others (b.alloc.count + 1) null b.alloc.head b.alloc.tail p1 p2 (p1 + header)
            (p2 + header) 0 b c.bs' b.payload linked.chain (omega (arith, linked.count)) in
        let m =
          store_entries (p1 + header) (p2 + header) 0 b.alloc_bytes (others p1 p2 c.bs')
            b.payload in
        let kept' : (q : Ptr) → has q bs ≡ true → b.alloc_bytes q ≡ a.alloc_bytes q =
          λ q t. (c.same q (ground (arith, members q))).1 ∙ kept q t in
        let mine : has p1 bs1 ≡ true = ground (arith, members p1) in
        rw (hit, own, own', at, at', found)
          (returns (
            informed _ c.fs' c.bs' refl refl refl
              (listed refl (
                listing a bs info p1 p2 b (os.top r2.2) c.fs' bs1 c.bs' v.arena low new new' members
                  c.member kept' ((c.same p1 mine).1 ∙ bytes) (c.bytes ∙ some) (c.payload ∙ payload)
                  d))
              (record {
                arena = IsArena-payload b (os.top r2.2) c.fs' c.bs' m v.arena;
                process = v.process;
                aligned = v.aligned;
              })))

    fill_arrays-Informed :
        IsState os a o fs bs
        → bs ≢ []
        → length bs < 2 ^ 59
        → Returns Informed (fill_arrays os info a o)
    unfolding fill_arrays
    fill_arrays-Informed v ne few =
        let product : mul64 info.num_allocs 8 ≡ length bs * 8 = omega (arith, n_eq) in
        let small : mul64 info.num_allocs 8 < 2 ^ 62 = omega (arith, product) in
        Returns-bind (malloc-Malloced os a o fs bs (mul64 info.num_allocs 8) v small)
          λ r1 first. both r1 product small first
      where
        both :
            (r1 : Ptr × Arena × os.Os)
            → mul64 info.num_allocs 8 ≡ length bs * 8
            → mul64 info.num_allocs 8 < 2 ^ 62
            → Malloced os a o fs bs (mul64 info.num_allocs 8) r1
            → Returns Informed (
                if r1.0 == null
                then ok (minus_one, info, r1.1, r1.2)
                else (malloc os (mul64 info.num_allocs 8) r1.1 r1.2 >>= λ r2.
                    if r2.0 == null
                    then ok (minus_one, info, r2.1, r2.2)
                    else (of_option (
                          entries_loop
                            (r2.1.alloc.count + 1)
                            r2.1.alloc.head
                            (sub64 r1.0 header)
                            (sub64 r2.0 header)
                            r1.0
                            r2.0
                            0
                            r2.1
                            r2.1.payload)
                        >>= λ m. ok (
                          0,
                          record info { size_array = r1.0; ptr_array = r2.0 },
                          record (r2.1) { payload = m },
                          r2.2,
                        ))))
        both r1 product small (failed z same v') =
            let hit : (r1.0 == null) ≡ true = ground arith in
            rw hit (
              returns (
                informed _ fs bs refl refl refl
                  (no_memory refl ne (ap (λ (x : Arena). x.payload) same)) v'))
        both r1 product small (got p1 new c v') =
            let hit : (r1.0 == null) ≡ false = ground (arith, c.result) in
            let block = v'.arena.block p1 (ground (arith, c.member p1)) in
            let own : sub64 r1.0 header ≡ p1 =
              omega (arith, c.result, block, os.top_small r1.2 v'.process) in
            let distinct =
              Chain-Distinct a.links null a.alloc.head a.alloc.tail bs v.arena.alloc_linked.chain in
            rw hit (
              Returns-bind
                (malloc-Malloced os r1.1 r1.2 c.fs' c.bs' (mul64 info.num_allocs 8) v' small)
                λ r2 m.
                  second p1 r1 r2 c.fs' c.bs' new c.member (λ q k. (c.same q k).1)
                    (c.bytes ∙ product) c.payload c.result own product distinct ne m)

  -- On a well-formed heap below 2^31, with fewer than 2^59 allocated blocks, `heap_info` returns:
  -- the number of allocated blocks, the sum of the sizes of the free blocks as an `int` wraps it,
  -- and the size of the largest one. If nothing is allocated it gives 0 and NULL for both arrays
  -- and changes nothing. Else it gives -1 with the payload unchanged, or 0 and two arrays: each is
  -- a new allocated block of 8 bytes for each block that was allocated before the call. Their bytes
  -- spell out the sizes asked for and the payload addresses of exactly those blocks, the largest
  -- first, and no byte outside them has changed. The heap is well formed afterwards.
  pub heap_info-Informed :
      (info : HeapInfo)
      → IsState os a o fs bs
      → os.top o < 2 ^ 31
      → length bs < 2 ^ 59
      → Returns Informed (heap_info os info a o)
  unfolding heap_info
  heap_info-Informed info v low few =
      let linked = v.arena.free_linked in
      let small : (q : Ptr) → has q fs ≡ true → a.size q < 2 ^ 31 =
        λ q m. omega (arith, v.arena.block q (ground arith)) in
      let totals =
        free_loop-total (a.free.count + 1) null a.free.head a.free.tail 0 0 a fs linked.chain
          (omega (arith, linked.count)) small (omega arith) (omega arith) in
      let count = v.arena.alloc_linked.count in
      let space : (0 + total a.size fs) % 2 ^ 32 ≡ total a.size fs % 2 ^ 32 = omega arith in
      let most : larger 0 (largest a.size fs) ≡ largest a.size fs = ground arith in
      let info1 : HeapInfo = record info {
        num_allocs = a.alloc.count;
        free_space = (0 + total a.size fs) % 2 ^ 32;
        largest_free_chunk = larger 0 (largest a.size fs);
      } in
      rw totals (elim (Bool-cases (a.alloc.count == 0)) [
        | inl e ↦ rw e (
            returns (
              informed info1 count space most _ fs bs refl refl refl
                (empty (length-none bs (ground (arith, count))) refl refl refl refl) v))
        | inr e ↦ rw e (
            fill_arrays-Informed info1 count space most v (nonempty bs (ground (arith, count))) few)
      ])
