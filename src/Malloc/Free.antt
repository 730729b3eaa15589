-- ===== src/Malloc/Free.antt =====
-- About `free` of uspace/malloc.c.
use memory_management.Base.{
  ℕ, ◌+◌, ◌^◌, ◌<◌, ◌≡◌, refl, true, false, List, arith, ◌==◌, has, erase, insert_before, sub64,
}
use memory_management.Base.Run.{ok, Returns, Returns-weaken}
use memory_management.Malloc.Links.{Ptr, null}
use memory_management.Malloc.Arena.{Arena, header, remove_list, addr_first}
use memory_management.Malloc.Invariant.{IsArena}
use memory_management.Malloc.Lists.{Vacant, append_list_ordered-free}
use memory_management.Malloc.Detach.{remove_list-alloc, has-erase-alloc}
use memory_management.Malloc.Ops.{free}

-- The arena after the block at `p` has been freed; no block has changed its size or its bytes.
pub record Freed (a : Arena) (top : ℕ) (fs bs : List Ptr) (p : Ptr) (b : Arena) : Type 0 where
  pub arena : IsArena b top (insert_before (addr_first p) p fs) (erase p bs)
  pub size : (q : Ptr) → b.size q ≡ a.size q
  pub alloc_bytes : (q : Ptr) → b.alloc_bytes q ≡ a.alloc_bytes q
  pub payload : b.payload ≡ a.payload

module _ (a : Arena) (top : ℕ) (fs bs : List Ptr) (v : IsArena a top fs bs) (small : top < 2 ^ 62)
    (p : Ptr) (mem : has p bs ≡ true) where
  vacated : Vacant (remove_list p false a) fs (erase p bs) p (a.size p)
  unfolding remove_list
  vacated r own = ground (arith, v.apart r p, has-erase-alloc a top fs bs v p r, v.shared p)

  -- On a well-formed heap below 2^62, `free` of an allocated block's payload returns and keeps the
  -- invariant: the block has left the allocated list and stands in the free list before the first
  -- block of a higher address, and no size, no `alloc_bytes` and no payload has changed.
  pub free-Freed : Returns (Freed a top fs bs p) (free (p + header) a)
  unfolding free remove_list
  free-Freed =
      let b = v.block p (ground arith) in
      let at_eq : sub64 (p + header) header ≡ p = omega (arith, b.below) in
      let ne : ((p + header) == null) ≡ false = ground arith in
      rw (ne, at_eq)
        (Returns-weaken
          (append_list_ordered-free (remove_list p false a) top fs (erase p bs)
            (remove_list-alloc a top fs bs v p mem) p (a.size p) b vacated 0)
          λ c ins. record {
            arena = ins.arena;
            size = λ q. ground (arith, ins.size q);
            alloc_bytes = λ q. ins.alloc_bytes q;
            payload = ins.payload;
          })

-- `free(NULL)` does nothing.
free-null : (a : Arena) → free null a ≡ ok a
unfolding free
free-null a = refl
