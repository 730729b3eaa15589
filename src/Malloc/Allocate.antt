-- ===== src/Malloc/Allocate.antt =====
-- About `malloc` of uspace/malloc.c.
use memory_management.Base.{
  ℕ, ◌+◌, ◌%◌, ◌^◌, ◌≤◌, ◌<◌, ◌≡◌, refl, ◌∙◌, inl, inr, true, false, List, arith, ◌==◌,
  if◌then◌else◌, Bool-cases, has, insert_before, has-insert_before, minus_one,
}
use memory_management.Base.Run.{ok, Returns, returns, Returns-bind, ◌>>=◌}
use memory_management.Malloc.Links.{Ptr, null}
use memory_management.Malloc.Arena.{Arena, search_free, addr_first}
use memory_management.Malloc.Invariant.{IsBlock, IsArena}
use memory_management.Malloc.Lists.{FreeInserted, append_list_ordered-free}
use memory_management.Malloc.Detach.{IsArena-grow}
use memory_management.Malloc.Search.{
  first_fit, search_free-first_fit, Fit, missing, found, first_fit-Fit,
}
use memory_management.Malloc.Carve.{Carved, carve-Carved}
use memory_management.Malloc.Sizes.{Required, required_size-Required, Chunk, chunk_size-Chunk}
use memory_management.Malloc.Ops.{Breaks, carve, grow, malloc, required_size, chunk_size}

-- The allocator beside its process: the heap ends at the program break.
pub record IsState (os : Breaks) (a : Arena) (o : os.Os) (fs bs : List Ptr) : Type 0 where
  pub arena : IsArena a (os.top o) fs bs
  pub process : os.IsProcess o
  pub aligned : os.top o % 8 ≡ 0

module _ (os : Breaks) (a : Arena) (o : os.Os) (fs bs : List Ptr) (numbytes : ℕ) where
  -- How `malloc` ends: NULL and an unchanged arena, or a new block.
  pub data Malloced (r : Ptr × Arena × os.Os) : Type 0 where
    failed : r.0 ≡ null → r.1 ≡ a → IsState os (r.1) (r.2) fs bs → Malloced r
    got :
        (p : Ptr)
        → has p bs ≡ false
        → (c : Carved a (os.top r.2) bs p numbytes (r.0, r.1)) → IsState os (r.1) (r.2) c.fs' c.bs'
        → Malloced r

  module _ (required : ℕ) (req : Required numbytes required) where
    -- Carving the found block, in the arena as it was or as it has grown.
    finish :
        (a' : Arena) (o' : os.Os) (fs' : List Ptr) (p : Ptr)
        → IsState os a' o' fs' bs
        → ((q : Ptr)
            → has q bs ≡ true
            → (a'.size q ≡ a.size q) × (a'.alloc_bytes q ≡ a.alloc_bytes q))
        → a'.payload ≡ a.payload
        → has p fs' ≡ true
        → required ≤ a'.size p
        → Returns Malloced (carve p required numbytes a' >>= λ r. ok (r.0, r.1, o'))
    finish a' o' fs' p v same same_payload mem enough =
        Returns-bind
          (carve-Carved a' (os.top o') fs' bs v.arena (os.top_small o' v.process) p mem required
            numbytes req.aligned req.fit enough)
          λ r c. returns (
            got p (v.arena.shared p mem)
              (record {
                fs' = c.fs';
                bs' = c.bs';
                arena = c.arena;
                result = c.result;
                member = c.member;
                bytes = c.bytes;
                same = λ q m. ((c.same q m).0 ∙ (same q m).0, (c.same q m).1 ∙ (same q m).1);
                payload = c.payload ∙ same_payload;
              })
              (record { arena = c.arena; process = v.process; aligned = v.aligned }))

    -- The second search, after the chunk at the old break has joined the free list.
    search_grown :
        (chunk : ℕ) (a' : Arena) (o' : os.Os)
        → IsState os a o fs bs
        → Chunk required chunk
        → os.IsProcess o'
        → os.top o' ≡ os.top o + chunk
        → FreeInserted a (os.top o') fs bs (os.top o) chunk a'
        → Returns Malloced (
            search_free required a' >>= λ p.
            carve p required numbytes a' >>= λ r. ok (r.0, r.1, o'))
    search_grown chunk a' o' v c process grown ins =
        let t = os.top o in
        let fs' = insert_before (addr_first t) t fs in
        let mem : has t fs' ≡ true = ground (arith, has-insert_before (addr_first t) t t fs) in
        let linked = IsArena.free_linked ins.arena in
        let e = a'.free in
        let fit = first_fit-Fit a'.size required null e.head e.tail a' fs' linked.chain in
        let state : IsState os a' o' fs' bs = record {
          arena = ins.arena;
          process = process;
          aligned = omega (arith, v.aligned, c.aligned, grown);
        } in
        let same : (q : Ptr)
            → has q bs ≡ true
            → (a'.size q ≡ a.size q) × (a'.alloc_bytes q ≡ a.alloc_bytes q) =
          λ q m.
            let b = v.arena.block q (ground arith) in
            (ground (arith, ins.size q, b), ins.alloc_bytes q) in
        rw (search_free-first_fit a' required fs' linked)
          (go (first_fit a'.size required fs') fit mem state same)
      where
        go :
            (f : Ptr)
            → Fit a'.size required (insert_before (addr_first (os.top o)) (os.top o) fs) f
            → has (os.top o) (insert_before (addr_first (os.top o)) (os.top o) fs) ≡ true
            → IsState os a' o' (insert_before (addr_first (os.top o)) (os.top o) fs) bs
            → ((q : Ptr)
                → has q bs ≡ true
                → (a'.size q ≡ a.size q) × (a'.alloc_bytes q ≡ a.alloc_bytes q))
            → Returns Malloced (carve f required numbytes a' >>= λ r. ok (r.0, r.1, o'))
        go f (missing z small) mem st same =
            absurd (ground (arith, small (os.top o) mem, ins.size (os.top o), c.fit))
        go f (found z m big) mem st same =
            finish a' o' (insert_before (addr_first (os.top o)) (os.top o) fs) f st same ins.payload
              m big

    -- The branch of `malloc` that grows the heap.
    grow-Malloced :
        IsState os a o fs bs
        → required < 2 ^ 62 + 40
        → Returns Malloced (grow os required numbytes a o)
    unfolding grow
    grow-Malloced v small =
        let chunk = chunk_size required in
        let c = chunk_size-Chunk required (omega arith) in
        let process = os.sbrk-IsProcess chunk o v.process in
        let below = os.top_small o v.process in
        elim (os.sbrk_grows chunk o v.process (omega (arith, c.tight))) [
          | inl (e, kept) ↦
              let hit : ((os.sbrk chunk o).0 == minus_one) ≡ true = ground arith in
              rw hit (
                returns (
                  failed refl refl (record {
                    arena = rw kept v.arena;
                    process = process;
                    aligned = rw kept v.aligned;
                  })))
          | inr (e, grown) ↦
              let hit : ((os.sbrk chunk o).0 == minus_one) ≡ false = ground arith in
              rw hit (
                Returns-bind
                  (rw e (
                    append_list_ordered-free a (os.top (os.sbrk chunk o).1) fs bs
                      (IsArena-grow a (os.top o) (os.top (os.sbrk chunk o).1) fs bs (omega arith)
                        v.arena)
                      (os.top o) chunk
                      (omega (arith, c.aligned, c.fit, req.fit, os.top_pos o v.process, grown))
                      (λ q own. inl (IsBlock.below (v.arena.block q own))) 0))
                  λ a' ins. search_grown chunk a' (os.sbrk chunk o).1 v c process grown ins)
        ]

  -- From a well-formed state `malloc` of fewer than 2^62 bytes returns and keeps the state well
  -- formed. It gives NULL and leaves the arena as it was, or it gives the payload of a block that
  -- was not allocated before, records `numbytes` for it, and keeps the size and the bytes of every
  -- block allocated before.
  pub malloc-Malloced :
      IsState os a o fs bs → numbytes < 2 ^ 62 → Returns Malloced (malloc os numbytes a o)
  unfolding malloc
  malloc-Malloced v small = elim (Bool-cases (numbytes == 0)) [
    | inl e ↦ rw e (returns (failed refl refl v))
    | inr e ↦
        let required = required_size numbytes in
        let req = required_size-Required numbytes small in
        let linked = IsArena.free_linked v.arena in
        let fit = first_fit-Fit a.size required null a.free.head a.free.tail a fs linked.chain in
        rw (e, search_free-first_fit a required fs linked)
          (choose required req (omega (arith, req.tight)) v (first_fit a.size required fs) fit)
  ]
    where
      choose :
          (required : ℕ)
          → Required numbytes required
          → required < 2 ^ 62 + 40
          → IsState os a o fs bs
          → (f : Ptr) → Fit a.size required fs f
          → Returns Malloced (
              if f == null
              then grow os required numbytes a o
              else (carve f required numbytes a >>= λ r. ok (r.0, r.1, o)))
      choose required req less v f (missing z _) =
          let hit : (f == null) ≡ true = ground arith in rw hit (grow-Malloced required req v less)
      choose required req less v f (found z m big) =
          let hit : (f == null) ≡ false = ground arith in
          rw hit (finish required req a o fs f v (λ q k. (refl, refl)) refl m big)
