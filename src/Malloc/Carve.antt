-- ===== src/Malloc/Carve.antt =====
-- The end of `malloc` of uspace/malloc.c, where a free block becomes an allocated one.
use memory_management.Base.{
  ℕ, ◌+◌, ◌-◌, ◌%◌, ◌^◌, ◌≤◌, ◌<◌, ◌≡◌, refl, ◌∙◌, inl, inr, ◌≢◌, true, false, ◌||◌, List, arith,
  ◌==◌, leb, leb→le, Bool-cases, has, erase, insert_before, has-insert_before, update, add64, sub64,
}
use memory_management.Base.Run.{ok, Returns, returns, Returns-bind, ◌>>=◌}
use memory_management.Malloc.Links.{Ptr, null}
use memory_management.Malloc.Arena.{
  Arena, header, append_list_ordered, remove_list, addr_first, bytes_first,
}
use memory_management.Malloc.Invariant.{IsBlock, IsArena}
use memory_management.Malloc.Lists.{
  Vacant, not_owned, append_list_ordered-free, append_list_ordered-alloc,
}
use memory_management.Malloc.Detach.{remove_list-free, has-erase-free}
use memory_management.Malloc.Ops.{carve}

-- The arena after the block at `p` has been allocated for `numbytes` bytes.
pub record Carved (a : Arena) (top : ℕ) (bs : List Ptr) (p numbytes : ℕ) (r : Ptr × Arena)
    : Type 0 where
  pub fs' : List Ptr
  pub bs' : List Ptr
  pub arena : IsArena r.1 top fs' bs'
  pub result : r.0 ≡ p + header
  pub member : (q : Ptr) → has q bs' ≡ ((q == p) || has q bs)
  pub bytes : r.1.alloc_bytes p ≡ numbytes
  pub same :
      (q : Ptr) → has q bs ≡ true → (r.1.size q ≡ a.size q) × (r.1.alloc_bytes q ≡ a.alloc_bytes q)
  pub payload : r.1.payload ≡ a.payload

-- The last step: a vacant block of `n` bytes joins the allocated list.
Carved-insert :
    (a0 a : Arena) (top : ℕ) (fs bs : List Ptr) (p n numbytes : ℕ)
    → IsArena a top fs bs
    → IsBlock p n top
    → Vacant a fs bs p n
    → numbytes + header ≤ n
    → top < 2 ^ 62
    → ((q : Ptr) → has q bs ≡ true → a.size q ≡ a0.size q)
    → ((q : Ptr) → has q bs ≡ true → a.alloc_bytes q ≡ a0.alloc_bytes q)
    → a.payload ≡ a0.payload
    → Returns
        (Carved a0 top bs p numbytes)
        (append_list_ordered p n numbytes false a >>= λ a3. ok (add64 p header, a3))
Carved-insert a0 a top fs bs p n numbytes v fits vacant fit small same_size same_bytes
      same_payload =
    let out : (q : Ptr) → has q bs ≡ true → q ≢ p =
      λ q m e. ground (arith, (not_owned a top fs bs v p n fits vacant).1) in
    Returns-bind (append_list_ordered-alloc a top fs bs v p n fits vacant numbytes fit) λ b ins.
      returns (record {
        fs' = fs;
        bs' = insert_before (bytes_first (update a.alloc_bytes p numbytes) numbytes) p bs;
        arena = ins.arena;
        result = omega (arith, fits.below);
        member =
            λ q. has-insert_before (bytes_first (update a.alloc_bytes p numbytes) numbytes) p q bs;
        bytes = ground (arith, ins.alloc_bytes p);
        same = λ q m. (
          ground (arith, ins.size q, same_size q, out q),
          ground (arith, ins.alloc_bytes q, same_bytes q, out q),
        );
        payload = ins.payload ∙ same_payload;
      })

module _ (a : Arena) (top : ℕ) (fs bs : List Ptr) (v : IsArena a top fs bs) (small : top < 2 ^ 62)
    (p : Ptr) (mem : has p fs ≡ true) where
  v1 : IsArena (remove_list p true a) top (erase p fs) bs
  v1 = remove_list-free a top fs bs v p mem

  -- A part of the block that has left the free list is vacant.
  Vacant-part :
      (q n : ℕ) → p ≤ q → q + n ≤ p + a.size p → Vacant (remove_list p true a) (erase p fs) bs q n
  unfolding remove_list
  Vacant-part q n lo hi r own =
      ground (arith, v.apart r p, has-erase-free a top fs bs v p r, v.shared p mem)

  -- The case with a rest of at least a header.
  carve_split :
      (required numbytes : ℕ)
      → required % 8 ≡ 0
      → numbytes + header ≤ required
      → header ≤ a.size p - required
      → Returns (Carved a top bs p numbytes) (
          append_list_ordered (p + required) (a.size p - required) 0 true (remove_list p true a)
          >>= λ a2.
              append_list_ordered p required numbytes false a2 >>= λ a3. ok (add64 p header, a3))
  unfolding remove_list
  carve_split required numbytes aligned fit more =
      let b = v.block p (ground arith) in
      let rest = a.size p - required in
      Returns-bind
        (append_list_ordered-free (remove_list p true a) top (erase p fs) bs v1 (p + required) rest
          (omega arith) (Vacant-part (p + required) rest (omega arith) (omega arith)) 0)
        λ a2 ins.
          let old = Vacant-part p required (omega arith) (omega arith) in
          let member = λ (q : Ptr).
            has-insert_before (addr_first (p + required)) (p + required) q (erase p fs) in
          let vacant : Vacant a2
              (insert_before (addr_first (p + required)) (p + required) (erase p fs)) bs p
              required =
            λ q own. ground (arith, member q, ins.size q, old q) in
          let apart =
            (not_owned (remove_list p true a) top (erase p fs) bs v1 (p + required) rest
              (omega arith) (Vacant-part (p + required) rest (omega arith) (omega arith))).1 in
          Carved-insert a a2 top _ bs p required numbytes ins.arena (omega arith) vacant fit small
            (λ q m. ground (arith, ins.size q, apart)) (λ q m. ins.alloc_bytes q) ins.payload

  pub carve-Carved :
      (required numbytes : ℕ)
      → required % 8 ≡ 0
      → numbytes + header ≤ required
      → required ≤ a.size p
      → Returns (Carved a top bs p numbytes) (carve p required numbytes a)
  unfolding carve remove_list
  carve-Carved required numbytes aligned fit enough =
      let b = v.block p (ground arith) in
      let p_ne : (p == null) ≡ false = ground arith in
      let rest_eq : sub64 (a.size p) required ≡ a.size p - required = omega (arith, b.below) in
      let at_eq : add64 p required ≡ p + required = omega (arith, b.below) in
      elim (Bool-cases (leb header (sub64 (a.size p) required))) [
        | inl e ↦
            rw (p_ne, e, rest_eq, at_eq)
              (carve_split required numbytes aligned fit (omega (arith, rest_eq, leb→le _ _ e)))
        | inr e ↦
            rw (p_ne, e)
              (Carved-insert a (remove_list p true a) top (erase p fs) bs p (a.size p) numbytes v1 b
                (Vacant-part p (a.size p) (omega arith) (omega arith)) (omega arith) small
                (λ q m. refl) (λ q m. refl) refl)
      ]
