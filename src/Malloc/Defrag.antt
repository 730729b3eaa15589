-- ===== src/Malloc/Defrag.antt =====
-- About `defrag` of uspace/malloc.c, which joins neighbouring free blocks.
use mathlib.Core.Path.{subst}
use mathlib.Core.List.{append_assoc}
use memory_management.Base.{
  ℕ, zero, suc, ◌+◌, ◌%◌, ◌^◌, ◌<◌, ◌≡◌, refl, sym, ◌∙◌, ◌≢◌, inl, inr, true, false, Option, some,
  List, [], ◌∷◌, ◌++◌, arith, ◌==◌, eq_of_==, ne_of_==, update, Bool-cases, has, erase, length,
  word, sub64,
}
use memory_management.Base.Run.{Returns, returns}
use memory_management.Malloc.Links.{Ptr, null}
use memory_management.Malloc.Chain.{Chain-Distinct}
use memory_management.Malloc.Suffix.{
  Ordered-not-has, Chain-suffix, Ordered-suffix, has-suffix, erase-second,
}
use memory_management.Malloc.Arena.{Arena, remove_list, of_option}
use memory_management.Malloc.Invariant.{IsBlock, Disjoint, Owned, IsArena}
use memory_management.Malloc.Detach.{remove_list-free, has-erase-free}
use memory_management.Malloc.Ops.{defrag, defrag_loop}

-- The bytes of the blocks.
abbrev pub total : (Ptr → ℕ) → List Ptr → ℕ
total size [] = 0
total size (x ∷ xs) = size x + total size xs

-- No block ends where the next one begins.
abbrev Separated : (Ptr → ℕ) → List Ptr → Type 0
Separated size [] = Unit
Separated size (x ∷ []) = Unit
Separated size (x ∷ y ∷ ys) = (x + size x ≢ y) × Separated size (y ∷ ys)

update_here : (s : Ptr → ℕ) (p n : ℕ) → update s p n p ≡ n
update_here s p n = ground arith

total-same :
    (s s' : Ptr → ℕ) (xs : List Ptr)
    → ((q : Ptr) → has q xs ≡ true → s q ≡ s' q)
    → total s xs ≡ total s' xs
total-same s s' [] h = refl
total-same s s' (x ∷ xs) h =
    omega (arith, h x (ground arith), total-same s s' xs (λ q m. h q (ground arith)))

-- A free block may take in vacant bytes behind it.
IsArena-resize :
    (a : Arena) (top : ℕ) (fs bs : List Ptr) (p n : ℕ)
    → IsArena a top fs bs
    → has p fs ≡ true
    → IsBlock p n top
    → ((r : Ptr) → Owned fs bs r → r ≢ p → Disjoint r (a.size r) p n)
    → IsArena (record a { size = update a.size p n }) top fs bs
IsArena-resize a top fs bs p n v mem fits vacant = record {
  free_linked = v.free_linked;
  alloc_linked = v.alloc_linked;
  shared = v.shared;
  block = λ q m. ground (arith, v.block q m, fits);
  apart = λ q r m k ne. ground (arith, v.apart q r m k ne, vacant q m, vacant r k);
  ascending = v.ascending;
  descending = v.descending;
  room = λ q m. ground (arith, v.room q m, v.shared p mem);
}

module _ (a : Arena) (top : ℕ) (bs pre : List Ptr) (p1 : Ptr) where
  -- What the loop returns, started at `p1` with `rest` behind it: nothing but the sizes and the
  -- links of `p1` and `rest` has changed.
  record Defragged (rest : List Ptr) (r : Option Arena) : Type 0 where
    pub after : Arena
    pub rest' : List Ptr
    pub result : r ≡ some after
    pub arena : IsArena after top (pre ++ p1 ∷ rest') bs
    pub separated : Separated after.size (p1 ∷ rest')
    pub conserved : total after.size (p1 ∷ rest') ≡ total a.size (p1 ∷ rest)
    pub same : (q : Ptr) → has q (p1 ∷ rest) ≡ false → after.size q ≡ a.size q
    pub alloc_bytes : after.alloc_bytes ≡ a.alloc_bytes
    pub payload : after.payload ≡ a.payload

-- `p1->size += p2->size; remove_list(p2, 1)`
abbrev joined : Arena → Ptr → Ptr → Arena
joined a p1 p2 =
    remove_list p2 true (record a { size = update a.size p1 ((a.size p1 + a.size p2) % word) })

module _ (a : Arena) (top : ℕ) (bs pre : List Ptr) (p1 y : Ptr) (ys : List Ptr)
    (v : IsArena a top (pre ++ p1 ∷ y ∷ ys) bs) (small : top < 2 ^ 62) where
  next_eq : a.links.next p1 ≡ y
  next_eq =
      let c = v.free_linked.chain in
      (Chain-suffix pre a.links null a.free.head a.free.tail p1 (y ∷ ys) c).1.4.0

  after_first : p1 < y
  after_first = (Ordered-suffix ◌<◌ pre (p1 ∷ y ∷ ys) v.ascending).0 y (ground arith)

  first_mem : has p1 (pre ++ p1 ∷ y ∷ ys) ≡ true
  first_mem = has-suffix pre (p1 ∷ y ∷ ys) p1 (ground arith)

  second_mem : has y (pre ++ p1 ∷ y ∷ ys) ≡ true
  second_mem = has-suffix pre (p1 ∷ y ∷ ys) y (ground arith)

  IsArena-joined : y ≡ p1 + a.size p1 → IsArena (joined a p1 y) top (pre ++ p1 ∷ ys) bs
  unfolding remove_list
  IsArena-joined touch =
      let fs = pre ++ p1 ∷ y ∷ ys in
      let c = v.free_linked.chain in
      let d = Chain-Distinct a.links null a.free.head a.free.tail fs c in
      let b1 = v.block p1 (ground (arith, first_mem)) in
      let b2 = v.block y (ground (arith, second_mem)) in
      let left = remove_list-free a top fs bs v y second_mem in
      let member = λ (q : Ptr). has-erase-free a top fs bs v y q in
      let sum : (a.size p1 + a.size y) % word ≡ a.size p1 + a.size y = omega arith in
      let wide =
        IsArena-resize (remove_list y true a) top (erase y fs) bs p1 ((a.size p1 + a.size y) % word)
          left (ground (arith, member p1, first_mem, after_first)) (rw sum (omega (arith, touch)))
          (λ r own ne. ground (
            arith,
            sum,
            member r,
            v.shared y second_mem,
            first_mem,
            second_mem,
            v.apart r p1,
            v.apart r y,
            v.block r,
          )) in
      subst (λ xs. IsArena (joined a p1 y) top xs bs) (erase-second pre p1 y ys d) wide

  first_new : has p1 (y ∷ ys) ≡ false
  first_new =
      ground
        (arith, Ordered-not-has p1 (y ∷ ys) (Ordered-suffix ◌<◌ pre (p1 ∷ y ∷ ys) v.ascending).0)

  second_new : has y ys ≡ false
  second_new = Ordered-not-has y ys (Ordered-suffix ◌<◌ pre (p1 ∷ y ∷ ys) v.ascending).1.0

  -- The two ways round the loop.
  join-Defragged :
      y ≡ p1 + a.size p1
      → (r : Option Arena) → Defragged (joined a p1 y) top bs pre p1 ys r
      → Defragged a top bs pre p1 (y ∷ ys) r
  unfolding remove_list
  join-Defragged touch r d =
      let b1 = v.block p1 (ground (arith, first_mem)) in
      let b2 = v.block y (ground (arith, second_mem)) in
      let here : (joined a p1 y).size p1 ≡ a.size p1 + a.size y =
        update_here a.size p1 _ ∙ omega arith in
      let others = total-same (joined a p1 y).size a.size ys (λ q m. ground (arith, first_new)) in
      record {
        after = d.after;
        rest' = d.rest';
        result = d.result;
        arena = d.arena;
        separated = d.separated;
        conserved = omega (arith, d.conserved, others, here);
        same = λ q m. d.same q (ground arith) ∙ ground arith;
        alloc_bytes = d.alloc_bytes;
        payload = d.payload;
      }

  step-Defragged :
      p1 + a.size p1 ≢ y
      → (r : Option Arena) → Defragged a top bs (pre ++ p1 ∷ []) y ys r
      → Defragged a top bs pre p1 (y ∷ ys) r
  step-Defragged apart r d =
      let same = d.same p1 first_new in
      record {
        after = d.after;
        rest' = y ∷ d.rest';
        result = d.result;
        arena =
            subst (λ xs. IsArena d.after top xs bs) (append_assoc pre (p1 ∷ []) (y ∷ d.rest'))
              d.arena;
        separated = (rw same apart, d.separated);
        conserved = omega (arith, same, d.conserved);
        same = λ q m. d.same q (ground arith);
        alloc_bytes = d.alloc_bytes;
        payload = d.payload;
      }

defrag_loop-Defragged :
    (fuel : ℕ) (a : Arena) (top : ℕ) (bs pre : List Ptr) (p1 p2 : Ptr) (rest : List Ptr)
    → IsArena a top (pre ++ p1 ∷ rest) bs
    → top < 2 ^ 62
    → p2 ≡ a.links.next p1
    → length rest < fuel
    → Defragged a top bs pre p1 rest (defrag_loop fuel p1 p2 a)
unfolding defrag_loop
defrag_loop-Defragged zero a top bs pre p1 p2 rest v small e2 fuel = absurd (omega arith)
defrag_loop-Defragged (suc k) a top bs pre p1 p2 [] v small e2 fuel =
    let c = v.free_linked.chain in
    let last : (p2 == null) ≡ true =
      ground (arith, (Chain-suffix pre a.links null a.free.head a.free.tail p1 [] c).1.4.0) in
    rw last (record {
      after = a;
      rest' = [];
      result = refl;
      arena = v;
      separated = tt;
      conserved = refl;
      same = λ q m. refl;
      alloc_bytes = refl;
      payload = refl;
    })
defrag_loop-Defragged (suc k) a top bs pre p1 p2 (y ∷ ys) v small e2 fuel =
    let p2_eq : p2 ≡ y = e2 ∙ next_eq a top bs pre p1 y ys v small in
    let b1 = v.block p1 (ground (arith, first_mem a top bs pre p1 y ys v small)) in
    let b2 = v.block y (ground (arith, second_mem a top bs pre p1 y ys v small)) in
    let y_ne : (y == null) ≡ false = ground arith in
    let lt = after_first a top bs pre p1 y ys v small in
    elim (Bool-cases (sub64 y p1 == a.size p1)) [
      | inl e ↦
          let touch : y ≡ p1 + a.size p1 = omega (arith, eq_of_== _ _ e) in
          let arena = IsArena-joined a top bs pre p1 y ys v small touch in
          rw (p2_eq, y_ne, e)
            (join-Defragged a top bs pre p1 y ys v small touch _ (
              defrag_loop-Defragged k (joined a p1 y) top bs pre p1 ((joined a p1 y).links.next p1)
                ys arena small refl (omega arith)))
      | inr e ↦
          let apart : p1 + a.size p1 ≢ y = λ h. ne_of_== _ _ e (omega arith) in
          let assoc = append_assoc pre (p1 ∷ []) (y ∷ ys) in
          let shifted : IsArena a top ((pre ++ p1 ∷ []) ++ y ∷ ys) bs =
            subst (λ xs. IsArena a top xs bs) (sym assoc) v in
          rw (p2_eq, y_ne, e)
            (step-Defragged a top bs pre p1 y ys v small apart _ (
              defrag_loop-Defragged k a top bs (pre ++ p1 ∷ []) y (a.links.next y) ys shifted small
                refl (omega arith)))
    ]

-- What `defrag` leaves.
pub record Compact (a : Arena) (top : ℕ) (fs bs : List Ptr) (b : Arena) : Type 0 where
  pub fs' : List Ptr
  pub arena : IsArena b top fs' bs
  pub separated : Separated b.size fs'
  pub conserved : total b.size fs' ≡ total a.size fs
  pub same : (q : Ptr) → has q bs ≡ true → b.size q ≡ a.size q
  pub alloc_bytes : b.alloc_bytes ≡ a.alloc_bytes
  pub payload : b.payload ≡ a.payload

-- From a well-formed arena below 2^62 `defrag` returns and keeps the invariant, the allocated
-- blocks and every payload, leaves no two free blocks that touch, and the sizes of the free blocks
-- sum up to what they did before.
pub defrag-Compact :
    (a : Arena) (top : ℕ) (fs bs : List Ptr)
    → IsArena a top fs bs
    → top < 2 ^ 62
    → Returns (Compact a top fs bs) (defrag a)
unfolding defrag
defrag-Compact a top [] bs v small =
    let hit : (a.free.head == null) ≡ true = ground (arith, v.free_linked.chain) in
    rw hit (
      returns (record {
        fs' = [];
        arena = v;
        separated = tt;
        conserved = refl;
        same = λ q m. refl;
        alloc_bytes = refl;
        payload = refl;
      }))
defrag-Compact a top (x ∷ xs) bs v small =
    let c = v.free_linked.chain in
    let hit : (a.free.head == null) ≡ false = ground arith in
    let d =
      defrag_loop-Defragged (a.free.count + 1) a top bs [] x (a.links.next x) xs v small refl
        (omega (arith, v.free_linked.count)) in
    rw hit (
      subst
        (λ h.
          Returns (Compact a top (x ∷ xs) bs)
            (of_option (defrag_loop (a.free.count + 1) h (a.links.next h) a)))
        (sym c.0)
        (rw d.result (
          returns (record {
            fs' = x ∷ d.rest';
            arena = d.arena;
            separated = d.separated;
            conserved = d.conserved;
            same = λ q m. d.same q (ground (arith, v.shared q));
            alloc_bytes = d.alloc_bytes;
            payload = d.payload;
          }))))
