-- ===== src/Malloc/Realloc.antt =====
-- About `realloc` of uspace/malloc.c: the three calls that it is, and the bytes it copies.
use memory_management.Base.{
  ℕ, ◌+◌, ◌-◌, ◌^◌, ◌<◌, ◌≡◌, refl, ap, ◌≢◌, true, false, ◌||◌, ◌&&◌, not, List, arith, ◌==◌, ltb,
  if◌then◌else◌, has, erase, sub64, ◌∙◌,
}
use memory_management.Base.Run.{ok, Returns, returns, Returns-bind, ◌>>=◌}
use memory_management.Clib.Memory.{Memory, memcpy}
use memory_management.Clib.Copy.{in_range, copied, memcpy_lem}
use memory_management.Malloc.Links.{Ptr, null}
use memory_management.Malloc.Arena.{Arena, header}
use memory_management.Malloc.Ops.{Breaks, malloc, free, realloc}
use memory_management.Malloc.Detach.{IsArena-payload, has-erase-alloc}
use memory_management.Malloc.Free.{free-Freed}
use memory_management.Malloc.Allocate.{IsState, Malloced, failed, got, malloc-Malloced}

module _ (os : Breaks) (a : Arena) (o : os.Os) where
  -- `realloc(NULL, sz)` is `malloc(sz)`.
  realloc-null : (sz : ℕ) → realloc os null sz a o ≡ malloc os sz a o
  unfolding realloc
  realloc-null sz = refl

  module _ (fs bs : List Ptr) (p sz : ℕ) where
    -- How `realloc` of the block at `p` ends: NULL and an unchanged arena, or a new block in its
    -- place, which starts with the bytes of the old one; no other byte has changed.
    pub data Realloced (r : Ptr × Arena × os.Os) : Type 0 where
      refused : r.0 ≡ null → r.1 ≡ a → IsState os (r.1) (r.2) fs bs → Realloced r
      moved :
          (q : Ptr) (fs' bs' : List Ptr)
          → has q bs ≡ false
          → r.0 ≡ q + header
          → r.1.alloc_bytes q ≡ sz
          → ((x : Ptr) → has x bs' ≡ (not (x == p) && ((x == q) || has x bs)))
          → ((i : ℕ)
              → i < sz
              → i < a.alloc_bytes p
              → r.1.payload (r.0 + i) ≡ a.payload (p + header + i))
          → ((x : ℕ) → in_range r.0 sz x ≡ false → r.1.payload x ≡ a.payload x)
          → IsState os (r.1) (r.2) fs' bs'
          → Realloced r

    -- `newsize`
    abbrev kept : Arena → ℕ
    kept b = if ltb (b.size p) sz then b.size p else sz

    move :
        (r : Ptr × Arena × os.Os)
        → IsState os a o fs bs
        → has p bs ≡ true
        → Malloced os a o fs bs sz r
        → Returns Realloced (
            if r.0 == null
            then ok (null, r.1, r.2)
            else (free
                  (p + header)
                  (record r.1 { payload = memcpy r.0 (p + header) (kept r.1) r.1.payload })
                >>= λ a'. ok (r.0, a', r.2)))
    move r v mem (failed z same w) =
        let hit : (r.0 == null) ≡ true = ground arith in rw hit (returns (refused refl same w))
    move r v mem (got q new c w) =
        let hit : (r.0 == null) ≡ false = ground (arith, c.result) in
        let n = kept r.1 in
        let m = memcpy r.0 (p + header) n r.1.payload in
        let b : Arena = record r.1 { payload = m } in
        let arena = IsArena-payload r.1 (os.top r.2) c.fs' c.bs' m w.arena in
        let old : has p c.bs' ≡ true = ground (arith, c.member p) in
        let same = c.same p mem in
        let room = v.arena.room p mem in
        let ne : p ≢ q = ground arith in
        let apart = w.arena.apart p q (ground arith) (ground (arith, c.member q)) ne in
        let byte : (x : ℕ) → m x ≡ copied r.0 (p + header) n r.1.payload x =
          λ x. memcpy_lem r.0 (p + header) n r.1.payload x (ground (arith, c.result, apart)) in
        rw hit (
          Returns-bind
            (free-Freed b (os.top r.2) c.fs' c.bs' arena (os.top_small r.2 w.process) p old)
            λ b' f. returns (
              moved q _ (erase p c.bs') new c.result (f.alloc_bytes q ∙ c.bytes)
                (λ x.
                  ground (arith, has-erase-alloc b (os.top r.2) c.fs' c.bs' arena p x, c.member x))
                (λ i h k.
                  let inside : in_range r.0 n (r.0 + i) ≡ true = ground (arith, same.0) in
                  let at : r.0 + i - r.0 ≡ i = omega arith in
                  ap (λ (g : Memory). g (r.0 + i)) f.payload
                  ∙ byte (r.0 + i)
                  ∙ rw (inside, at) (ap (λ (g : Memory). g (p + header + i)) c.payload))
                (λ x out.
                  let beyond : in_range r.0 n x ≡ false = ground arith in
                  ap (λ (g : Memory). g x) f.payload
                  ∙ byte x
                  ∙ rw beyond (ap (λ (g : Memory). g x) c.payload))
                (record { arena = f.arena; process = w.process; aligned = w.aligned })))

    -- From a well-formed state `realloc` of an allocated block to a size above 0 and below 2^62
    -- returns NULL and leaves the arena as it was, or it returns a new block of that size in place
    -- of the old one, which starts with the bytes of the old one up to the smaller of `sz` and the
    -- old block's `alloc_bytes`; no byte outside the new block changes, and the state stays well
    -- formed. What the code copies from behind the old block's bytes is not stated.
    pub realloc-Realloced :
        IsState os a o fs bs
        → has p bs ≡ true
        → 0 < sz
        → sz < 2 ^ 62
        → Returns Realloced (realloc os (p + header) sz a o)
    unfolding realloc
    realloc-Realloced v mem pos small =
        let b = v.arena.block p (ground arith) in
        let below = os.top_small o v.process in
        let ne : ((p + header) == null) ≡ false = ground arith in
        let some_bytes : (sz == 0) ≡ false = ground arith in
        let at_eq : sub64 (p + header) header ≡ p = omega (arith, b.below) in
        rw (ne, some_bytes, at_eq)
          (Returns-bind (malloc-Malloced os a o fs bs sz v small) λ r w. move r v mem w)
