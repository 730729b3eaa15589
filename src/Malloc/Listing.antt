-- ===== src/Malloc/Listing.antt =====
-- About the arrays that heap_info of uspace/malloc.c leaves: what they list.
use memory_management.Base.{
  ℕ, ◌+◌, ◌*◌, ◌^◌, ◌≤◌, ◌<◌, ◌≡◌, ◌≢◌, ◌⊎◌, Distinct, ap, refl, ◌∙◌, sym, true, false, ◌||◌, List,
  [], ◌∷◌, length, arith, ◌==◌, has,
}
use memory_management.Base.Ordered.{Ordered-weaken}
use memory_management.Clib.Memory.{Memory}
use memory_management.Malloc.Chain.{Chain-Distinct}
use memory_management.Malloc.Entries.{
  Lists, Off, store_entries, store_entries-kept, store_entries-Lists,
}
use memory_management.Malloc.Links.{Ptr, null}
use memory_management.Malloc.Arena.{Arena, header}
use memory_management.Malloc.Invariant.{IsArena, Descending}
use memory_management.Malloc.Ops.{HeapInfo}
use memory_management.Malloc.Info.{others, has-others, length-others, Ordered-others}

Lists-same :
    (sa pa i : ℕ) (f g : ℕ → ℕ) (xs : List ℕ) (m : Memory)
    → ((q : ℕ) → has q xs ≡ true → f q ≡ g q)
    → Lists sa pa i f xs m
    → Lists sa pa i g xs m
unfolding Lists
Lists-same sa pa i f g [] m same l = tt
Lists-same sa pa i f g (x ∷ xs) m same l = (
  l.0 ∙ same x (ground arith),
  l.1,
  Lists-same sa pa (i + 1) f g xs m (λ q t. same q (ground arith)) l.2,
)

-- An array of `n` entries of 8 bytes that is a block of its own.
pub record Array (b : Arena) (bs bs' : List Ptr) (array n : ℕ) : Type 0 where
  pub block : Ptr
  pub place : array ≡ block + header
  pub new : has block bs ≡ false
  pub held : has block bs' ≡ true
  pub bytes : b.alloc_bytes block ≡ n * 8

-- The arrays of `info` in the arena `b` list the blocks `bs` of the arena `a`, the one of the largest
-- allocation first: what was asked for, and the payload. No byte outside the arrays has changed.
pub record Listing (a b : Arena) (bs bs' : List Ptr) (info : HeapInfo) : Type 0 where
  pub blocks : List Ptr
  pub same : (q : Ptr) → has q blocks ≡ has q bs
  pub ordered : Descending a.alloc_bytes blocks
  pub room : length blocks ≤ length bs
  pub size_array : Array b bs bs' info.size_array (length bs)
  pub ptr_array : Array b bs bs' info.ptr_array (length bs)
  pub apart :
      (info.size_array + 8 * length bs ≤ info.ptr_array)
      ⊎ (info.ptr_array + 8 * length bs ≤ info.size_array)
  pub entries : Lists info.size_array info.ptr_array 0 a.alloc_bytes blocks b.payload
  pub kept :
      (x : ℕ)
      → Off info.size_array 0 (length bs) x
      → Off info.ptr_array 0 (length bs) x
      → b.payload x ≡ a.payload x

module _ (a : Arena) (bs : List Ptr) (info : HeapInfo) where
  abbrev pub slots : ℕ
  slots = length bs

  -- The entries, with both arrays there: the blocks `p1` and `p2` are left out.
  pub listing :
      (p1 p2 : Ptr) (b : Arena) (top : ℕ) (fs2 bs1 bs2 : List Ptr)
      → IsArena b top fs2 bs2
      → top < 2 ^ 62
      → has p1 bs ≡ false
      → has p2 bs1 ≡ false
      → ((q : Ptr) → has q bs1 ≡ ((q == p1) || has q bs))
      → ((q : Ptr) → has q bs2 ≡ ((q == p2) || has q bs1))
      → ((q : Ptr) → has q bs ≡ true → b.alloc_bytes q ≡ a.alloc_bytes q)
      → b.alloc_bytes p1 ≡ slots * 8
      → b.alloc_bytes p2 ≡ slots * 8
      → b.payload ≡ a.payload
      → Distinct bs
      → let sa = p1 + header in
        let pa = p2 + header in
        Listing a
          (record b { payload = store_entries sa pa 0 b.alloc_bytes (others p1 p2 bs2) b.payload })
          bs
          bs2
          (record info { size_array = sa; ptr_array = pa })
  listing p1 p2 b top fs2 bs1 bs2 v low new new' members members' kept bytes1 bytes2 payload
        distinct =
      let sa = p1 + header in
      let pa = p2 + header in
      let rest = others p1 p2 bs2 in
      let same : (q : Ptr) → has q rest ≡ has q bs =
        λ q. ground (arith, has-others p1 p2 q bs2, members q, members' q, new, new') in
      let bytes : (q : Ptr) → has q rest ≡ true → b.alloc_bytes q ≡ a.alloc_bytes q =
        λ q m. kept q (sym (same q) ∙ m) in
      let mem1 : has p1 bs2 ≡ true = ground (arith, members p1, members' p1) in
      let mem2 : has p2 bs2 ≡ true = ground (arith, members' p2) in
      let differ : p1 ≢ p2 = ground (arith, members p1, new') in
      let gap = v.apart p1 p2 (ground arith) (ground arith) differ in
      let apart : (sa + 8 * slots ≤ pa) ⊎ (pa + 8 * slots ≤ sa) =
        omega (arith, gap, v.room p1 mem1, v.room p2 mem2, bytes1, bytes2) in
      let room : length rest ≤ slots =
        length-others p1 p2 bs2 bs
          (Chain-Distinct b.links null b.alloc.head b.alloc.tail bs2 v.alloc_linked.chain) distinct
          (λ q m. sym (same q) ∙ m) in
      record {
        blocks = rest;
        same = same;
        ordered =
            Ordered-weaken rest (λ x y m k h. omega (arith, bytes x m, bytes y k, h))
              (Ordered-others (λ x y. b.alloc_bytes y ≤ b.alloc_bytes x) p1 p2 bs2 v.descending);
        room = room;
        size_array = record { block = p1; place = refl; new = new; held = mem1; bytes = bytes1 };
        ptr_array = record {
          block = p2;
          place = refl;
          new = ground (arith, members p2, new');
          held = mem2;
          bytes = bytes2;
        };
        apart = apart;
        entries = Lists-same sa pa 0 b.alloc_bytes a.alloc_bytes rest _ bytes (
            store_entries-Lists sa pa slots b.alloc_bytes apart 0 rest b.payload
              (omega (arith, room))
              (λ q m.
                let here : has q bs2 ≡ true = ground (arith, has-others p1 p2 q bs2, m) in
                let block = v.block q (ground arith) in
                (omega (arith, block, v.room q here), omega (arith, block))));
        kept = λ x off off'.
            store_entries-kept sa pa slots b.alloc_bytes apart 0 rest b.payload x
              (omega (arith, room)) off off'
            ∙ ap (λ (g : Memory). g x) payload;
      }
