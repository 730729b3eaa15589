-- ===== src/Malloc/Lists.antt =====
-- About `append_list_ordered` of uspace/malloc.c on a well-formed heap.
use memory_management.Base.{
  ℕ, ◌+◌, ◌≤◌, ◌<◌, ◌≡◌, ◌≢◌, refl, ◌⊎◌, true, false, not, ◌&&◌, List, arith, update, has,
  insert_before, has-insert_before,
}
use memory_management.Base.Run.{Returns, returns}
use memory_management.Base.Ordered.{Ordered-weaken, Ordered-insert_before}
use memory_management.Malloc.Links.{Ptr, null, Links, Ends}
use memory_management.Malloc.Chain.{Chain-frame}
use memory_management.Malloc.Arena.{
  Arena, header, append_list_ordered, addr_first, addr_between, bytes_first, bytes_between,
}
use memory_management.Malloc.Insert.{IsLinked, SameLinks, link_ordered-LinkedOrdered}
use memory_management.Malloc.Invariant.{IsBlock, Disjoint, Owned, IsArena}

-- A chain of other nodes survives an insertion.
IsLinked-same :
    (node : Ptr) (xs ys : List Ptr) (l l' : Links) (e : Ends)
    → SameLinks node xs l l'
    → has node ys ≡ false
    → ((q : Ptr) → has q ys ≡ true → has q xs ≡ false)
    → IsLinked l e ys
    → IsLinked l' e ys
IsLinked-same node xs ys l l' e same out apart v = record {
  chain =
      Chain-frame l l' null e.head e.tail ys v.chain λ q m. same q (λ eq. ground arith) (apart q m);
  count = v.count;
}

-- The bytes `[node, node + n)` belong to no block.
abbrev pub Vacant : Arena → (fs bs : List Ptr) → (node n : ℕ) → Type 0
Vacant a fs bs node n = (q : Ptr) → Owned fs bs q → Disjoint q (a.size q) node n

-- An arena in which `node` has joined the free list.
pub record FreeInserted (a : Arena) (top : ℕ) (fs bs : List Ptr) (node n : ℕ) (b : Arena)
    : Type 0 where
  pub arena : IsArena b top (insert_before (addr_first node) node fs) bs
  pub size : (q : Ptr) → b.size q ≡ update a.size node n q
  pub alloc_bytes : (q : Ptr) → b.alloc_bytes q ≡ a.alloc_bytes q
  pub payload : b.payload ≡ a.payload

pub record AllocInserted (a : Arena) (top : ℕ) (fs bs : List Ptr) (node n bytes : ℕ) (b : Arena)
    : Type 0 where
  pub arena :
      IsArena b top fs (insert_before (bytes_first (update a.alloc_bytes node bytes) bytes) node bs)
  pub size : (q : Ptr) → b.size q ≡ update a.size node n q
  pub alloc_bytes : (q : Ptr) → b.alloc_bytes q ≡ update a.alloc_bytes node bytes q
  pub payload : b.payload ≡ a.payload

addr_agree :
    (node x y : Ptr) → addr_between node x y ≡ (not (addr_first node x) && addr_first node y)
addr_agree node x y = ground arith

bytes_agree :
    (key : Ptr → ℕ) (bytes : ℕ) (x y : Ptr)
    → bytes_between key bytes x y ≡ (not (bytes_first key bytes x) && bytes_first key bytes y)
bytes_agree key bytes x y = ground arith

module _ (a : Arena) (top : ℕ) (fs bs : List Ptr) (v : IsArena a top fs bs) (node n : ℕ)
    (fits : IsBlock node n top) (vacant : Vacant a fs bs node n) where
  -- A vacant address is no block's.
  pub not_owned : (has node fs ≡ false) × (has node bs ≡ false)
  not_owned = (ground (arith, v.block node, vacant node), ground (arith, v.block node, vacant node))

  node_ne : node ≢ null
  node_ne = ground (arith, fits)

  IsBlock-update : (q : Ptr) → (q ≡ node) ⊎ Owned fs bs q → IsBlock q (update a.size node n q) top
  IsBlock-update q h = ground (arith, v.block q, fits)

  apart_update :
      (q r : Ptr)
      → (q ≡ node) ⊎ Owned fs bs q
      → (r ≡ node) ⊎ Owned fs bs r
      → q ≢ r
      → Disjoint q (update a.size node n q) r (update a.size node n r)
  apart_update q r h k ne = ground (arith, v.apart q r, vacant q, vacant r)

  free_inserted :
      (l : Links) (e : Ends)
      → IsLinked l e (insert_before (addr_first node) node fs)
      → SameLinks node fs a.links l
      → FreeInserted a top fs bs node n
          (record a { size = update a.size node n; links = l; free = e })
  free_inserted l e linked same =
      let test = addr_first node in
      let member = λ (q : Ptr). has-insert_before test node q fs in
      record {
        arena = record {
          free_linked = linked;
          alloc_linked =
              IsLinked-same node fs bs a.links l a.alloc same not_owned.1
                (λ q m. ground (arith, v.shared q)) v.alloc_linked;
          shared = λ q m. ground (arith, member q, v.shared q, not_owned);
          block = λ q m. IsBlock-update q (ground (arith, member q));
          apart = λ q r m k ne.
              apart_update q r (ground (arith, member q)) (ground (arith, member r)) ne;
          ascending =
              Ordered-insert_before ◌<◌ test node fs (λ x y z h k. omega arith)
                (λ x m t. ground arith) (λ x m t. ground (arith, not_owned)) v.ascending;
          descending = v.descending;
          room = λ q m. ground (arith, v.room q m, not_owned);
        };
        size = λ q. refl;
        alloc_bytes = λ q. refl;
        payload = refl;
      }

  -- On a well-formed heap, adding a block of vacant bytes to the free list returns, keeps the
  -- invariant, puts the block before the first free block of a higher address, and keeps the size
  -- and the `alloc_bytes` of all other blocks and the payload.
  pub append_list_ordered-free :
      (bytes : ℕ)
      → Returns (FreeInserted a top fs bs node n) (append_list_ordered node n bytes true a)
  unfolding append_list_ordered
  append_list_ordered-free bytes =
      let r =
        link_ordered-LinkedOrdered (addr_first node) (addr_between node) (addr_agree node) node
          node_ne a.links a.free fs v.free_linked not_owned.0 in
      rw r.result (returns (free_inserted r.links r.ends r.linked r.same))

  alloc_inserted :
      (bytes : ℕ) (l : Links) (e : Ends)
      → bytes + header ≤ n
      → let key = update a.alloc_bytes node bytes in
        IsLinked l e (insert_before (bytes_first key bytes) node bs)
        → SameLinks node bs a.links l
        → AllocInserted a top fs bs node n bytes (record a {
          size = update a.size node n;
          alloc_bytes = update a.alloc_bytes node bytes;
          links = l;
          alloc = e;
        })
  alloc_inserted bytes l e fit linked same =
      let key = update a.alloc_bytes node bytes in
      let test = bytes_first key bytes in
      let member = λ (q : Ptr). has-insert_before test node q bs in
      record {
        arena = record {
          free_linked =
              IsLinked-same node bs fs a.links l a.free same not_owned.0 (λ q m. v.shared q m)
                v.free_linked;
          alloc_linked = linked;
          shared = λ q m. ground (arith, member q, v.shared q, not_owned);
          block = λ q m. IsBlock-update q (ground (arith, member q));
          apart = λ q r m k ne.
              apart_update q r (ground (arith, member q)) (ground (arith, member r)) ne;
          ascending = v.ascending;
          descending =
              Ordered-insert_before (λ x y. key y ≤ key x) test node bs (λ x y z h k. omega arith)
                (λ x m t. ground arith) (λ x m t. ground (arith, not_owned))
                (Ordered-weaken bs (λ x y h k r. ground (arith, not_owned)) v.descending);
          room = λ q m. ground (arith, member q, v.room q, not_owned);
        };
        size = λ q. refl;
        alloc_bytes = λ q. refl;
        payload = refl;
      }

  -- On a well-formed heap, adding a block of vacant bytes to the allocated list, with room for
  -- `bytes` behind its header, returns, keeps the invariant, puts the block before the first one with
  -- fewer bytes, and keeps the size and the `alloc_bytes` of all other blocks and the payload.
  pub append_list_ordered-alloc :
      (bytes : ℕ)
      → bytes + header ≤ n
      → Returns (AllocInserted a top fs bs node n bytes) (append_list_ordered node n bytes false a)
  unfolding append_list_ordered
  append_list_ordered-alloc bytes fit =
      let key = update a.alloc_bytes node bytes in
      let r =
        link_ordered-LinkedOrdered (bytes_first key bytes) (bytes_between key bytes)
          (bytes_agree key bytes) node node_ne a.links a.alloc bs v.alloc_linked not_owned.1 in
      rw r.result (returns (alloc_inserted bytes r.links r.ends fit r.linked r.same))
