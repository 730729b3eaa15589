-- ===== src/Malloc/Detach.antt =====
-- About `remove_list` of uspace/malloc.c on a well-formed heap.
use memory_management.Base.{
  ℕ, ◌≤◌, ◌<◌, ◌≡◌, true, false, not, ◌&&◌, List, arith, ◌==◌, has, erase, has-erase,
}
use memory_management.Base.Ordered.{Ordered-erase, mem-erase}
use memory_management.Clib.Memory.{Memory}
use memory_management.Malloc.Links.{Ptr, Ends, null, unlink}
use memory_management.Malloc.Chain.{Chain-Distinct, not-has-null}
use memory_management.Malloc.Arena.{Arena, remove_list}
use memory_management.Malloc.Insert.{IsLinked}
use memory_management.Malloc.Remove.{IsLinked-unlink, Chain-unlink_other}
use memory_management.Malloc.Invariant.{IsArena}

IsLinked-has-erase :
    (a : Arena) (n q : Ptr) (xs : List Ptr) {e : Ends}
    → IsLinked a.links e xs
    → has q (erase n xs) ≡ (not (q == n) && has q xs)
IsLinked-has-erase a n q xs {e} v =
    has-erase n q xs (Chain-Distinct a.links null e.head e.tail xs v.chain)

module _ (a : Arena) (top : ℕ) (fs bs : List Ptr) (v : IsArena a top fs bs) (node : Ptr) where
  -- The list that does not hold the node.
  other-IsLinked :
      (xs ys : List Ptr) (e e' : Ends)
      → IsLinked a.links e xs
      → IsLinked a.links e' ys
      → has node xs ≡ true
      → ((q : Ptr) → has q xs ≡ true → has q ys ≡ false)
      → IsLinked (unlink node a.links) e' ys
  other-IsLinked xs ys e e' vx vy m apart = record {
    chain =
        Chain-unlink_other node a.links null e.head e.tail null e'.head e'.tail xs ys vx.chain m
          (not-has-null a.links null e'.head e'.tail ys vy.chain) apart vy.chain;
    count = vy.count;
  }

  -- On a well-formed heap, taking a free block out of its list keeps the invariant, for the
  -- free list without the block and the same allocated list.
  pub remove_list-free :
      has node fs ≡ true → IsArena (remove_list node true a) top (erase node fs) bs
  unfolding remove_list
  remove_list-free m =
      let keep = λ (q : Ptr). mem-erase node q fs in
      record {
        free_linked = IsLinked-unlink node a.links a.free fs v.free_linked m;
        alloc_linked = other-IsLinked fs bs a.free a.alloc v.free_linked v.alloc_linked m v.shared;
        shared = λ q h. v.shared q (keep q h);
        block = λ q h. v.block q (ground (arith, keep q));
        apart = λ q r h k ne. v.apart q r (ground (arith, keep q)) (ground (arith, keep r)) ne;
        ascending = Ordered-erase ◌<◌ node fs v.ascending;
        descending = v.descending;
        room = v.room;
      }

  -- On a well-formed heap, taking an allocated block out of its list keeps the invariant, for
  -- the allocated list without the block and the same free list.
  pub remove_list-alloc :
      has node bs ≡ true → IsArena (remove_list node false a) top fs (erase node bs)
  unfolding remove_list
  remove_list-alloc m =
      let keep = λ (q : Ptr). mem-erase node q bs in
      record {
        free_linked =
            other-IsLinked bs fs a.alloc a.free v.alloc_linked v.free_linked m
              (λ q h. ground (arith, v.shared q));
        alloc_linked = IsLinked-unlink node a.links a.alloc bs v.alloc_linked m;
        shared = λ q h. ground (arith, keep q, v.shared q);
        block = λ q h. v.block q (ground (arith, keep q));
        apart = λ q r h k ne. v.apart q r (ground (arith, keep q)) (ground (arith, keep r)) ne;
        ascending = v.ascending;
        descending = Ordered-erase (λ x y. a.alloc_bytes y ≤ a.alloc_bytes x) node bs v.descending;
        room = λ q h. v.room q (keep q h);
      }

  -- Without the block its bytes are vacant.
  pub has-erase-free : (q : Ptr) → has q (erase node fs) ≡ (not (q == node) && has q fs)
  has-erase-free q = IsLinked-has-erase a node q fs v.free_linked

  pub has-erase-alloc : (q : Ptr) → has q (erase node bs) ≡ (not (q == node) && has q bs)
  has-erase-alloc q = IsLinked-has-erase a node q bs v.alloc_linked

-- A grown heap is still one.
pub IsArena-grow :
    (a : Arena) (top top' : ℕ) (fs bs : List Ptr)
    → top ≤ top'
    → IsArena a top fs bs
    → IsArena a top' fs bs
IsArena-grow a top top' fs bs h v = record {
  free_linked = v.free_linked;
  alloc_linked = v.alloc_linked;
  shared = v.shared;
  block = λ q m. let b = v.block q m in ground arith;
  apart = v.apart;
  ascending = v.ascending;
  descending = v.descending;
  room = v.room;
}

-- The payloads are no part of it.
pub IsArena-payload :
    (a : Arena) (top : ℕ) (fs bs : List Ptr) (m : Memory)
    → IsArena a top fs bs
    → IsArena (record a { payload = m }) top fs bs
IsArena-payload a top fs bs m v = record {
  free_linked = v.free_linked;
  alloc_linked = v.alloc_linked;
  shared = v.shared;
  block = v.block;
  apart = v.apart;
  ascending = v.ascending;
  descending = v.descending;
  room = v.room;
}
