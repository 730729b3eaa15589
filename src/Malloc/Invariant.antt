-- ===== src/Malloc/Invariant.antt =====
-- The invariant of the allocator's state: two well-linked lists of disjoint blocks below the
-- program break, the free ones by ascending address, the allocated ones by descending size.
use memory_management.Base.{ℕ, ◌+◌, ◌%◌, ◌≤◌, ◌<◌, ◌≡◌, ◌≢◌, ◌⊎◌, true, false, ◌||◌, List, has}
use memory_management.Base.Ordered.{Ordered}
use memory_management.Malloc.Links.{Ptr}
use memory_management.Malloc.Arena.{Arena, header}
use memory_management.Malloc.Insert.{IsLinked}

-- A block of `size` bytes at `p`.
pub record IsBlock (p size top : ℕ) : Type 0 where
  pub pos : 0 < p
  pub aligned : p % 8 ≡ 0
  pub size_aligned : size % 8 ≡ 0
  pub big : header ≤ size
  pub below : p + size ≤ top

abbrev pub Disjoint : (p m q n : ℕ) → Type 0
Disjoint p m q n = (p + m ≤ q) ⊎ (q + n ≤ p)

abbrev pub Owned : List Ptr → List Ptr → Ptr → Type 0
Owned fs bs q = (has q fs || has q bs) ≡ true

abbrev pub Descending : (Ptr → ℕ) → List Ptr → Type 0
Descending key = Ordered (λ x y. key y ≤ key x)

-- `fs` are the free blocks and `bs` the allocated ones, in the order of their lists.
pub record IsArena (a : Arena) (top : ℕ) (fs bs : List Ptr) : Type 0 where
  pub free_linked : IsLinked a.links a.free fs
  pub alloc_linked : IsLinked a.links a.alloc bs
  pub shared : (q : Ptr) → has q fs ≡ true → has q bs ≡ false
  pub block : (q : Ptr) → Owned fs bs q → IsBlock q (a.size q) top
  pub apart :
      (q r : Ptr) → Owned fs bs q → Owned fs bs r → q ≢ r → Disjoint q (a.size q) r (a.size r)
  pub ascending : Ordered ◌<◌ fs
  pub descending : Descending a.alloc_bytes bs
  pub room : (q : Ptr) → has q bs ≡ true → a.alloc_bytes q + header ≤ a.size q
