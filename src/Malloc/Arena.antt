-- ===== src/Malloc/Arena.antt =====
-- The state of the allocator of uspace/malloc.c, and the functions on its two lists.
use memory_management.Base.{
  ℕ, zero, suc, ◌+◌, ◌&&◌, Bool, true, false, Option, none, some, ◌==◌, ltb, leb, if◌then◌else◌,
  update,
}
use memory_management.Base.Run.{Run, ok, fault, out_of_fuel}
use memory_management.Clib.Memory.{Memory}
use memory_management.Malloc.Links.{
  Ptr, null, Links, Ends, link_last, link_ordered, unlink, unlink_ends,
}

-- `sizeof(elt)`
abbrev pub header : ℕ
header = 32

-- The fields `size`, `alloc_bytes`, `prev` and `next` of every `elt`, the globals of the two
-- lists, and the bytes of the payloads.
pub record Arena : Type 0 where
  pub size : Ptr → ℕ
  pub alloc_bytes : Ptr → ℕ
  pub links : Links
  pub free : Ends
  pub alloc : Ends
  pub payload : Memory

abbrev pub of_option {ℓ} : {A : Type ℓ} → Option A → Run A
of_option none = out_of_fuel
of_option (some a) = ok a

abbrev map_run {ℓ κ} : {A : Type ℓ} {B : Type κ} → (A → B) → Run A → Run B
map_run f (ok a) = ok (f a)
map_run f fault = fault
map_run f out_of_fuel = out_of_fuel

abbrev with_free : Arena → Links × Ends → Arena
with_free a (l, e) = record a { links = l; free = e }

abbrev with_alloc : Arena → Links × Ends → Arena
with_alloc a (l, e) = record a { links = l; alloc = e }

unfoldable append_list : Ptr → (size : ℕ) → (free : Bool) → Arena → Arena
unfolding link_last
append_list node size free a =
    let a' : Arena = record a { size = update a.size node size } in
    if free
    then with_free a' (link_last node a'.links a'.free)
    else with_alloc a' (link_last node a'.links a'.alloc)

-- The tests of `append_list_ordered` for a free block: ascending addresses.
abbrev pub addr_first : Ptr → Ptr → Bool
addr_first node x = ltb node x

abbrev pub addr_between : Ptr → Ptr → Ptr → Bool
addr_between node p1 p2 = leb p1 node && ltb node p2

-- Its tests for an allocated block: descending `alloc_bytes`.
abbrev pub bytes_first : (Ptr → ℕ) → ℕ → Ptr → Bool
bytes_first alloc_bytes bytes x = ltb (alloc_bytes x) bytes

abbrev pub bytes_between : (Ptr → ℕ) → ℕ → Ptr → Ptr → Bool
bytes_between alloc_bytes bytes a1 a2 = leb bytes (alloc_bytes a1) && ltb (alloc_bytes a2) bytes

unfoldable pub append_list_ordered :
    Ptr → (size alloc_bytes : ℕ) → (free : Bool) → Arena → Run Arena
append_list_ordered node size bytes true a =
    map_run (with_free (record a { size = update a.size node size }))
      (of_option (link_ordered (addr_first node) (addr_between node) node a.links a.free))
append_list_ordered node size bytes false a =
    let allotted = update a.alloc_bytes node bytes in
    map_run (with_alloc (record a { size = update a.size node size; alloc_bytes = allotted })) (
      of_option (
        link_ordered (bytes_first allotted bytes) (bytes_between allotted bytes) node a.links
          a.alloc))

unfoldable pub remove_list : Ptr → (free : Bool) → Arena → Arena
remove_list node true a = record a {
  links = unlink node a.links;
  free = unlink_ends node a.links a.free;
}
remove_list node false a = record a {
  links = unlink node a.links;
  alloc = unlink_ends node a.links a.alloc;
}

-- The loop of `search_free`; NULL if no block is big enough.
unfoldable pub search_loop : ℕ → Ptr → (size : ℕ) → Arena → Option Ptr
search_loop zero p size a = none
search_loop (suc fuel) p size a =
    let rest = search_loop fuel (a.links.next p) size a in
    if p == null then some null else if leb size (a.size p) then some p else rest

unfoldable pub search_free : (size : ℕ) → Arena → Run Ptr
unfolding search_loop
search_free size a = of_option (search_loop (a.free.count + 1) a.free.head size a)
