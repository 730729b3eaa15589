-- ===== src/Malloc/Ops.antt =====
-- The public functions of uspace/malloc.c.
use memory_management.Base.{
  ℕ, zero, suc, ◌+◌, ◌*◌, ◌/◌, ◌%◌, ◌≡◌, ◌<◌, ◌⊎◌, ◌^◌, ◌&&◌, ◌||◌, not, Bool, true, false, Option,
  none, some, ◌==◌, ltb, leb, if◌then◌else◌, update, add64, sub64, mul64, word, minus_one, round_up,
}
use memory_management.Base.Run.{Run, ok, fault, ◌>>=◌}
use memory_management.Clib.Memory.{Memory, memset, memcpy}
use memory_management.Malloc.Links.{Ptr, null}
use memory_management.Malloc.Arena.{
  Arena, header, of_option, append_list_ordered, remove_list, search_free,
}

-- The system call that moves the program break, as process.h documents it: it returns the old
-- break, or -1 and changes nothing.
pub record Breaks : Type 1 where
  pub Os : Type 0
  pub sbrk : ℕ → Os → ℕ × Os
  pub top : Os → ℕ
  pub IsProcess : Os → Type 0
  pub sbrk-IsProcess : (n : ℕ) (o : Os) → IsProcess o → IsProcess (sbrk n o).1
  pub top_pos : (o : Os) → IsProcess o → 0 < top o
  pub top_small : (o : Os) → IsProcess o → top o < 2 ^ 62
  -- for an increment, read as an `intptr_t`
  pub sbrk_grows :
      (n : ℕ) (o : Os)
      → IsProcess o
      → n < 2 ^ 63
      → (((sbrk n o).0 ≡ minus_one) × (top (sbrk n o).1 ≡ top o))
        ⊎ (((sbrk n o).0 ≡ top o) × (top (sbrk n o).1 ≡ top o + n))

abbrev pub page_size : ℕ
page_size = 4096

-- The end of `malloc`: the found block leaves the free list and is split if there is room for
-- another header. `p->size` at NULL is a fault.
unfoldable pub carve : (p : Ptr) → (required numbytes : ℕ) → Arena → Run (Ptr × Arena)
carve p required numbytes a =
    if p == null
    then fault
    else let initial = a.size p in
      let rest = sub64 initial required in
      let a1 = remove_list p true a in
      if leb header rest
      then (do
        a2 ← append_list_ordered (add64 p required) rest 0 true a1
        a3 ← append_list_ordered p required numbytes false a2
        ok (add64 p header, a3))
      else (do a2 ← append_list_ordered p initial numbytes false a1; ok (add64 p header, a2))

-- `ROUNDUP(HEADER + numbytes, 8)`
unfoldable pub required_size : ℕ → ℕ
required_size numbytes = round_up (add64 header numbytes) 8

-- `ROUNDUP(required_size, PAGESIZE * 4)`
unfoldable pub chunk_size : ℕ → ℕ
chunk_size required = round_up required (page_size * 4)

-- `info->free_space += n`, an `int` as its 32-bit pattern
abbrev pub add_int : ℕ → ℕ → ℕ
add_int a b = (a + b) % 2 ^ 32

-- `a >= b` of two `int`s given by their patterns
abbrev pub int_ge : ℕ → ℕ → Bool
int_ge a b = leb ((b + 2 ^ 31) % 2 ^ 32) ((a + 2 ^ 31) % 2 ^ 32)

-- `heap_info_struct`
pub record HeapInfo : Type 0 where
  pub num_allocs : ℕ
  pub size_array : Ptr
  pub ptr_array : Ptr
  pub free_space : ℕ
  pub largest_free_chunk : ℕ

-- The first loop of `heap_info`: `free_space` and `largest_free_chunk`.
unfoldable pub free_loop : ℕ → Ptr → Arena → (space largest : ℕ) → Option (ℕ × ℕ)
free_loop zero f1 a space largest = none
free_loop (suc fuel) f1 a space largest =
    let n = a.size f1 in
    let rest =
      free_loop fuel (a.links.next f1) a (add_int space n)
        (if int_ge (n % 2 ^ 32) largest then n % 2 ^ 32 else largest) in
    if f1 == null then some (space, largest) else rest

-- A store of `v` in `n` bytes, the lowest first.
unfoldable pub store_bytes : (n p v : ℕ) → Memory → Memory
store_bytes zero p v m = m
store_bytes (suc n) p v m = store_bytes n (p + 1) (v / 256) (update m p (v % 256))

-- The entry `i` of the two arrays.
unfoldable pub store_entry : (size_array ptr_array i x1 alloc_bytes : ℕ) → Memory → Memory
unfolding store_bytes
store_entry size_array ptr_array i x1 alloc_bytes m =
    store_bytes 8 (ptr_array + 8 * i) (add64 x1 header)
      (store_bytes 8 (size_array + 8 * i) alloc_bytes m)

-- Its second loop, which stores the entries of the two arrays from `i` on.
unfoldable pub entries_loop :
    ℕ → Ptr → (skip1 skip2 : Ptr) → (size_array ptr_array i : ℕ) → Arena → Memory → Option Memory
unfolding store_entry
entries_loop zero x1 s1 s2 sa pa i a m = none
entries_loop (suc fuel) x1 s1 s2 sa pa i a m =
    let entry = store_entry sa pa i x1 (a.alloc_bytes x1) m in
    let stored = entries_loop fuel (a.links.next x1) s1 s2 sa pa (i + 1) a entry in
    let passed = entries_loop fuel (a.links.next x1) s1 s2 sa pa i a m in
    if x1 == null then some m else if not (x1 == s1) && not (x1 == s2) then stored else passed

unfoldable pub defrag_loop : ℕ → (p1 p2 : Ptr) → Arena → Option Arena
defrag_loop zero p1 p2 a = none
defrag_loop (suc fuel) p1 p2 a =
    let joined : Arena =
      remove_list p2 true (record a { size = update a.size p1 ((a.size p1 + a.size p2) % word) }) in
    let join = defrag_loop fuel p1 (joined.links.next p1) joined in
    let step = defrag_loop fuel p2 (a.links.next p2) a in
    if p2 == null then some a else if sub64 p2 p1 == a.size p1 then join else step

unfoldable pub defrag : Arena → Run Arena
defrag a =
    if a.free.head == null
    then ok a
    else of_option (defrag_loop (a.free.count + 1) a.free.head (a.links.next a.free.head) a)

unfoldable pub free : Ptr → Arena → Run Arena
free firstbyte a =
    if firstbyte == null
    then ok a
    else let block = sub64 firstbyte header in
      append_list_ordered block (a.size block) 0 true (remove_list block false a)

module _ (os : Breaks) where
  open os use {Os, sbrk}

  -- The branch of `malloc` where no free block is big enough.
  unfoldable pub grow : (required numbytes : ℕ) → Arena → Os → Run (Ptr × Arena × Os)
  grow required numbytes a o =
      let chunk = chunk_size required in
      let (ret, o') = sbrk chunk o in
      if ret == minus_one then ok (null, a, o') else do
        a' ← append_list_ordered ret chunk 0 true a
        p ← search_free required a'
        r ← carve p required numbytes a'
        ok (r.0, r.1, o')

  unfoldable pub malloc : ℕ → Arena → Os → Run (Ptr × Arena × Os)
  malloc numbytes a o =
      if numbytes == 0
      then ok (null, a, o)
      else let required = required_size numbytes in
        do
          p ← search_free required a
          if p == null
              then grow required numbytes a o
              else (do r ← carve p required numbytes a; ok (r.0, r.1, o))

  unfoldable pub calloc : (num sz : ℕ) → Arena → Os → Run (Ptr × Arena × Os)
  calloc num sz a o =
      if (num == 0) || (sz == 0)
      then ok (null, a, o)
      else if ltb (minus_one / num) sz
      then ok (null, a, o)
      else do
        r ← malloc (mul64 num sz) a o
        if r.0 == null
            then ok (null, r.1, r.2)
            else ok
                (r.0, (record (r.1) { payload = memset r.0 0 (mul64 num sz) (r.1).payload }), r.2)

  unfoldable pub realloc : Ptr → (sz : ℕ) → Arena → Os → Run (Ptr × Arena × Os)
  realloc ptr sz a o =
      if ptr == null
      then malloc sz a o
      else if sz == 0
      then (do a' ← free ptr a; ok (null, a', o))
      else do
        r ← malloc sz a o
        if r.0 == null then ok (null, r.1, r.2) else (do
          let original = sub64 ptr header
          let newsize = if ltb ((r.1).size original) sz then (r.1).size original else sz
          a' ← free ptr (record (r.1) { payload = memcpy r.0 ptr newsize (r.1).payload })
          ok (r.0, a', r.2))

  -- What is left of `heap_info` once there is an allocated block; `info` holds the first fields.
  unfoldable pub fill_arrays : HeapInfo → Arena → Os → Run (ℕ × HeapInfo × Arena × Os)
  fill_arrays info a o = do
    let bytes = mul64 info.num_allocs 8
    r1 ← malloc bytes a o
    if r1.0 == null then ok (minus_one, info, r1.1, r1.2) else do
      r2 ← malloc bytes r1.1 r1.2
      if r2.0 == null then ok (minus_one, info, r2.1, r2.2) else do
        let b = r2.1
        let own = sub64 r1.0 header
        let own' = sub64 r2.0 header
        m ←
            of_option
              (entries_loop (b.alloc.count + 1) b.alloc.head own own' r1.0 r2.0 0 b b.payload)
        ok (0, record info { size_array = r1.0; ptr_array = r2.0 }, record b { payload = m }, r2.2)

  -- The result is the return value, the struct and the state.
  unfoldable pub heap_info : HeapInfo → Arena → Os → Run (ℕ × HeapInfo × Arena × Os)
  heap_info info a o = do
    r ← of_option (free_loop (a.free.count + 1) a.free.head a 0 0)
    let info1 = record info {
      num_allocs = a.alloc.count;
      free_space = r.0;
      largest_free_chunk = r.1;
    }
    let empty = record info1 { size_array = null; ptr_array = null }
    if a.alloc.count == 0 then ok (0, empty, a, o) else fill_arrays info1 a o
