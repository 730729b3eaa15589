-- ===== src/Malloc/Entries.antt =====
-- About the arrays that heap_info of uspace/malloc.c fills: the bytes of their entries.
use memory_management.Base.{
  ℕ, zero, suc, ◌+◌, ◌*◌, ◌/◌, ◌%◌, ◌^◌, ◌≤◌, ◌<◌, ◌≡◌, refl, ◌∙◌, sym, ◌⊎◌, List, [], ◌∷◌, length,
  arith, update, add64, has, true,
}
use memory_management.Clib.Memory.{Memory}
use memory_management.Boot.Elf.{load}
use memory_management.Malloc.Links.{Ptr}
use memory_management.Malloc.Arena.{header}
use memory_management.Malloc.Ops.{store_bytes, store_entry}

-- A number of `n` bytes.
Fits : (n v : ℕ) → Type 0
Fits zero v = v ≡ 0
Fits (suc n) v = Fits n (v / 256)

store_bytes-kept :
    (n p v : ℕ) (m : Memory) (q : ℕ) → (q < p) ⊎ (p + n ≤ q) → store_bytes n p v m q ≡ m q
unfolding store_bytes
store_bytes-kept zero p v m q out = refl
store_bytes-kept (suc n) p v m q out =
    store_bytes-kept n (p + 1) (v / 256) (update m p (v % 256)) q (omega (arith, out))
    ∙ ground (arith, out)

load-store_bytes : (n p v : ℕ) (m : Memory) → Fits n v → load n p (store_bytes n p v m) ≡ v
unfolding load store_bytes Fits
load-store_bytes zero p v m fits = sym fits
load-store_bytes (suc n) p v m fits =
    let m1 = update m p (v % 256) in
    let rest = load-store_bytes n (p + 1) (v / 256) m1 fits in
    let first : store_bytes n (p + 1) (v / 256) m1 p ≡ v % 256 =
      store_bytes-kept n (p + 1) (v / 256) m1 p (omega arith) ∙ ground arith in
    rw (rest, first) (omega arith)

load-same :
    (n a : ℕ) (m m' : Memory)
    → ((q : ℕ) → a ≤ q → q < a + n → m q ≡ m' q)
    → load n a m ≡ load n a m'
unfolding load
load-same zero a m m' same = refl
load-same (suc n) a m m' same =
    let first = same a (omega arith) (omega arith) in
    let rest = load-same n (a + 1) m m' (λ q lo hi. same q (omega arith) (omega arith)) in
    rw (first, rest) refl

eight_bytes : (v : ℕ) → v < 2 ^ 64 → Fits 8 v
unfolding Fits
eight_bytes v small = omega (arith, small)

-- The entries of a list of blocks, from `i` on.
unfoldable pub store_entries : (sa pa i : ℕ) → (alloc_bytes : Ptr → ℕ) → List Ptr → Memory → Memory
unfolding store_entry
store_entries sa pa i f [] m = m
store_entries sa pa i f (x ∷ xs) m =
    store_entries sa pa (i + 1) f xs (store_entry sa pa i x (f x) m)

-- The arrays list the blocks: what was asked for, and the payload.
unfoldable pub Lists : (sa pa i : ℕ) → (alloc_bytes : Ptr → ℕ) → List Ptr → Memory → Type 0
Lists sa pa i f [] m = Unit
Lists sa pa i f (x ∷ xs) m =
    (load 8 (sa + 8 * i) m ≡ f x)
    × (load 8 (pa + 8 * i) m ≡ x + header)
    × Lists sa pa (i + 1) f xs m

-- No byte of the entries from `i` up to `n`.
abbrev pub Off : (array i n q : ℕ) → Type 0
Off array i n q = (q < array + 8 * i) ⊎ (array + 8 * n ≤ q)

module _ (sa pa n : ℕ) (f : Ptr → ℕ) (apart : (sa + 8 * n ≤ pa) ⊎ (pa + 8 * n ≤ sa)) where
  store_entry-kept :
      (i x v : ℕ) (m : Memory) (q : ℕ)
      → i < n
      → Off sa i n q
      → Off pa i n q
      → store_entry sa pa i x v m q ≡ m q
  unfolding store_entry
  store_entry-kept i x v m q lt off off' =
      store_bytes-kept 8 (pa + 8 * i) (add64 x header) (store_bytes 8 (sa + 8 * i) v m) q
        (omega (arith, off'))
      ∙ store_bytes-kept 8 (sa + 8 * i) v m q (omega (arith, off))

  pub store_entries-kept :
      (i : ℕ) (xs : List Ptr) (m : Memory) (q : ℕ)
      → i + length xs ≤ n
      → Off sa i n q
      → Off pa i n q
      → store_entries sa pa i f xs m q ≡ m q
  unfolding store_entries
  store_entries-kept i [] m q room off off' = refl
  store_entries-kept i (x ∷ xs) m q room off off' =
      store_entries-kept (i + 1) xs (store_entry sa pa i x (f x) m) q (omega arith)
        (omega (arith, off)) (omega (arith, off'))
      ∙ store_entry-kept i x (f x) m q (omega arith) off off'

  store_entry-size :
      (i x v : ℕ) (m : Memory)
      → i < n
      → v < 2 ^ 64
      → load 8 (sa + 8 * i) (store_entry sa pa i x v m) ≡ v
  unfolding store_entry
  store_entry-size i x v m lt small =
      let m1 = store_bytes 8 (sa + 8 * i) v m in
      load-same 8 (sa + 8 * i) (store_entry sa pa i x v m) m1 (λ q lo hi.
        store_bytes-kept 8 (pa + 8 * i) (add64 x header) m1 q (omega (arith, apart, lo, hi)))
      ∙ load-store_bytes 8 (sa + 8 * i) v m (eight_bytes v small)

  store_entry-ptr :
      (i x v : ℕ) (m : Memory)
      → x + header < 2 ^ 64
      → load 8 (pa + 8 * i) (store_entry sa pa i x v m) ≡ x + header
  unfolding store_entry
  store_entry-ptr i x v m small =
      load-store_bytes 8 (pa + 8 * i) (add64 x header) (store_bytes 8 (sa + 8 * i) v m)
        (eight_bytes (add64 x header) (omega arith))
      ∙ omega (arith, small)

  pub store_entries-Lists :
      (i : ℕ) (xs : List Ptr) (m : Memory)
      → i + length xs ≤ n
      → ((q : Ptr) → has q xs ≡ true → (f q < 2 ^ 64) × (q + header < 2 ^ 64))
      → Lists sa pa i f xs (store_entries sa pa i f xs m)
  unfolding store_entries Lists
  store_entries-Lists i [] m room small = tt
  store_entries-Lists i (x ∷ xs) m room small =
      let m1 = store_entry sa pa i x (f x) m in
      let here = small x (ground arith) in
      let later = λ (q : ℕ) (off : Off sa (i + 1) n q) (off' : Off pa (i + 1) n q).
        store_entries-kept (i + 1) xs m1 q (omega arith) off off' in
      (
        load-same 8 (sa + 8 * i) (store_entries sa pa (i + 1) f xs m1) m1
              (λ q lo hi. later q (omega (arith, lo, hi)) (omega (arith, apart, lo, hi)))
            ∙ store_entry-size i x (f x) m (omega arith) here.0,
        load-same 8 (pa + 8 * i) (store_entries sa pa (i + 1) f xs m1) m1
              (λ q lo hi. later q (omega (arith, apart, lo, hi)) (omega (arith, lo, hi)))
            ∙ store_entry-ptr i x (f x) m here.1,
        store_entries-Lists (i + 1) xs m1 (omega arith) (λ q t. small q (ground arith)),
      )
