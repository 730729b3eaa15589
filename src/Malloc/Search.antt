-- ===== src/Malloc/Search.antt =====
-- About `search_free` of uspace/malloc.c and the first free block that is big enough.
use memory_management.Base.{
  ℕ, zero, suc, ◌+◌, ◌≤◌, ◌<◌, ◌≡◌, refl, sym, inl, inr, ◌≢◌, true, false, some, List, [], ◌∷◌,
  arith, ◌==◌, leb, if◌then◌else◌, Bool-cases, has, length,
}
use mathlib.Core.Path.{subst}
use memory_management.Base.Run.{ok}
use memory_management.Malloc.Links.{Ptr, null}
use memory_management.Malloc.Chain.{Chain}
use memory_management.Malloc.Arena.{Arena, search_loop, search_free}
use memory_management.Malloc.Insert.{IsLinked}

-- The first of the blocks with at least `n` bytes; NULL if there is none.
abbrev pub first_fit : (Ptr → ℕ) → (n : ℕ) → List Ptr → Ptr
first_fit size n [] = null
first_fit size n (x ∷ xs) = if leb n (size x) then x else first_fit size n xs

search_loop-first_fit :
    (fuel : ℕ) (b p t n : ℕ) (a : Arena) (xs : List Ptr)
    → Chain a.links b p t xs
    → length xs < fuel
    → search_loop fuel p n a ≡ some (first_fit a.size n xs)
unfolding search_loop
search_loop-first_fit zero b p t n a xs c h = absurd (omega arith)
search_loop-first_fit (suc k) b p t n a [] c h = ground arith
search_loop-first_fit (suc k) b p t n a (x ∷ xs) c h =
    let p_eq : p ≡ x = c.0 in
    let p_ne : (p == null) ≡ false = ground arith in
    rw p_ne (rw p_eq (ground (arith, search_loop-first_fit k x (a.links.next x) t n a xs c.4)))

-- On a well-linked free list `search_free` returns the first block of at least `n` bytes, or NULL
-- if there is none.
pub search_free-first_fit :
    (a : Arena) (n : ℕ) (xs : List Ptr)
    → IsLinked a.links a.free xs
    → search_free n a ≡ ok (first_fit a.size n xs)
unfolding search_free
search_free-first_fit a n xs v = rw (
    search_loop-first_fit (a.free.count + 1) null a.free.head a.free.tail n a xs v.chain
      (omega (arith, v.count)))

-- What first fit can return.
pub data Fit (size : Ptr → ℕ) (n : ℕ) (xs : List Ptr) (f : Ptr) : Type 0 where
  missing : f ≡ null → ((q : Ptr) → has q xs ≡ true → size q < n) → Fit size n xs f
  found : f ≢ null → has f xs ≡ true → n ≤ size f → Fit size n xs f

Fit-cons :
    (size : Ptr → ℕ) (n x : ℕ) (xs : List Ptr) (f : Ptr)
    → size x < n
    → Fit size n xs f
    → Fit size n (x ∷ xs) f
Fit-cons size n x xs f less (missing z small) = missing z λ q m. elim (Bool-cases (q == x)) [
  | inl s ↦ let q_eq : q ≡ x = ground arith in rw q_eq less
  | inr s ↦ small q (ground arith)
]
Fit-cons size n x xs f less (found z m big) = found z (ground arith) big

pub first_fit-Fit :
    (size : Ptr → ℕ) (n b p t : ℕ) (a : Arena) (xs : List Ptr)
    → Chain a.links b p t xs
    → Fit size n xs (first_fit size n xs)
first_fit-Fit size n b p t a [] c = missing refl λ q m. absurd (ground arith)
first_fit-Fit size n b p t a (x ∷ xs) c = elim (Bool-cases (leb n (size x))) [
  | inl e ↦
      let eq : first_fit size n (x ∷ xs) ≡ x = rw e in
      subst (λ f. Fit size n (x ∷ xs) f) (sym eq) (found c.1 (ground arith) (ground arith))
  | inr e ↦
      let eq : first_fit size n (x ∷ xs) ≡ first_fit size n xs = rw e in
      subst (λ f. Fit size n (x ∷ xs) f) (sym eq)
        (Fit-cons size n x xs (first_fit size n xs) (ground arith)
          (first_fit-Fit size n x (a.links.next x) t a xs c.4))
]
