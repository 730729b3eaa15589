-- ===== src/Malloc/Suffix.antt =====
-- Lists of nodes read behind a prefix.
use memory_management.Base.{
  ℕ, ◌<◌, ◌≡◌, inl, inr, true, false, List, [], ◌∷◌, ◌++◌, arith, Bool-cases, has, erase, Distinct,
}
use memory_management.Base.Ordered.{Ordered}
use memory_management.Malloc.Links.{Ptr, Links}
use memory_management.Malloc.Chain.{Chain}

pub Ordered-not-has :
    (p : Ptr) (xs : List Ptr) → ((q : Ptr) → has q xs ≡ true → p < q) → has p xs ≡ false
Ordered-not-has p xs h = elim (Bool-cases (has p xs)) [
  | inl e ↦ absurd (omega (arith, h p e))
  | inr e ↦ e
]

-- Reading a list of nodes behind a prefix.
pub Chain-suffix :
    (pre : List Ptr) (l : Links) (b p t x : Ptr) (xs : List Ptr)
    → Chain l b p t (pre ++ x ∷ xs)
    → (b' : Ptr) × Chain l b' x t (x ∷ xs)
Chain-suffix [] l b p t x xs c = (b, rw c.0 at c)
Chain-suffix (y ∷ ys) l b p t x xs c = Chain-suffix ys l y (l.next y) t x xs c.4

pub Ordered-suffix : (R : ℕ → ℕ → Type 0) (pre xs : List Ptr) → Ordered R (pre ++ xs) → Ordered R xs
Ordered-suffix R [] xs o = o
Ordered-suffix R (y ∷ ys) xs o = Ordered-suffix R ys xs o.1

pub has-suffix : (pre xs : List Ptr) (q : Ptr) → has q xs ≡ true → has q (pre ++ xs) ≡ true
has-suffix [] xs q m = m
has-suffix (y ∷ ys) xs q m = ground (arith, has-suffix ys xs q m)

pub erase-second :
    (pre : List Ptr) (x y : Ptr) (ys : List Ptr)
    → Distinct (pre ++ x ∷ y ∷ ys)
    → erase y (pre ++ x ∷ y ∷ ys) ≡ pre ++ x ∷ ys
erase-second [] x y ys d = ground arith
erase-second (z ∷ zs) x y ys d =
    ground (arith, erase-second zs x y ys d.1, has-suffix zs (x ∷ y ∷ ys) y (ground arith))
