-- ===== src/Malloc/Chain.antt =====
-- A well-linked list of nodes, and what the functions of `Malloc.Links` do to one.
use memory_management.Base.{
  ◌≡◌, ◌≢◌, refl, ◌⊎◌, inl, inr, true, false, List, [], ◌∷◌, arith, ◌==◌, Bool-cases, has, Distinct,
}
use memory_management.Malloc.Links.{Ptr, null, Links}

-- From `p` the `next` pointers lead through the distinct nodes `xs` to NULL, the `prev` pointers
-- lead back to `before`, and `last` is the last node (`before`, if there is none).
abbrev pub Chain : Links → (before p last : Ptr) → List Ptr → Type 0
Chain l before p last [] = (p ≡ null) × (last ≡ before)
Chain l before p last (x ∷ xs) =
    (p ≡ x) × (x ≢ null) × (l.prev x ≡ before) × (has x xs ≡ false) × Chain l x (l.next x) last xs

pub Chain-Distinct : (l : Links) (b p t : Ptr) (xs : List Ptr) → Chain l b p t xs → Distinct xs
Chain-Distinct l b p t [] c = tt
Chain-Distinct l b p t (x ∷ xs) c = (c.3, Chain-Distinct l x (l.next x) t xs c.4)

pub not-has-null :
    (l : Links) (b p t : Ptr) (xs : List Ptr) → Chain l b p t xs → has null xs ≡ false
not-has-null l b p t [] c = refl
not-has-null l b p t (x ∷ xs) c = ground (arith, not-has-null l x (l.next x) t xs c.4)

-- A chain survives any change that spares its own nodes.
pub Chain-frame :
    (l l' : Links) (b p t : Ptr) (xs : List Ptr)
    → Chain l b p t xs
    → ((q : Ptr) → has q xs ≡ true → (l'.prev q ≡ l.prev q) × (l'.next q ≡ l.next q))
    → Chain l' b p t xs
Chain-frame l l' b p t [] c same = c
Chain-frame l l' b p t (x ∷ xs) c same =
    let rest = Chain-frame l l' x (l.next x) t xs c.4 (λ q m. same q (ground arith)) in
    let here = same x (ground arith) in (c.0, c.1, ground arith, c.3, rw here.1 rest)

-- In a nonempty chain the last node is one of its nodes.
pub last-mem :
    (l : Links) (b p t x : Ptr) (xs : List Ptr) → Chain l b p t (x ∷ xs) → has t (x ∷ xs) ≡ true
last-mem l b p t x [] c = ground arith
last-mem l b p t x (y ∷ ys) c = ground (arith, last-mem l x (l.next x) t y ys c.4)

-- A node's predecessor is `before`, for the first node, or a node of the chain.
pub prev-mem :
    (l : Links) (b p t n : Ptr) (xs : List Ptr)
    → Chain l b p t xs
    → has n xs ≡ true
    → ((n ≡ p) × (l.prev n ≡ b)) ⊎ ((n ≢ p) × (has (l.prev n) xs ≡ true))
prev-mem l b p t n [] c m = absurd (ground arith)
prev-mem l b p t n (x ∷ xs) c m = elim (Bool-cases (n == x)) [
  | inl e ↦ inl (ground arith)
  | inr e ↦ inr (ground (arith, prev-mem l x (l.next x) t n xs c.4))
]

-- A node's successor is NULL or a node of the chain that is not the first.
pub next-mem :
    (l : Links) (b p t n : Ptr) (xs : List Ptr)
    → Chain l b p t xs
    → has n xs ≡ true
    → (l.next n ≡ null) ⊎ ((has (l.next n) xs ≡ true) × (l.next n ≢ p))
next-mem l b p t n [] c m = absurd (ground arith)
next-mem l b p t n (x ∷ []) c m = inl (ground arith)
next-mem l b p t n (x ∷ y ∷ ys) c m = ground (arith, next-mem l x (l.next x) t n (y ∷ ys) c.4)
