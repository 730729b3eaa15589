-- ===== src/Malloc/Remove.antt =====
-- About `remove_list` of uspace/malloc.c on the links of its list and of the other one.
use memory_management.Base.{
  ◌≡◌, refl, ◌∙◌, inl, inr, true, false, not, ◌&&◌, List, [], ◌∷◌, arith, ◌==◌, if◌then◌else◌,
  Bool-cases, has, erase, has-erase, length-erase,
}
use memory_management.Malloc.Links.{Ptr, null, Links, Ends, unlink, unlink_ends}
use memory_management.Malloc.Chain.{
  Chain, Chain-frame, Chain-Distinct, not-has-null, last-mem, prev-mem, next-mem,
}
use memory_management.Malloc.Insert.{IsLinked}

-- The fields that `remove_list` writes.
unlink_fields :
    (n : Ptr) (l : Links) (q : Ptr)
    → ((unlink n l).next q
        ≡ (if (q == l.prev n) && not (l.prev n == null) then l.next n else l.next q))
      × ((unlink n l).prev q
          ≡ (if (q == l.next n) && not (l.next n == null) then l.prev n else l.prev q))
unfolding unlink
unlink_fields n l q = (ground arith, ground arith)

module _ (n : Ptr) (l : Links) where
  -- The first of two or more nodes leaves.
  unlink-first :
      (b t x y : Ptr) (ys : List Ptr)
      → Chain l b x t (x ∷ y ∷ ys)
      → n ≡ x
      → has b (x ∷ y ∷ ys) ≡ false
      → Chain (unlink n l) b y t (y ∷ ys)
  unlink-first b t x y ys c e out =
      let fields = unlink_fields n l in
      let prev_n : l.prev n ≡ b = rw e c.2 in
      let next_n : l.next n ≡ y = rw e c.4.0 in
      let next_y : (unlink n l).next y ≡ l.next y = ground (arith, fields y) in
      let rest : Chain (unlink n l) y (l.next y) t ys =
        Chain-frame l (unlink n l) y (l.next y) t ys c.4.4
          (λ q m. (ground (arith, fields q), ground (arith, fields q))) in
      (refl, c.4.1, ground (arith, fields y), c.4.3, rw next_y rest)

  -- What `x` points at when a node behind it leaves.
  unlink-next :
      (b t x : Ptr) (xs : List Ptr)
      → Chain l b x t (x ∷ xs)
      → has n xs ≡ true
      → ((unlink n l).next x ≡ (if n == l.next x then l.next n else l.next x))
        × ((unlink n l).prev x ≡ l.prev x)
  unlink-next b t x xs c m = (
    ground (arith, unlink_fields n l x, prev-mem l x (l.next x) t n xs c.4 m),
    ground (arith, unlink_fields n l x, next-mem l x (l.next x) t n xs c.4 m),
  )

  Chain-unlink :
      (b p t : Ptr) (xs : List Ptr)
      → Chain l b p t xs
      → has n xs ≡ true
      → has b xs ≡ false
      → Chain
          (unlink n l)
          b
          (if n == p then l.next n else p)
          (if n == t then l.prev n else t)
          (erase n xs)
  Chain-unlink b p t [] c m out = absurd (ground arith)
  Chain-unlink b p t (x ∷ []) c m out =
      let e : n ≡ x = ground arith in
      let same : (n == x) ≡ true = ground arith in rw same (ground arith)
  Chain-unlink b p t (x ∷ y ∷ ys) c m out = elim (Bool-cases (n == x)) [
    | inl e ↦
        let n_eq : n ≡ x = ground arith in
        let here : (n == p) ≡ true = ground arith in
        let not_last : (n == t) ≡ false = ground (arith, last-mem l x (l.next x) t y ys c.4) in
        let next_n : l.next n ≡ y = rw n_eq c.4.0 in
        rw (e, here, not_last, next_n) (unlink-first b t x y ys (rw c.0 at c) n_eq out)
    | inr e ↦
        let not_here : (n == p) ≡ false = ground arith in
        let behind : has n (y ∷ ys) ≡ true = ground arith in
        let fields = unlink-next b t x (y ∷ ys) (rw c.0 at c) behind in
        let rest = Chain-unlink x (l.next x) t (y ∷ ys) c.4 behind c.3 in
        rw (e, not_here)
          (
            c.0,
            c.1,
            fields.1 ∙ c.2,
            ground (arith, has-erase n x (y ∷ ys) (Chain-Distinct l x (l.next x) t (y ∷ ys) c.4)),
            rw fields.0 rest,
          )
  ]

  -- `remove_list` takes a node of a list out of that list.
  pub IsLinked-unlink :
      (e : Ends) (xs : List Ptr)
      → IsLinked l e xs
      → has n xs ≡ true
      → IsLinked (unlink n l) (unlink_ends n l e) (erase n xs)
  unfolding unlink_ends
  IsLinked-unlink e xs v m = record {
    chain =
        Chain-unlink null e.head e.tail xs v.chain m (not-has-null l null e.head e.tail xs v.chain);
    count = omega (arith, v.count, length-erase n xs m);
  }

  -- The links of a chain that does not hold the node stay, if its neighbours are not there either.
  pub Chain-unlink_other :
      (b p t b' p' t' : Ptr) (xs ys : List Ptr)
      → Chain l b p t xs
      → has n xs ≡ true
      → has b ys ≡ false
      → ((q : Ptr) → has q xs ≡ true → has q ys ≡ false)
      → Chain l b' p' t' ys
      → Chain (unlink n l) b' p' t' ys
  Chain-unlink_other b p t b' p' t' xs ys c m out apart d =
      Chain-frame l (unlink n l) b' p' t' ys d λ q k. (
        ground (arith, unlink_fields n l q, next-mem l b p t n xs c m, apart (l.next n)),
        ground (arith, unlink_fields n l q, prev-mem l b p t n xs c m, apart (l.prev n)),
      )
