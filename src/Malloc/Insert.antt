-- ===== src/Malloc/Insert.antt =====
-- About `append_list_ordered` of uspace/malloc.c on the links of its list and of the other one.
use memory_management.Base.{
  ℕ, zero, suc, ◌+◌, ◌<◌, ◌≡◌, ◌≢◌, refl, sym, ◌∙◌, inl, inr, Bool, false, not, ◌&&◌, Option, some,
  List, [], ◌∷◌, arith, ◌==◌, Bool-cases, has, insert_before, length, has-insert_before,
  length-insert_before,
}
use mathlib.Core.Path.{subst}
use memory_management.Malloc.Links.{
  Ptr, null, Links, Ends, set_prev, set_next, insert_loop, link_ordered,
}
use memory_management.Malloc.Chain.{Chain, Chain-frame}

-- What the globals of a list say of its nodes.
pub record IsLinked (l : Links) (e : Ends) (xs : List Ptr) : Type 0 where
  pub chain : Chain l null e.head e.tail xs
  pub count : e.count ≡ length xs

-- The links of all nodes but `node` and `xs` are as they were.
abbrev pub SameLinks : Ptr → List Ptr → Links → Links → Type 0
SameLinks node xs l l' =
    (q : Ptr) → q ≢ node → has q xs ≡ false → (l'.prev q ≡ l.prev q) × (l'.next q ≡ l.next q)

-- Inserting a new node keeps the list well linked, with the node before the first that passes
-- the test, and touches the links of no other list.
pub record LinkedOrdered (first : Ptr → Bool) (node : Ptr) (l : Links) (e : Ends) (xs : List Ptr)
    (r : Option (Links × Ends)) : Type 0 where
  pub links : Links
  pub ends : Ends
  pub result : r ≡ some (links, ends)
  pub linked : IsLinked links ends (insert_before first node xs)
  pub same : SameLinks node xs l links

module _ (first : Ptr → Bool) (between : Ptr → Ptr → Bool)
    (agree : (x y : Ptr) → between x y ≡ (not (first x) && first y)) (node : Ptr)
    (node_ne : node ≢ null) where
  Chain-between :
      (l : Links) (b p1 t y : Ptr) (ys : List Ptr)
      → Chain l b p1 t (p1 ∷ y ∷ ys)
      → has node (p1 ∷ y ∷ ys) ≡ false
      → Chain
          (set_prev y node (set_next p1 node (set_next node y (set_prev node p1 l))))
          b
          p1
          t
          (p1 ∷ node ∷ y ∷ ys)
  Chain-between l b p1 t y ys c out =
      let l' = set_prev y node (set_next p1 node (set_next node y (set_prev node p1 l))) in
      let rest : Chain l' y (l.next y) t ys =
        Chain-frame l l' y (l.next y) t ys c.4.4 (λ q m. (ground arith, ground arith)) in
      let same : l'.next y ≡ l.next y = ground arith in
      (
        refl,
        c.1,
        ground arith,
        ground arith,
        (
          ground arith,
          node_ne,
          ground arith,
          ground arith,
          (ground arith, c.4.1, ground arith, c.4.3, rw same rest),
        ),
      )

  Chain-front :
      (l : Links) (t x : Ptr) (xs : List Ptr)
      → Chain l null x t (x ∷ xs)
      → has node (x ∷ xs) ≡ false
      → Chain (set_prev x node (set_next node x (set_prev node null l))) null node t (node ∷ x ∷ xs)
  Chain-front l t x xs c out =
      let l' = set_prev x node (set_next node x (set_prev node null l)) in
      let rest : Chain l' x (l.next x) t xs =
        Chain-frame l l' x (l.next x) t xs c.4 (λ q m. (ground arith, ground arith)) in
      let same : l'.next x ≡ l.next x = ground arith in
      (
        refl,
        node_ne,
        ground arith,
        ground arith,
        (ground arith, c.1, ground arith, c.3, rw same rest),
      )

  -- The node before a rest that has been changed behind its first node.
  Chain-step :
      (l l' : Links) (b p1 y t t' : Ptr) (xs ys : List Ptr)
      → Chain l b p1 t (p1 ∷ y ∷ ys)
      → Chain l' p1 y t' (y ∷ xs)
      → has p1 (y ∷ xs) ≡ false
      → (l'.prev p1 ≡ l.prev p1) × (l'.next p1 ≡ l.next p1)
      → Chain l' b p1 t' (p1 ∷ y ∷ xs)
  Chain-step l l' b p1 y t t' xs ys c rest out same =
      let e : l'.next p1 ≡ y = same.1 ∙ c.4.0 in (refl, c.1, same.0 ∙ c.2, out, rw e rest)

  -- What the loop returns, started at `p1` with the nodes `xs` behind it.
  record Inserted (b p1 : Ptr) (xs : List Ptr) (l : Links) (e : Ends) (r : Option (Links × Ends))
      : Type 0 where
    links : Links
    tail : Ptr
    result : r ≡ some (links, record e { tail = tail })
    chain : Chain links b p1 tail (p1 ∷ insert_before first node xs)
    same : SameLinks node (p1 ∷ xs) l links

  insert_loop-Inserted :
      (fuel : ℕ) (b p1 p2 : Ptr) (xs : List Ptr) (l : Links) (e : Ends)
      → Chain l b p1 e.tail (p1 ∷ xs)
      → p2 ≡ l.next p1
      → has node (p1 ∷ xs) ≡ false
      → first p1 ≡ false
      → length xs < fuel
      → Inserted b p1 xs l e (insert_loop between fuel node p1 p2 l e)
  unfolding insert_loop
  insert_loop-Inserted zero b p1 p2 xs l e c e2 out late fuel = absurd (omega arith)
  insert_loop-Inserted (suc k) b p1 p2 [] l e c e2 out late fuel = record {
    links = set_next node null (set_prev node p1 (set_next p1 node l));
    tail = node;
    result = ground arith;
    chain = ground arith;
    same = λ q h m. ground arith;
  }
  insert_loop-Inserted (suc k) b p1 p2 (y ∷ ys) l e c e2 out late fuel =
      let p2_eq : p2 ≡ y = ground arith in
      let y_ne : (y == null) ≡ false = ground arith in
      elim (Bool-cases (first y)) [
        | inl hit ↦ record {
          links = set_prev y node (set_next p1 node (set_next node y (set_prev node p1 l)));
          tail = e.tail;
          result = rw (p2_eq, y_ne, agree p1 y, late, hit);
          chain = rw hit (Chain-between l b p1 e.tail y ys c out);
          same = λ q h m. ground arith;
        }
        | inr miss ↦
            let rest =
              insert_loop-Inserted k p1 y (l.next y) ys l e (rw c.4.0 at c.4) refl (ground arith)
                miss (omega arith) in
            record {
              links = rest.links;
              tail = rest.tail;
              result = rw (p2_eq, y_ne, agree p1 y, late, miss) rest.result;
              chain = rw miss (
                  Chain-step l rest.links b p1 y e.tail rest.tail (insert_before first node ys) ys c
                    rest.chain (ground (arith, has-insert_before first node p1 ys))
                    (rest.same p1 (ground arith) (ground arith)));
              same = λ q h m. rest.same q h (ground arith);
            }
      ]

  link_ordered-cons :
      (l : Links) (t n x : Ptr) (xs : List Ptr)
      → Chain l null x t (x ∷ xs)
      → n ≡ suc (length xs)
      → has node (x ∷ xs) ≡ false
      → let e : Ends = record { head = x; tail = t; count = n } in
        LinkedOrdered first node l e (x ∷ xs) (link_ordered first between node l e)
  unfolding link_ordered
  link_ordered-cons l t n x xs c count out =
      let x_ne : (x == null) ≡ false = ground arith in
      let e1 : Ends = record { head = x; tail = t; count = n + 1 } in
      elim (Bool-cases (first x)) [
        | inl hit ↦ record {
          links = set_prev x node (set_next node x (set_prev node null l));
          ends = record { head = node; tail = t; count = n + 1 };
          result = rw (x_ne, hit);
          linked =
              rw hit (record { chain = Chain-front l t x xs c out; count = ground (arith, count) });
          same = λ q h m. ground arith;
        }
        | inr miss ↦
            let rest =
              insert_loop-Inserted (n + 1) null x (l.next x) xs l e1 c refl out miss
                (omega arith) in
            record {
              links = rest.links;
              ends = record e1 { tail = rest.tail };
              result = rw (x_ne, miss) rest.result;
              linked = rw miss (record {
                chain = rest.chain;
                count = omega (arith, length-insert_before first node xs);
              });
              same = rest.same;
            }
      ]

  pub link_ordered-LinkedOrdered :
      (l : Links) (e : Ends) (xs : List Ptr)
      → IsLinked l e xs
      → has node xs ≡ false
      → LinkedOrdered first node l e xs (link_ordered first between node l e)
  unfolding link_ordered
  link_ordered-LinkedOrdered l e [] v out = record {
    links = set_next node null (set_prev node null l);
    ends = record { head = node; tail = node; count = e.count + 1 };
    result = ground (arith, v.chain);
    linked = record { chain = ground arith; count = ground (arith, v.count) };
    same = λ q h m. ground arith;
  }
  link_ordered-LinkedOrdered l e (x ∷ xs) v out =
      let at_head : e ≡ record e { head = x } = λ i. record e { head = v.chain.0 i } in
      subst (λ e'. LinkedOrdered first node l e (x ∷ xs) (link_ordered first between node l e'))
        (sym at_head)
        (subst
          (λ e'.
            LinkedOrdered first node l e' (x ∷ xs)
              (link_ordered first between node l (record e { head = x })))
          (sym at_head)
          (link_ordered-cons l e.tail e.count x xs (rw v.chain.0 at v.chain) v.count out))
