-- ===== src/Base/Ordered.antt =====
-- Lists of addresses in which each element is related to all that follow it.
use memory_management.Base.Tests.{◌==◌, Bool-cases}
use memory_management.Base.Lists.{has, erase, insert_before, has-insert_before}
use Prim.Native.Nat.{ℕ}
use mathlib.Core.Path.{◌≡◌}
use mathlib.Core.Logic.{inl, inr}
use mathlib.Core.Bool.{Bool, true, false}
use mathlib.Core.List.{List, [], ◌∷◌}
use native.Mathlib.Omega.{arith}

abbrev pub Ordered : (ℕ → ℕ → Type 0) → List ℕ → Type 0
Ordered R [] = Unit
Ordered R (x ∷ xs) = ((q : ℕ) → has q xs ≡ true → R x q) × Ordered R xs

pub Ordered-weaken :
    {R S : ℕ → ℕ → Type 0} (xs : List ℕ)
    → ((x y : ℕ) → has x xs ≡ true → has y xs ≡ true → R x y → S x y)
    → Ordered R xs
    → Ordered S xs
Ordered-weaken [] f o = tt
Ordered-weaken (x ∷ xs) f o = (
  λ q m. f x q (ground arith) (ground arith) (o.0 q m),
  Ordered-weaken xs (λ y z k m. f y z (ground arith) (ground arith)) o.1,
)

pub mem-erase : (n q : ℕ) (xs : List ℕ) → has q (erase n xs) ≡ true → has q xs ≡ true
mem-erase n q [] h = h
mem-erase n q (x ∷ xs) h = ground (arith, mem-erase n q xs)

module _ (R : ℕ → ℕ → Type 0) where
  pub Ordered-erase : (n : ℕ) (xs : List ℕ) → Ordered R xs → Ordered R (erase n xs)
  Ordered-erase n [] o = tt
  Ordered-erase n (x ∷ xs) o = elim (Bool-cases (n == x)) [
    | inl e ↦ rw e o.1
    | inr e ↦ rw e (λ q m. o.0 q (mem-erase n q xs m), Ordered-erase n xs o.1)
  ]

  -- Insertion before the first element that passes a test keeps the order.
  pub Ordered-insert_before :
      (test : ℕ → Bool) (n : ℕ) (xs : List ℕ)
      → ((x y z : ℕ) → R x y → R y z → R x z)
      → ((x : ℕ) → has x xs ≡ true → test x ≡ true → R n x)
      → ((x : ℕ) → has x xs ≡ true → test x ≡ false → R x n)
      → Ordered R xs
      → Ordered R (insert_before test n xs)
  Ordered-insert_before test n [] trans above below o = (λ q m. absurd (ground arith), tt)
  Ordered-insert_before test n (x ∷ xs) trans above below o = elim (Bool-cases (test x)) [
    | inl e ↦ rw e (at_front e)
    | inr e ↦ rw e (
      λ q m. behind e q m,
      Ordered-insert_before test n xs trans (λ y m. above y (ground arith))
          (λ y m. below y (ground arith)) o.1,
    )
  ]
    where
      front_above : test x ≡ true → (q : ℕ) → has q (x ∷ xs) ≡ true → R n q
      front_above e q m = elim (Bool-cases (q == x)) [
        | inl s ↦ let q_eq : q ≡ x = ground arith in rw q_eq (above x (ground arith) e)
        | inr s ↦ trans n x q (above x (ground arith) e) (o.0 q (ground arith))
      ]

      at_front : test x ≡ true → Ordered R (n ∷ x ∷ xs)
      at_front e = (front_above e, o)

      behind : test x ≡ false → (q : ℕ) → has q (insert_before test n xs) ≡ true → R x q
      behind e q m = elim (Bool-cases (q == n)) [
        | inl s ↦ let q_eq : q ≡ n = ground arith in rw q_eq (below x (ground arith) e)
        | inr s ↦ o.0 q (ground (arith, has-insert_before test n q xs))
      ]
