-- ===== src/Base/Lists.antt =====
-- Lists measured by the native numbers, and lists of addresses.
use Prim.Native.Nat.{ℕ, zero, suc, ◌+◌, ◌-◌}
use mathlib.Core.Path.{◌≡◌, refl, ap}
use mathlib.Core.Bool.{Bool, true, false, not, ◌&&◌, ◌||◌}
use mathlib.Core.List.{List, [], ◌∷◌, ◌++◌}
use native.Mathlib.Omega.{arith}
use memory_management.Base.Tests.{◌==◌, if◌then◌else◌}

module _ {ℓ} {A : Type ℓ} where
  abbrev pub length : List A → ℕ
  length [] = 0
  length (x ∷ xs) = suc (length xs)

  pub length-append : (xs ys : List A) → length (xs ++ ys) ≡ length xs + length ys
  length-append [] ys = omega arith
  length-append (x ∷ xs) ys = omega (arith, length-append xs ys)

  abbrev pub All {κ} : (A → Type κ) → List A → Type κ
  All P [] = Unit
  All P (x ∷ xs) = P x × All P xs

module _ {ℓ} {A : Type ℓ} where
  abbrev pub take : ℕ → List A → List A
  take zero xs = []
  take (suc n) [] = []
  take (suc n) (x ∷ xs) = x ∷ take n xs

  abbrev pub drop : ℕ → List A → List A
  drop zero xs = xs
  drop (suc n) [] = []
  drop (suc n) (x ∷ xs) = drop n xs

  abbrev pub replicate : ℕ → A → List A
  replicate zero x = []
  replicate (suc n) x = x ∷ replicate n x

  pub take-append-drop : (n : ℕ) (xs : List A) → take n xs ++ drop n xs ≡ xs
  take-append-drop zero xs = refl
  take-append-drop (suc n) [] = refl
  take-append-drop (suc n) (x ∷ xs) = ap (λ ys. x ∷ ys) (take-append-drop n xs)

  pub length-drop : (n : ℕ) (xs : List A) → length (drop n xs) ≡ length xs - n
  length-drop zero xs = omega arith
  length-drop (suc n) [] = omega arith
  length-drop (suc n) (x ∷ xs) = omega (arith, length-drop n xs)

  pub length-take : (n : ℕ) (xs : List A) → length (take n xs) ≡ length xs - (length xs - n)
  length-take zero xs = omega arith
  length-take (suc n) [] = omega arith
  length-take (suc n) (x ∷ xs) = omega (arith, length-take n xs)

  length-replicate : (n : ℕ) (x : A) → length (replicate n x) ≡ n
  length-replicate zero x = refl
  length-replicate (suc n) x = omega (arith, length-replicate n x)

abbrev pub has : ℕ → List ℕ → Bool
has q [] = false
has q (x ∷ xs) = (q == x) || has q xs

-- Every address occurs once.
abbrev pub Distinct : List ℕ → Type 0
Distinct [] = Unit
Distinct (x ∷ xs) = (has x xs ≡ false) × Distinct xs

abbrev pub erase : ℕ → List ℕ → List ℕ
erase n [] = []
erase n (x ∷ xs) = if n == x then xs else x ∷ erase n xs

-- The list with `n` before the first element that passes the test.
abbrev pub insert_before : (ℕ → Bool) → ℕ → List ℕ → List ℕ
insert_before test n [] = n ∷ []
insert_before test n (x ∷ xs) = if test x then n ∷ x ∷ xs else x ∷ insert_before test n xs

pub has-insert_before :
    (test : ℕ → Bool) (n q : ℕ) (xs : List ℕ)
    → has q (insert_before test n xs) ≡ ((q == n) || has q xs)
has-insert_before test n q [] = refl
has-insert_before test n q (x ∷ xs) = ground (arith, has-insert_before test n q xs)

pub length-insert_before :
    (test : ℕ → Bool) (n : ℕ) (xs : List ℕ) → length (insert_before test n xs) ≡ suc (length xs)
length-insert_before test n [] = refl
length-insert_before test n (x ∷ xs) = ground (arith, length-insert_before test n xs)

Distinct-insert_before :
    (test : ℕ → Bool) (n : ℕ) (xs : List ℕ)
    → has n xs ≡ false
    → Distinct xs
    → Distinct (insert_before test n xs)
Distinct-insert_before test n [] out d = (refl, tt)
Distinct-insert_before test n (x ∷ xs) out d =
    ground (arith, Distinct-insert_before test n xs, has-insert_before test n x xs)

pub has-erase :
    (n q : ℕ) (xs : List ℕ) → Distinct xs → has q (erase n xs) ≡ (not (q == n) && has q xs)
has-erase n q [] d = ground arith
has-erase n q (x ∷ xs) d = ground (arith, has-erase n q xs)

pub length-erase : (n : ℕ) (xs : List ℕ) → has n xs ≡ true → suc (length (erase n xs)) ≡ length xs
length-erase n [] h = absurd (ground arith)
length-erase n (x ∷ xs) h = ground (arith, length-erase n xs)

pub Distinct-erase : (n : ℕ) (xs : List ℕ) → Distinct xs → Distinct (erase n xs)
Distinct-erase n [] d = tt
Distinct-erase n (x ∷ xs) d = ground (arith, Distinct-erase n xs, has-erase n x xs)
