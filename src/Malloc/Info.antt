-- ===== src/Malloc/Info.antt =====
-- About the two loops of heap_info of uspace/malloc.c.
use mathlib.Core.Path.{subst}
use memory_management.Base.{
  ℕ, zero, suc, ◌+◌, ◌%◌, ◌^◌, ◌<◌, ◌≡◌, refl, ◌∙◌, sym, inl, inr, true, false, not, ◌&&◌, some,
  List, [], ◌∷◌, length, arith, ◌==◌, leb, if◌then◌else◌, if-cases, Bool-cases, has, erase,
  has-erase, length-erase, Distinct, Distinct-erase, ◌≤◌,
}
use memory_management.Base.Ordered.{Ordered}
use memory_management.Malloc.Links.{Ptr, null}
use memory_management.Malloc.Chain.{Chain}
use memory_management.Malloc.Arena.{Arena}
use memory_management.Clib.Memory.{Memory}
use memory_management.Malloc.Ops.{add_int, int_ge, free_loop, store_entry, entries_loop}
use memory_management.Malloc.Entries.{store_entries}

-- The sum of the sizes, and the largest one, of a list of blocks.
abbrev pub total : (Ptr → ℕ) → List Ptr → ℕ
total size [] = 0
total size (x ∷ xs) = size x + total size xs

abbrev pub largest : (Ptr → ℕ) → List Ptr → ℕ
largest size [] = 0
largest size (x ∷ xs) = let rest = largest size xs in if leb rest (size x) then size x else rest

abbrev pub larger : ℕ → ℕ → ℕ
larger m n = if leb m n then n else m

pub free_loop-total :
    (fuel b p t space most : ℕ) (a : Arena) (xs : List Ptr)
    → Chain a.links b p t xs
    → length xs < fuel
    → ((q : Ptr) → has q xs ≡ true → a.size q < 2 ^ 31)
    → space < 2 ^ 32
    → most < 2 ^ 31
    → free_loop fuel p a space most
      ≡ some ((space + total a.size xs) % 2 ^ 32, larger most (largest a.size xs))
unfolding free_loop
free_loop-total zero b p t space most a xs c h small low low' = absurd (omega arith)
free_loop-total (suc k) b p t space most a [] c h small low low' =
    let e : (p == null) ≡ true = ground arith in
    let sum : (space + 0) % 2 ^ 32 ≡ space = omega arith in
    let most_eq : larger most 0 ≡ most = ground arith in rw (e, sum, most_eq) refl
free_loop-total (suc k) b p t space most a (x ∷ xs) c h small low low' =
    let e : (p == null) ≡ false = ground arith in
    let p_eq : p ≡ x = c.0 in
    let n = small x (ground arith) in
    let ih =
      free_loop-total k x (a.links.next x) t (add_int space (a.size x)) (larger most (a.size x)) a
        xs c.4 (omega arith) (λ q m. small q (ground arith)) (omega arith) (ground arith) in
    let word : a.size x % 2 ^ 32 ≡ a.size x = omega arith in
    let pick : (if int_ge (a.size x % 2 ^ 32) most then a.size x % 2 ^ 32 else most)
        ≡ larger most (a.size x) =
      ground arith in
    let rest = total a.size xs in
    let sum : (add_int space (a.size x) + rest) % 2 ^ 32 ≡ (space + (a.size x + rest)) % 2 ^ 32 =
      omega arith in
    let most_eq : larger (larger most (a.size x)) (largest a.size xs)
        ≡ larger most (largest a.size (x ∷ xs)) =
      ground arith in
    rw (e, p_eq, pick) (ih ∙ λ i. some (sum i, most_eq i))

-- The blocks of a list but two.
abbrev pub others : (s1 s2 : Ptr) → List Ptr → List Ptr
others s1 s2 [] = []
others s1 s2 (x ∷ xs) =
    let rest = others s1 s2 xs in if not (x == s1) && not (x == s2) then x ∷ rest else rest

pub has-others :
    (s1 s2 q : Ptr) (xs : List Ptr)
    → has q (others s1 s2 xs) ≡ (has q xs && not (q == s1) && not (q == s2))
has-others s1 s2 q [] = refl
has-others s1 s2 q (x ∷ xs) = ground (arith, has-others s1 s2 q xs)

pub Ordered-others :
    (R : ℕ → ℕ → Type 0) (s1 s2 : Ptr) (xs : List Ptr) → Ordered R xs → Ordered R (others s1 s2 xs)
Ordered-others R s1 s2 [] o = tt
Ordered-others R s1 s2 (x ∷ xs) o =
    if-cases (Ordered R) (not (x == s1) && not (x == s2))
      (λ e. (λ q m. o.0 q (ground (arith, has-others s1 s2 q xs)), Ordered-others R s1 s2 xs o.1))
      (λ e. Ordered-others R s1 s2 xs o.1)

pub length-others :
    (s1 s2 : Ptr) (xs bs : List Ptr)
    → Distinct xs
    → Distinct bs
    → ((q : Ptr) → has q (others s1 s2 xs) ≡ true → has q bs ≡ true)
    → length (others s1 s2 xs) ≤ length bs
length-others s1 s2 [] bs d e within = omega arith
length-others s1 s2 (x ∷ xs) bs d e within = elim (Bool-cases (not (x == s1) && not (x == s2))) [
  | inl f ↦
      let mem : has x bs ≡ true = within x (ground (arith, f)) in
      let rest =
        length-others s1 s2 xs (erase x bs) d.1 (Distinct-erase x bs e)
          (λ q m. ground (arith, within q, has-erase x q bs e, has-others s1 s2 q xs, d.0, f, m)) in
      let shorter = length-erase x bs mem in rw f (omega (arith, rest, shorter))
  | inr f ↦ rw f (length-others s1 s2 xs bs d.1 e (λ q m. within q (ground (arith, f, m))))
]

pub entries_loop-others :
    (fuel b p t s1 s2 sa pa i : ℕ) (a : Arena) (xs : List Ptr) (m : Memory)
    → Chain a.links b p t xs
    → length xs < fuel
    → entries_loop fuel p s1 s2 sa pa i a m
      ≡ some (store_entries sa pa i a.alloc_bytes (others s1 s2 xs) m)
unfolding entries_loop store_entries
entries_loop-others zero b p t s1 s2 sa pa i a xs m c h = absurd (omega arith)
entries_loop-others (suc k) b p t s1 s2 sa pa i a [] m c h =
    let e : (p == null) ≡ true = ground arith in rw e refl
entries_loop-others (suc k) b p t s1 s2 sa pa i a (x ∷ xs) m c h =
    let e : (p == null) ≡ false = ground arith in
    let p_eq : p ≡ x = c.0 in
    let next : Chain a.links x (a.links.next p) t xs =
      subst (λ y. Chain a.links x (a.links.next y) t xs) (sym p_eq) c.4 in
    elim (Bool-cases (not (x == s1) && not (x == s2))) [
      | inl f ↦
          let ih =
            entries_loop-others k x (a.links.next p) t s1 s2 sa pa (i + 1) a xs
              (store_entry sa pa i p (a.alloc_bytes p) m) next (omega arith) in
          rw (e, ih) (rw (p_eq, f) refl)
      | inr f ↦
          let ih =
            entries_loop-others k x (a.links.next p) t s1 s2 sa pa i a xs m next (omega arith) in
          rw (e, ih) (rw (p_eq, f) refl)
    ]
