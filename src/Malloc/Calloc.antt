-- ===== src/Malloc/Calloc.antt =====
-- About `calloc` of uspace/malloc.c: the overflow check, and the bytes it clears.
use memory_management.Base.{
  ℕ, ◌+◌, ◌*◌, ◌/◌, ◌^◌, ◌≤◌, ◌<◌, ◌≡◌, refl, ap, lt→ltb, ◌≢◌, true, false, ◌||◌, List, arith, ◌==◌,
  ltb, if◌then◌else◌, has, mul64, minus_one, Bool-cases, inl, inr, ◌∙◌,
}
use native.Mathlib.Nat.{div-lt_iff_lt-mul, mul_comm}
use memory_management.Base.Run.{ok, Returns, returns, Returns-bind}
use memory_management.Clib.Memory.{memset}
use memory_management.Clib.Copy.{in_range, memset_lem}
use memory_management.Malloc.Links.{Ptr, null}
use memory_management.Malloc.Arena.{Arena, header}
use memory_management.Malloc.Ops.{Breaks, calloc}
use memory_management.Malloc.Detach.{IsArena-payload}
use memory_management.Malloc.Allocate.{IsState, Malloced, failed, got, malloc-Malloced}

div-lt_of_lt_mul : (m n k : ℕ) → n ≢ 0 → m < n * k → m / n < k
div-lt_of_lt_mul m n k pos h =
    (div-lt_iff_lt-mul {k = n} {x = m} {y = k} (omega arith)).1 (rw (mul_comm k n) h)

module _ (os : Breaks) (a : Arena) (o : os.Os) where
  -- `calloc` refuses a product of its arguments that does not fit a word, and changes nothing.
  pub calloc-overflow : (num sz : ℕ) → 2 ^ 64 ≤ num * sz → calloc os num sz a o ≡ ok (null, a, o)
  unfolding calloc
  calloc-overflow num sz h = elim (Bool-cases ((num == 0) || (sz == 0))) [
    | inl e ↦ rw e
    | inr e ↦
        let pos : num ≢ 0 = ground arith in
        let over : ltb (minus_one / num) sz ≡ true =
          lt→ltb _ _ (div-lt_of_lt_mul minus_one num sz pos (omega arith)) in
        rw (e, over)
  ]

  module _ (fs bs : List Ptr) (num sz : ℕ) where
    -- How `calloc` ends: NULL and an unchanged arena, or a new block whose bytes are zero, and
    -- no other byte has changed.
    pub data Calloced (r : Ptr × Arena × os.Os) : Type 0 where
      refused : r.0 ≡ null → r.1 ≡ a → IsState os (r.1) (r.2) fs bs → Calloced r
      zeroed :
          (p : Ptr) (fs' bs' : List Ptr)
          → has p bs ≡ false
          → r.0 ≡ p + header
          → r.1.alloc_bytes p ≡ num * sz
          → ((q : Ptr) → has q bs' ≡ ((q == p) || has q bs))
          → ((q : ℕ) → r.1.payload q ≡ (if in_range r.0 (num * sz) q then 0 else a.payload q))
          → IsState os (r.1) (r.2) fs' bs'
          → Calloced r

    clear :
        (r : Ptr × Arena × os.Os)
        → Malloced os a o fs bs (num * sz) r
        → Returns Calloced (
            if r.0 == null
            then ok (null, r.1, r.2)
            else ok (r.0, (record r.1 { payload = memset r.0 0 (num * sz) r.1.payload }), r.2))
    clear r (failed z same v) =
        let hit : (r.0 == null) ≡ true = ground arith in rw hit (returns (refused refl same v))
    clear r (got p new c v) =
        let hit : (r.0 == null) ≡ false = ground (arith, c.result) in
        rw hit (
          returns (
            zeroed p c.fs' c.bs' new c.result c.bytes c.member
              (λ q.
                memset_lem r.0 0 (num * sz) r.1.payload q
                ∙ ground (arith, ap (λ (f : ℕ → ℕ). f q) c.payload))
              (record {
                arena = IsArena-payload r.1 (os.top r.2) c.fs' c.bs' _ v.arena;
                process = v.process;
                aligned = v.aligned;
              })))

    -- From a well-formed state and for fewer than 2^62 bytes in all, `calloc` returns NULL and
    -- leaves the arena as it was, or it returns a new block of `num * sz` zero bytes, changes no
    -- other byte, and keeps the state well formed.
    pub calloc-Calloced :
        IsState os a o fs bs → num * sz < 2 ^ 62 → Returns Calloced (calloc os num sz a o)
    unfolding calloc
    calloc-Calloced v small = elim (Bool-cases ((num == 0) || (sz == 0))) [
      | inl e ↦ rw e (returns (refused refl refl v))
      | inr e ↦ elim (Bool-cases (ltb (minus_one / num) sz)) [
        | inl f ↦ rw (e, f) (returns (refused refl refl v))
        | inr f ↦
            let product : mul64 num sz ≡ num * sz = omega arith in
            rw (e, f, product)
              (Returns-bind (malloc-Malloced os a o fs bs (num * sz) v small) clear)
      ]
    ]
