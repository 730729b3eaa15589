-- ===== src/Clib/Copy.antt =====
-- What the memory functions of shared/lib.c write: every byte of the memory after the call.
use memory_management.Base.{
  ℕ, zero, suc, ◌+◌, ◌-◌, ◌%◌, ◌≤◌, ◌≡◌, ◌⊎◌, ◌∙◌, dec_lt, ℕ_discrete, arith, ◌&&◌, Bool, ltb, leb,
  if◌then◌else◌, update, Bool-cases, inl, inr,
}
use memory_management.Clib.Memory.{
  Memory, memcpy, memcpy_loop, memmove, memmove_down, memset, memset_loop,
}

-- `lo ≤ q < lo + n`
abbrev pub in_range : (lo n q : ℕ) → Bool
in_range lo n q = leb lo q && ltb q (lo + n)

-- The memory `m` with the `n` bytes from `src` put at `dst`.
abbrev pub copied : (dst src n : ℕ) → Memory → Memory
copied dst src n m q = if in_range dst n q then m (src + (q - dst)) else m q

memset_loop_lem :
    (n v c : ℕ) (m : Memory) (q : ℕ)
    → memset_loop n v c m q ≡ (if in_range v n q then c % 256 else m q)
unfolding memset_loop
memset_loop_lem zero v c m q = ground arith
memset_loop_lem (suc n) v c m q =
    ground (arith, memset_loop_lem n (v + 1) c (update m v (c % 256)) q)

-- `memset` writes the low byte of `c` to the `n` bytes from `v` on, and nothing else.
pub memset_lem :
    (v c n : ℕ) (m : Memory) (q : ℕ) → memset v c n m q ≡ (if in_range v n q then c % 256 else m q)
unfolding memset
memset_lem v c n m q = memset_loop_lem n v c m q

-- A copy upwards is right where it does not write a byte that it has still to read.
memcpy_loop_lem :
    (n d s : ℕ) (m : Memory) (q : ℕ)
    → (d ≤ s) ⊎ (s + n ≤ d)
    → memcpy_loop n d s m q ≡ copied d s n m q
unfolding memcpy_loop
memcpy_loop_lem zero d s m q h = ground arith
memcpy_loop_lem (suc n) d s m q h =
    let ih = memcpy_loop_lem n (d + 1) (s + 1) (update m d (m s)) q (ground arith) in
    elim (dec_lt d q) [
      | yes later ↦
          let at : s + 1 + (q - (d + 1)) ≡ s + (q - d) = omega arith in ih ∙ rw at (ground arith)
      | no early ↦ elim (ℕ_discrete q d) [
        | yes here ↦ let at : s + (q - d) ≡ s = omega arith in ih ∙ rw at (ground arith)
        | no other ↦ ih ∙ ground arith
      ]
    ]

-- `memcpy` copies the `n` bytes from `src` to `dst` and writes nothing else, if the ranges do not
-- overlap or the destination does not lie behind the source.
pub memcpy_lem :
    (dst src n : ℕ) (m : Memory) (q : ℕ)
    → (dst ≤ src) ⊎ (src + n ≤ dst)
    → memcpy dst src n m q ≡ copied dst src n m q
unfolding memcpy
memcpy_lem dst src n m q h = memcpy_loop_lem n dst src m q h

memmove_down_lem :
    (n d s : ℕ) (m : Memory) (q : ℕ) → s ≤ d → memmove_down n d s m q ≡ copied d s n m q
unfolding memmove_down
memmove_down_lem zero d s m q h = ground arith
memmove_down_lem (suc n) d s m q h =
    let ih = memmove_down_lem n d s (update m (d + n) (m (s + n))) q h in
    elim (ℕ_discrete q (d + n)) [
      | yes here ↦ let at : s + (q - d) ≡ s + n = omega arith in ih ∙ rw at (ground arith)
      | no other ↦ ih ∙ ground arith
    ]

-- `memmove` copies the `n` bytes from `src` to `dst` and writes nothing else, also where the
-- ranges overlap.
pub memmove_lem :
    (dst src n : ℕ) (m : Memory) (q : ℕ) → memmove dst src n m q ≡ copied dst src n m q
unfolding memmove
memmove_lem dst src n m q = elim (Bool-cases (ltb src dst && ltb dst (src + n))) [
  | inl e ↦ rw e (memmove_down_lem n dst src m q (ground arith))
  | inr e ↦ rw e (memcpy_loop_lem n dst src m q (ground arith))
]
