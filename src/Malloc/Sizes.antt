-- ===== src/Malloc/Sizes.antt =====
-- The sizes that `malloc` of uspace/malloc.c computes: their alignment and their wrap-around.
use memory_management.Base.{
  ℕ, ◌+◌, ◌-◌, ◌%◌, ◌^◌, ◌≤◌, ◌<◌, ◌≡◌, arith, round_up, round_down, add64,
}
use memory_management.Malloc.Arena.{header}
use memory_management.Malloc.Ops.{required_size, chunk_size}

round_up_8 :
    (a : ℕ) → a < 2 ^ 63 → (round_up a 8 % 8 ≡ 0) × (a ≤ round_up a 8) × (round_up a 8 < a + 8)
unfolding round_up round_down
round_up_8 a h = (omega arith, omega arith, omega arith)

round_up_chunk :
    (a : ℕ)
    → a < 2 ^ 63
    → (round_up a 16384 % 16384 ≡ 0) × (a ≤ round_up a 16384) × (round_up a 16384 < a + 16384)
unfolding round_up round_down
round_up_chunk a h = (omega arith, omega arith, omega arith)

pub record Required (numbytes required : ℕ) : Type 0 where
  pub aligned : required % 8 ≡ 0
  pub fit : numbytes + header ≤ required
  pub tight : required < numbytes + header + 8

-- Below 2^62 bytes the required size is a multiple of 8 that holds the header and the bytes, and
-- fewer than 8 bytes more.
pub required_size-Required :
    (numbytes : ℕ) → numbytes < 2 ^ 62 → Required numbytes (required_size numbytes)
unfolding required_size
required_size-Required numbytes h =
    let e : add64 header numbytes ≡ header + numbytes = omega arith in
    let r = round_up_8 (header + numbytes) (omega arith) in
    rw e (record { aligned = r.0; fit = omega arith; tight = omega arith })

pub record Chunk (required chunk : ℕ) : Type 0 where
  pub aligned : chunk % 8 ≡ 0
  pub fit : required ≤ chunk
  pub tight : chunk < required + 16384

pub chunk_size-Chunk : (required : ℕ) → required < 2 ^ 63 → Chunk required (chunk_size required)
unfolding chunk_size
chunk_size-Chunk required h =
    let r = round_up_chunk required h in record { aligned = omega arith; fit = r.1; tight = r.2 }

-- For the 32 largest sizes of a `uint64_t` the sum with the header wraps: the required size is that
-- of a header or less, so a block of it has no room for a single byte.
pub required_size-wraps :
    (numbytes : ℕ)
    → 2 ^ 64 - header ≤ numbytes
    → numbytes < 2 ^ 64
    → required_size numbytes ≤ header
unfolding required_size round_up round_down
required_size-wraps numbytes lo hi = omega arith
