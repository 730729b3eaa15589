-- ===== src/Clib/Random.antt =====
-- The random numbers of shared/lib.c.
use memory_management.Base.{ℕ, ◌+◌, ◌*◌, ◌%◌, ◌^◌, Bool, true, if◌then◌else◌}

-- `rand_seed_set` and `rand_seed`
pub record Random : Type 0 where
  pub rand_seed_set : Bool
  pub rand_seed : ℕ

unfoldable srand : (seed : ℕ) → Random
srand seed = record { rand_seed_set = true; rand_seed = seed % 2 ^ 32 }

-- `rand`: the number and the state after it.
unfoldable rand : Random → ℕ × Random
unfolding srand
rand r =
    let r' = if r.rand_seed_set then r else srand 819234718 in
    let seed = (r'.rand_seed * 1664525 + 1013904223) % 2 ^ 32 in
    (seed % 2 ^ 31, record r' { rand_seed = seed })
