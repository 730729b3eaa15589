-- ===== src/Base/Words.antt =====
-- 64-bit words as native numbers, with the wrap-around of `uintptr_t` and `size_t`, and the
-- rounding macros of shared/lib.h.
use Prim.Native.Nat.{ℕ, ◌+◌, ◌-◌, ◌*◌, ◌%◌, ◌^◌}

abbrev pub word : ℕ
word = 2 ^ 64

-- `(void *) -1` and `(uintptr_t) -1`
abbrev pub minus_one : ℕ
minus_one = 2 ^ 64 - 1

abbrev pub add64 : ℕ → ℕ → ℕ
add64 a b = (a + b) % word

abbrev pub sub64 : ℕ → ℕ → ℕ
sub64 a b = (a + word - b) % word

abbrev pub mul64 : ℕ → ℕ → ℕ
mul64 a b = (a * b) % word

unfoldable pub round_down : ℕ → ℕ → ℕ
round_down a n = sub64 a (a % n)

unfoldable pub round_up : ℕ → ℕ → ℕ
round_up a n = round_down (sub64 (add64 a n) 1) n
