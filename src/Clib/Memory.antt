-- ===== src/Clib/Memory.antt =====
-- The memory functions of shared/lib.c, over a memory of bytes. Each loop recurs on the number of
-- bytes left, as its counter does.
use memory_management.Base.{ℕ, zero, suc, ◌+◌, ◌%◌, ◌&&◌, ltb, if◌then◌else◌, update}

-- The byte at each address.
abbrev pub Memory : Type 0
Memory = ℕ → ℕ

unfoldable pub memcpy_loop : ℕ → (d s : ℕ) → Memory → Memory
memcpy_loop zero d s m = m
memcpy_loop (suc n) d s m = memcpy_loop n (d + 1) (s + 1) (update m d (m s))

unfoldable pub memcpy : (dst src n : ℕ) → Memory → Memory
unfolding memcpy_loop
memcpy dst src n m = memcpy_loop n dst src m

-- The loop of `memmove` that goes down: `d` and `s` stand behind the bytes that are left.
unfoldable pub memmove_down : ℕ → (d s : ℕ) → Memory → Memory
memmove_down zero d s m = m
memmove_down (suc n) d s m = memmove_down n d s (update m (d + n) (m (s + n)))

unfoldable pub memmove : (dst src n : ℕ) → Memory → Memory
unfolding memmove_down memcpy_loop
memmove dst src n m =
    if ltb src dst && ltb dst (src + n) then memmove_down n dst src m else memcpy_loop n dst src m

unfoldable pub memset_loop : ℕ → (p c : ℕ) → Memory → Memory
memset_loop zero p c m = m
memset_loop (suc n) p c m = memset_loop n (p + 1) c (update m p (c % 256))

unfoldable pub memset : (v c n : ℕ) → Memory → Memory
unfolding memset_loop
memset v c n m = memset_loop n v c m
