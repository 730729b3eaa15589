-- ===== src/Kernel/UserBreak.antt =====
-- An instance of the interface that the allocator takes, made of the kernel's `sbrk`: a program sees
-- the register that the call returns. It is not a model of a call that panics, from which no program
-- goes on; the instance refuses there.
use memory_management.Base.{ℕ, ◌+◌, ◌^◌, ◌<◌, ◌≡◌, refl, ◌⊎◌, inl, inr, minus_one, arith}
use memory_management.Base.Run.{Run, ok, fault, out_of_fuel, Settles, settled, faulted}
use memory_management.Kernel.Process.{Proc, Kernel, sbrk}
use memory_management.Kernel.Breaks.{IsProcess, Moved, refused, moved, sbrk-Moved}
use memory_management.Malloc.Ops.{Breaks}

abbrev pub answer : Proc → Kernel → Run (ℕ × Proc × Kernel) → ℕ × (Proc × Kernel)
answer p k (ok r) = (r.0, (r.1, r.2))
answer p k fault = (minus_one, (p, k))
answer p k out_of_fuel = (minus_one, (p, k))

abbrev pub user_sbrk : ℕ → Proc × Kernel → ℕ × (Proc × Kernel)
user_sbrk n (p, k) = answer p k (sbrk p n k)

answer-IsProcess :
    (p : Proc) (k : Kernel) (n : ℕ) (r : Run (ℕ × Proc × Kernel))
    → IsProcess p
    → Settles (Moved p n k) r
    → IsProcess ((answer p k r).1).0
answer-IsProcess p k n r v (settled (refused _ e)) = rw e v
answer-IsProcess p k n r v (settled (moved _ _ w _)) = w
answer-IsProcess p k n r v faulted = v

answer-grows :
    (p : Proc) (k : Kernel) (n : ℕ) (r : Run (ℕ × Proc × Kernel))
    → IsProcess p
    → n < 2 ^ 63
    → Settles (Moved p n k) r
    → (((answer p k r).0 ≡ minus_one) × ((((answer p k r).1).0).program_break ≡ p.program_break))
      ⊎ (((answer p k r).0 ≡ p.program_break)
          × ((((answer p k r).1).0).program_break ≡ p.program_break + n))
answer-grows p k n r v small (settled (refused _ e)) = rw e (inl (refl, refl))
answer-grows p k n r v small (settled (moved e0 e1 _ _)) = rw (e0, e1) (inr (refl, omega arith))
answer-grows p k n r v small faulted = inl (refl, refl)

-- For a process with its break in range and an increment below 2^63, the register after an `sbrk`
-- call holds -1 and the break has not moved, or it holds the old break and the break has grown by
-- the increment.
pub process-grows :
    (n : ℕ) (o : Proc × Kernel)
    → IsProcess o.0
    → n < 2 ^ 63
    → (((user_sbrk n o).0 ≡ minus_one)
        × ((((user_sbrk n o).1).0).program_break ≡ (o.0).program_break))
      ⊎ (((user_sbrk n o).0 ≡ (o.0).program_break)
          × ((((user_sbrk n o).1).0).program_break ≡ (o.0).program_break + n))
process-grows n (p, k) v small = answer-grows p k n (sbrk p n k) v small (sbrk-Moved p n k v)

pub IsProcess-keeps : (n : ℕ) (o : Proc × Kernel) → IsProcess o.0 → IsProcess ((user_sbrk n o).1).0
IsProcess-keeps n (p, k) v = answer-IsProcess p k n (sbrk p n k) v (sbrk-Moved p n k v)

pub process-pos : (o : Proc × Kernel) → IsProcess o.0 → 0 < (o.0).program_break
process-pos o v = omega (arith, v)

pub process-small : (o : Proc × Kernel) → IsProcess o.0 → (o.0).program_break < 2 ^ 62
process-small o v = omega (arith, v)

abbrev pub process_breaks : Breaks
process_breaks = record {
  Os = Proc × Kernel;
  sbrk = user_sbrk;
  top = λ o. (o.0).program_break;
  IsProcess = λ o. IsProcess o.0;
  sbrk-IsProcess = IsProcess-keeps;
  top_pos = process-pos;
  top_small = process-small;
  sbrk_grows = process-grows;
}
