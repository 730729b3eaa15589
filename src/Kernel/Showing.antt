-- ===== src/Kernel/Showing.antt =====
-- About memshow_virtual_animate of kernel/kernel.c: which process it shows.
use memory_management.Base.{ℕ, ◌+◌, ◌%◌, ◌≤◌, ◌<◌, ◌≡◌, true, false}
use memory_management.Kernel.Process.{Proc}
use memory_management.Kernel.Schedule.{nproc}
use memory_management.Kernel.System.{System, is_p_free}

-- The loop stops at a process that is there, or all that it passed are free.
data Skipped (processes : ℕ → Proc) (left i r : ℕ) : Type 0 where
  found : is_p_free (processes (r % nproc)).p_state ≡ false → Skipped processes left i r
  all_free :
      ((j : ℕ) → i ≤ j → j < i + left → is_p_free (processes (j % nproc)).p_state ≡ true)
      → Skipped processes left i r
