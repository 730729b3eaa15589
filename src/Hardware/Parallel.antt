-- ===== src/Hardware/Parallel.antt =====
-- The parallel port of kernel/k-hardware.c, which QEMU writes to a log file, and log_vprintf. A byte
-- read from a port is a function of the number of reads so far.
use memory_management.Base.{
  ℕ, zero, suc, ◌+◌, ◌/◌, ◌%◌, Bool, true, List, [], ◌∷◌, ◌++◌, ◌==◌, if◌then◌else◌,
}
use memory_management.Base.Run.{Run}
use memory_management.Clib.Format.{VaList}
use memory_management.Clib.Printer.{printer_vprintf}
use memory_management.Hardware.Interrupts.{Outb, outb}

-- IO_PARALLEL1_DATA and IO_PARALLEL1_CONTROL
abbrev pub parallel_data : ℕ
parallel_data = 0x378

abbrev pub parallel_control : ℕ
parallel_control = 0x37A

-- `initialized`, the reads of ports so far, and the writes.
pub record ParallelPort : Type 0 where
  pub initialized : Bool
  pub reads : ℕ
  pub writes : List Outb

-- The writes before the first character.
abbrev pub prepare : ParallelPort → List Outb
prepare p = if p.initialized then p.writes else p.writes ++ outb parallel_control 0 ∷ []

module _ (inb : (read : ℕ) → ℕ) where
  -- The loop that waits for the port, with the rounds left: the reads after it. `delay` reads four
  -- times.
  unfoldable wait_loop : (left reads : ℕ) → ℕ
  wait_loop zero reads = reads
  wait_loop (suc left) reads =
      let rest = wait_loop left (reads + 1 + 4) in
      if inb reads / 128 % 2 == 0 then rest else reads + 1

  unfoldable pub parallel_port_putc : ParallelPort → (c color : ℕ) → ParallelPort
  unfolding wait_loop
  parallel_port_putc p c color = record {
    initialized = true;
    reads = wait_loop 12800 p.reads;
    writes =
        prepare p
        ++ outb parallel_data (c % 256)
          ∷ outb parallel_control 0x0D
          ∷ outb parallel_control 0x0C
          ∷ [];
  }

  unfoldable pub log_vprintf : (format : List ℕ) → VaList → ParallelPort → Run ParallelPort
  unfolding printer_vprintf parallel_port_putc
  log_vprintf format v p = printer_vprintf parallel_port_putc 0 format v p
