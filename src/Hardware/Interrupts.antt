-- ===== src/Hardware/Interrupts.antt =====
-- The interrupt controllers, the timer and the other devices that kernel/k-hardware.c only writes
-- to. A function that writes to ports gives the writes in their order.
use memory_management.Base.{
  ℕ, ◌+◌, ◌-◌, ◌/◌, ◌%◌, ◌^◌, ◌||◌, ◌&&◌, Bool, List, [], ◌∷◌, ◌++◌, ◌==◌, ltb, leb, if◌then◌else◌,
}

-- `outb(port, data)`; the data is a `uint8_t`.
pub record Outb : Type 0 where
  pub port : ℕ
  pub byte : ℕ

abbrev pub outb : ℕ → ℕ → Outb
outb port v = record { port = port; byte = v % 256 }

-- `interrupt_mask`, from `interrupts_enabled`
unfoldable interrupt_mask : ℕ → List Outb
interrupt_mask enabled =
    let masked = 2 ^ 16 - 1 - enabled % 2 ^ 16 in
    outb 0x21 (masked % 256) ∷ outb 0xA1 (masked / 256 % 256) ∷ []

-- `interrupt_init`: `interrupts_enabled` after it, and its writes.
unfoldable pub interrupt_init : ℕ × List Outb
unfolding interrupt_mask
interrupt_init = (
  0,
  interrupt_mask 0
      ++ (outb 0x20 0x11
          ∷ outb 0x21 32
          ∷ outb 0x21 4
          ∷ outb 0x21 0x3
          ∷ outb 0xA0 0x11
          ∷ outb 0xA1 40
          ∷ outb 0xA1 2
          ∷ outb 0xA1 0x01
          ∷ outb 0x20 0x68
          ∷ outb 0x20 0x0A
          ∷ outb 0xA0 0x68
          ∷ outb 0xA0 0x0A
          ∷ interrupt_mask 0),
)

-- `TIMER_DIV(x)`
abbrev timer_div : ℕ → ℕ
timer_div rate = (1193182 + rate / 2) / rate

-- `timer_init`, for a rate given by its bit pattern: `interrupts_enabled`, and the writes. The
-- timer's interrupt is bit 0.
unfoldable pub timer_init : (rate enabled : ℕ) → ℕ × List Outb
unfolding interrupt_mask
timer_init rate enabled =
    if (rate == 0) || leb (2 ^ 31) rate
    then (enabled - enabled % 2, interrupt_mask (enabled - enabled % 2))
    else let on = enabled + (1 - enabled % 2) in
      (
        on,
        outb 0x43 0x34
            ∷ outb 0x40 (timer_div rate % 256)
            ∷ outb 0x40 (timer_div rate / 256)
            ∷ interrupt_mask on,
      )

-- `physical_memory_isreserved`
unfoldable pub physical_memory_isreserved : ℕ → Bool
physical_memory_isreserved pa = (pa == 0) || (leb 0xA0000 pa && ltb pa 0x100000)

-- `console_show_cursor`, for a position given by its bit pattern
unfoldable console_show_cursor : ℕ → List Outb
console_show_cursor cpos =
    let c : ℕ = if ltb 2000 cpos then 0 else cpos in
    outb 0x3D4 14 ∷ outb 0x3D5 (c / 256) ∷ outb 0x3D4 15 ∷ outb 0x3D5 (c % 256) ∷ []
