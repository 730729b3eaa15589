-- ===== src/Tests/Hardware.antt =====
-- kernel/k-hardware.c at concrete inputs.
use memory_management.Base.{
  ℕ, ◌+◌, ◌-◌, ◌*◌, ◌%◌, ◌^◌, ◌≡◌, refl, inl, false, some, List, [], ◌∷◌, ◌==◌, if◌then◌else◌,
  sub64, arith,
}
use memory_management.Base.Run.{Returns}
use memory_management.Clib.Printer.{printer_vprintf}
use memory_management.Clib.Printers.{record_putc}
use memory_management.Hardware.Panic.{Terminal, no_args, kernel_panic}
use memory_management.Hardware.Logged.{chars, Panicked, kernel_panic-Panicked}
use memory_management.Hardware.Descriptors.{Handlers, init_gates, segsel_kern_code, set_sys_segment}
use memory_management.Hardware.Gates.{
  gate_function, gate_selector, gate_type, gate_dpl, gate_present, handler_of, dpl_of,
  init_gates_lem, segment_base, segment_limit, set_sys_segment_lem,
}
use memory_management.Hardware.Pci.{pci_find_device}
use memory_management.Hardware.Devices.{Found, pci_find_device-Found}
use memory_management.Hardware.Keyboard.{Keyboard, keyboard_readc}
use memory_management.Hardware.Keys.{Read, IsKeyboard, keyboard_readc-Read}

abbrev handlers : Handlers
handlers = record {
  default_int_handler = 0x40010;
  timer_int_handler = 0x40020;
  gpf_int_handler = 0x40030;
  pagefault_int_handler = 0x40040;
  sys_int_handlers = λ i. 0x41000 + 16 * i;
  task_descriptor = 0x50000;
}

init_gates_lem_example :
    let g = init_gates handlers 50 in
    (gate_function g ≡ handler_of handlers 50)
    × (gate_selector g ≡ segsel_kern_code)
    × (gate_type g ≡ 14)
    × (gate_dpl g ≡ dpl_of 50)
    × (gate_present g ≡ 1)
init_gates_lem_example = init_gates_lem handlers 50 (omega arith) (inl (omega arith)) (omega arith)

set_sys_segment_lem_example :
    (segment_base (set_sys_segment (9 * 2 ^ 40) 0 0x50000 0x20000) ≡ 0x50000)
    × (segment_limit (set_sys_segment (9 * 2 ^ 40) 0 0x50000 0x20000) ≡ sub64 0x20000 1 % 2 ^ 16)
set_sys_segment_lem_example =
    set_sys_segment_lem 9 0 0x50000 0x20000 (omega arith) (omega arith) (omega arith)

-- One device, at bus 0, slot 1, function 3.
abbrev config : ℕ → ℕ
config a =
    if a == 0x80000B00 then 0x71138086 else if a == 0x80000800 then 0x70008086 else 2 ^ 32 - 1

pci_find_device-Found_example :
    Found config (0x8086 + 0x7113 * 2 ^ 16) (pci_find_device config 0x8086 0x7113)
pci_find_device-Found_example = pci_find_device-Found config 0x8086 0x7113

-- Shift is held down.
abbrev shifted : Keyboard
shifted = record { modifiers = 1; last_escape = 0 }

shifted-IsKeyboard : IsKeyboard shifted
shifted-IsKeyboard = record { modifiers = omega arith; last_escape = inl refl }

letter : keyboard_readc 1 0x1E shifted ≡ some (some b'A', shifted)
unfolding keyboard_readc
letter = refl

keyboard_readc-Read_example : Read (keyboard_readc 1 0x1E shifted)
keyboard_readc-Read_example = keyboard_readc-Read 1 0x1E shifted (omega arith) shifted-IsKeyboard

-- A port that is never busy in the code's sense, and one conversion.
abbrev format : List ℕ
format = b'i' ∷ b'=' ∷ b'%' ∷ b'd' ∷ []

abbrev terminal : Terminal
terminal = record {
  port = record { initialized = false; reads = 0; writes = [] };
  console = λ q. 0;
}

kernel_panic-Panicked_example :
    Returns
      (λ out.
        Returns
          (Panicked (λ r. 0) (chars out) terminal)
          (kernel_panic (λ r. 0) (some format) no_args terminal))
      (printer_vprintf record_putc 0 format no_args [])
kernel_panic-Panicked_example = kernel_panic-Panicked (λ r. 0) format no_args terminal
