-- ===== src/Hardware/Gates.antt =====
-- About the descriptors that kernel/k-hardware.c sets up.
use memory_management.Base.{
  ℕ, zero, suc, ◌+◌, ◌-◌, ◌*◌, ◌/◌, ◌%◌, ◌^◌, ◌≤◌, ◌<◌, ◌≡◌, ◌&&◌, ◌⊎◌, ltb, leb, ◌==◌,
  if◌then◌else◌, update, sub64, arith,
}
use memory_management.Clib.Copy.{in_range}
use memory_management.Hardware.Descriptors.{
  Gate, set_gate, set_gates, Handlers, fault_gates, init_gates, set_sys_segment, gate_interrupt,
  segsel_kern_code,
}

-- The fields of a gate, as the processor reads them.
abbrev pub gate_function : Gate → ℕ
gate_function g = g.gd_low % 2 ^ 16 + g.gd_low / 2 ^ 48 * 2 ^ 16 + g.gd_high * 2 ^ 32

abbrev pub gate_selector : Gate → ℕ
gate_selector g = g.gd_low / 2 ^ 16 % 2 ^ 16

abbrev pub gate_type : Gate → ℕ
gate_type g = g.gd_low / 2 ^ 40 % 2 ^ 4

abbrev pub gate_dpl : Gate → ℕ
gate_dpl g = g.gd_low / 2 ^ 45 % 4

abbrev pub gate_present : Gate → ℕ
gate_present g = g.gd_low / 2 ^ 47 % 2

-- The processor reads from a gate what `set_gate` was given: the handler's address, the kernel's
-- code segment, the interrupt type, the privilege level, and that the gate is present.
set_gate_lem :
    (dpl function : ℕ)
    → dpl < 4
    → function < 2 ^ 64
    → (gate_function (set_gate gate_interrupt dpl function) ≡ function)
      × (gate_selector (set_gate gate_interrupt dpl function) ≡ segsel_kern_code)
      × (gate_type (set_gate gate_interrupt dpl function) ≡ 14)
      × (gate_dpl (set_gate gate_interrupt dpl function) ≡ dpl)
      × (gate_present (set_gate gate_interrupt dpl function) ≡ 1)
unfolding set_gate
set_gate_lem dpl function h k = (omega arith, omega arith, omega arith, omega arith, omega arith)

set_gates_lem :
    (left i dpl : ℕ) (handler : ℕ → ℕ) (gates : ℕ → Gate) (q : ℕ)
    → set_gates left i dpl handler gates q
      ≡ (if in_range i left q then set_gate gate_interrupt dpl (handler q) else gates q)
unfolding set_gates
set_gates_lem zero i dpl handler gates q = ground arith
set_gates_lem (suc left) i dpl handler gates q = ground (
  arith,
  set_gates_lem left (i + 1) dpl handler (update gates i (set_gate gate_interrupt dpl (handler i)))
      q,
)

-- Where each interrupt goes, and the privilege it needs.
abbrev pub handler_of : Handlers → ℕ → ℕ
handler_of h i =
    if leb 48 i && ltb i 64
    then h.sys_int_handlers (i - 48)
    else if i == 14
    then h.pagefault_int_handler
    else if i == 13
    then h.gpf_int_handler
    else if i == 32
    then h.timer_int_handler
    else h.default_int_handler

abbrev pub dpl_of : ℕ → ℕ
dpl_of i = if leb 48 i && ltb i 64 then 3 else 0

init_gates-set_gate :
    (h : Handlers) (i : ℕ)
    → i < 256
    → (16 ≤ i) ⊎ (i ≡ 13) ⊎ (i ≡ 14)
    → init_gates h i ≡ set_gate gate_interrupt (dpl_of i) (handler_of h i)
unfolding init_gates fault_gates
init_gates-set_gate h i small known =
    let cleared : ℕ → Gate = λ q. record { gd_low = 0; gd_high = 0 } in
    ground (
      arith,
      set_gates_lem 240 16 0 (λ q. h.default_int_handler) cleared i,
      set_gates_lem 16 48 3 (λ q. h.sys_int_handlers (q - 48)) (fault_gates h) i,
    )

-- Where the handlers' addresses have 64 bits, the processor reads from the gate of every interrupt
-- from 16 to 255, and of the two faults 13 and 14, the address of its handler, the kernel's code
-- segment, an interrupt gate that is present, and the privilege level that lets a program raise the
-- 16 system calls and no other of these.
pub init_gates_lem :
    (h : Handlers) (i : ℕ)
    → i < 256
    → (16 ≤ i) ⊎ (i ≡ 13) ⊎ (i ≡ 14)
    → handler_of h i < 2 ^ 64
    → let g = init_gates h i in
      (gate_function g ≡ handler_of h i)
      × (gate_selector g ≡ segsel_kern_code)
      × (gate_type g ≡ 14)
      × (gate_dpl g ≡ dpl_of i)
      × (gate_present g ≡ 1)
init_gates_lem h i small known address =
    rw (init_gates-set_gate h i small known)
      (set_gate_lem (dpl_of i) (handler_of h i) (ground arith) address)

-- The base and the limit of a system segment, as the processor reads them.
abbrev pub segment_base : ℕ × ℕ → ℕ
segment_base s = s.0 / 2 ^ 16 % 2 ^ 24 + s.0 / 2 ^ 56 * 2 ^ 24 + s.1 * 2 ^ 32

abbrev pub segment_limit : ℕ × ℕ → ℕ
segment_limit s = s.0 % 2 ^ 16 + s.0 / 2 ^ 48 % 16 * 2 ^ 16

-- The processor reads the base of a system segment as the address given, and its limit as the low
-- 16 bits of the size less one, which wraps around to 2^64 - 1 for the size 0: the four bits above
-- them are shifted out of the word.
pub set_sys_segment_lem :
    (t dpl addr size : ℕ)
    → t < 16
    → dpl < 4
    → addr < 2 ^ 64
    → (segment_base (set_sys_segment (t * 2 ^ 40) dpl addr size) ≡ addr)
      × (segment_limit (set_sys_segment (t * 2 ^ 40) dpl addr size) ≡ sub64 size 1 % 2 ^ 16)
unfolding set_sys_segment
set_sys_segment_lem t dpl addr size h k l = (omega arith, omega arith)
