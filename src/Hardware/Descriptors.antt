-- ===== src/Hardware/Descriptors.antt =====
-- The segment and interrupt descriptors of kernel/k-hardware.c. The fields of a descriptor do not
-- overlap, so that `|` of them is a sum; `function` and `addr` are addresses of 64 bits.
use memory_management.Base.{
  ℕ, zero, suc, ◌+◌, ◌-◌, ◌*◌, ◌/◌, ◌%◌, ◌^◌, List, [], ◌∷◌, update, sub64,
}
use memory_management.Hardware.Keyboard.{set_bit}

-- Fields and types of x86-64.h.
abbrev seg_s : ℕ
seg_s = 2 ^ 44

abbrev seg_p : ℕ
seg_p = 2 ^ 47

abbrev seg_l : ℕ
seg_l = 2 ^ 53

abbrev seg_w : ℕ
seg_w = 2 * 2 ^ 40

abbrev seg_x : ℕ
seg_x = 8 * 2 ^ 40

abbrev seg_tss : ℕ
seg_tss = 9 * 2 ^ 40

abbrev pub gate_interrupt : ℕ
gate_interrupt = 14 * 2 ^ 40

abbrev pub segsel_kern_code : ℕ
segsel_kern_code = 8

abbrev segsel_app_code : ℕ
segsel_app_code = 0x10

abbrev segsel_kern_data : ℕ
segsel_kern_data = 0x18

abbrev segsel_app_data : ℕ
segsel_app_data = 0x20

abbrev segsel_taskstate : ℕ
segsel_taskstate = 0x28

-- `set_app_segment`: the descriptor.
unfoldable set_app_segment : (type dpl : ℕ) → ℕ
set_app_segment type dpl = type + seg_s + dpl * 2 ^ 45 + seg_p

-- `set_sys_segment`: the two words of the descriptor.
unfoldable pub set_sys_segment : (type dpl addr size : ℕ) → ℕ × ℕ
set_sys_segment type dpl addr size = (
  addr % 2 ^ 24 * 2 ^ 16
      + addr / 2 ^ 24 % 2 ^ 8 * 2 ^ 56
      + sub64 size 1 % 2 ^ 16
      + sub64 size 1 / 2 ^ 16 % 2 ^ 4 * 2 ^ 64 % 2 ^ 64
      + type
      + dpl * 2 ^ 45
      + seg_p,
  addr / 2 ^ 32,
)

-- `x86_64_gatedescriptor`
pub record Gate : Type 0 where
  pub gd_low : ℕ
  pub gd_high : ℕ

-- `set_gate`
unfoldable pub set_gate : (type dpl function : ℕ) → Gate
set_gate type dpl function = record {
  gd_low =
      function % 2 ^ 16
      + segsel_kern_code * 2 ^ 16
      + type
      + dpl * 2 ^ 45
      + seg_p
      + function / 2 ^ 16 % 2 ^ 16 * 2 ^ 48;
  gd_high = function / 2 ^ 32;
}

-- The routines that the gates name, and the address of `kernel_task_descriptor`; the linker puts
-- them in place.
pub record Handlers : Type 0 where
  pub default_int_handler : ℕ
  pub timer_int_handler : ℕ
  pub gpf_int_handler : ℕ
  pub pagefault_int_handler : ℕ
  pub sys_int_handlers : ℕ → ℕ
  pub task_descriptor : ℕ

-- `segments[7]`
unfoldable pub init_segments : Handlers → List ℕ
unfolding set_app_segment set_sys_segment
init_segments h =
    let task = set_sys_segment seg_tss 0 h.task_descriptor 104 in
    0
    ∷ set_app_segment (seg_x + seg_l) 0
    ∷ set_app_segment (seg_x + seg_l) 3
    ∷ set_app_segment seg_w 0
    ∷ set_app_segment seg_w 3
    ∷ task.0
    ∷ task.1
    ∷ []

-- A loop that sets the gates from `i` on, `left` of them.
unfoldable pub set_gates : (left i dpl : ℕ) → (handler : ℕ → ℕ) → (ℕ → Gate) → ℕ → Gate
unfolding set_gate
set_gates zero i dpl handler gates = gates
set_gates (suc left) i dpl handler gates =
    set_gates left (i + 1) dpl handler (update gates i (set_gate gate_interrupt dpl (handler i)))

-- The gates before those of the system calls.
unfoldable pub fault_gates : Handlers → ℕ → Gate
fault_gates h =
    let cleared : ℕ → Gate = λ i. record { gd_low = 0; gd_high = 0 } in
    let gates = set_gates 240 16 0 (λ i. h.default_int_handler) cleared in
    let timer = update gates 32 (set_gate gate_interrupt 0 h.timer_int_handler) in
    let gpf = update timer 13 (set_gate gate_interrupt 0 h.gpf_int_handler) in
    update gpf 14 (set_gate gate_interrupt 0 h.pagefault_int_handler)

-- `interrupt_descriptors[256]`, as `segments_init` fills it.
unfoldable pub init_gates : Handlers → ℕ → Gate
init_gates h = set_gates 16 48 3 (λ i. h.sys_int_handlers (i - 48)) (fault_gates h)

-- `ts_rsp[0]`
abbrev task_stack : ℕ
task_stack = 0x80000

-- The control register behind `segments_init`: CR0_PE, CR0_MP, CR0_NE, CR0_WP, CR0_AM and CR0_PG.
unfoldable pub init_control : (cr0 : ℕ) → ℕ
init_control cr0 = set_bit 31 (set_bit 18 (set_bit 16 (set_bit 5 (set_bit 1 (set_bit 0 cr0)))))
