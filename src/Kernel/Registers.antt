-- ===== src/Kernel/Registers.antt =====
-- The registers of a process: `x86_64_registers` of shared/x86-64.h, without its padding.
use memory_management.Base.{ℕ}

pub record Registers : Type 0 where
  pub reg_rax : ℕ
  pub reg_rcx : ℕ
  pub reg_rdx : ℕ
  pub reg_rbx : ℕ
  pub reg_rbp : ℕ
  pub reg_rsi : ℕ
  pub reg_rdi : ℕ
  pub reg_r8 : ℕ
  pub reg_r9 : ℕ
  pub reg_r10 : ℕ
  pub reg_r11 : ℕ
  pub reg_r12 : ℕ
  pub reg_r13 : ℕ
  pub reg_r14 : ℕ
  pub reg_r15 : ℕ
  pub reg_fs : ℕ
  pub reg_gs : ℕ
  pub reg_intno : ℕ
  pub reg_err : ℕ
  pub reg_rip : ℕ
  pub reg_cs : ℕ
  pub reg_rflags : ℕ
  pub reg_rsp : ℕ
  pub reg_ss : ℕ

-- `memset(&p->p_registers, 0, sizeof(p->p_registers))`
abbrev pub zero_registers : Registers
zero_registers = record {
  reg_rax = 0;
  reg_rcx = 0;
  reg_rdx = 0;
  reg_rbx = 0;
  reg_rbp = 0;
  reg_rsi = 0;
  reg_rdi = 0;
  reg_r8 = 0;
  reg_r9 = 0;
  reg_r10 = 0;
  reg_r11 = 0;
  reg_r12 = 0;
  reg_r13 = 0;
  reg_r14 = 0;
  reg_r15 = 0;
  reg_fs = 0;
  reg_gs = 0;
  reg_intno = 0;
  reg_err = 0;
  reg_rip = 0;
  reg_cs = 0;
  reg_rflags = 0;
  reg_rsp = 0;
  reg_ss = 0;
}
