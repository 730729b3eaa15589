-- ===== src/Boot/Elf.antt =====
-- The structures of shared/elf.h, read from a memory of bytes.
use memory_management.Base.{ℕ, zero, suc, ◌+◌, ◌*◌, ◌%◌}
use memory_management.Clib.Memory.{Memory}

-- The little-endian number of `n` bytes at `a`.
unfoldable pub load : (n a : ℕ) → Memory → ℕ
load zero a m = 0
load (suc n) a m = m a % 256 + 256 * load n (a + 1) m

abbrev pub elf_magic : ℕ
elf_magic = 0x464C457F

-- `elf_header`, with the fields that a loader reads.
pub record ElfHeader : Type 0 where
  pub e_magic : ℕ
  pub e_entry : ℕ
  pub e_phoff : ℕ
  pub e_phnum : ℕ

unfoldable pub elf_header : (a : ℕ) → Memory → ElfHeader
unfolding load
elf_header a m = record {
  e_magic = load 4 a m;
  e_entry = load 8 (a + 0x18) m;
  e_phoff = load 8 (a + 0x20) m;
  e_phnum = load 2 (a + 0x38) m;
}

-- `elf_program`, with the fields that a loader reads.
pub record ElfProgram : Type 0 where
  pub p_type : ℕ
  pub p_flags : ℕ
  pub p_offset : ℕ
  pub p_va : ℕ
  pub p_filesz : ℕ
  pub p_memsz : ℕ

unfoldable pub elf_program : (a : ℕ) → Memory → ElfProgram
unfolding load
elf_program a m = record {
  p_type = load 4 a m;
  p_flags = load 4 (a + 4) m;
  p_offset = load 8 (a + 8) m;
  p_va = load 8 (a + 0x10) m;
  p_filesz = load 8 (a + 0x20) m;
  p_memsz = load 8 (a + 0x28) m;
}

-- `sizeof(elf_program)`
abbrev pub elf_program_size : ℕ
elf_program_size = 0x38
