-- ===== src/Boot.antt =====
-- The boot loader, kernel/boot.c, with the ELF structures of shared/elf.h.
pub mod Elf
pub mod Loader
pub mod Segments
