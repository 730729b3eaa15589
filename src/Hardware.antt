-- ===== src/Hardware.antt =====
-- kernel/k-hardware.c and the hardware structures of shared/x86-64.h.
pub mod Interrupts
pub mod Descriptors
pub mod Gates
pub mod Pci
pub mod Devices
pub mod Keyboard
pub mod Parallel
pub mod Panic
pub mod Logged
pub mod Reboot
pub mod Keys
