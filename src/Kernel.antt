-- ===== src/Kernel.antt =====
-- The kernel: kernel/vm.c and kernel/kernel.c.
pub mod PageTable
pub mod Translate
pub mod Pages
pub mod Mapped
pub mod Registers
pub mod Process
pub mod System
pub mod Checks
pub mod Consistency
pub mod Syscalls
pub mod Display
pub mod Showing
pub mod Start
pub mod Identity
pub mod First
pub mod Started
pub mod Lasting
pub mod Loader
pub mod Loaded
pub mod Segment
pub mod Placed
pub mod Exception
pub mod Handled
pub mod Traps
pub mod Reached
pub mod Schedule
pub mod Breaks
pub mod UserBreak
