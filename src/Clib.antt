-- ===== src/Clib.antt =====
-- shared/lib.c, the library of the kernel and of the programs.
pub mod Memory
pub mod Copy
pub mod Numbers
pub mod Strings
pub mod Random
pub mod Format
pub mod Printer
pub mod Console
pub mod Printed
pub mod Printers
pub mod Snprintf
