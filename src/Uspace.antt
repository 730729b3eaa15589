-- ===== src/Uspace.antt =====
-- The runtime of user processes: uspace/process.c and uspace/process.h.
pub mod Print
pub mod Panics
pub mod Calls
pub mod Called
