-- ===== src/Disk.antt =====
-- The disk image builder, build/mkbootdisk.c.
pub mod Writer
pub mod Written
pub mod Image
pub mod Layout
pub mod Partition
pub mod Partitions
pub mod Command
