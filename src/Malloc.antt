-- ===== src/Malloc.antt =====
-- The allocator of uspace/malloc.c.
pub mod Links
pub mod Chain
pub mod Insert
pub mod Remove
pub mod Arena
pub mod Ops
pub mod Invariant
pub mod Lists
pub mod Detach
pub mod Search
pub mod Carve
pub mod Sizes
pub mod Allocate
pub mod Free
pub mod Calloc
pub mod Realloc
pub mod Entries
pub mod Info
pub mod Listing
pub mod Informed
pub mod Suffix
pub mod Defrag
