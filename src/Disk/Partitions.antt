-- ===== src/Disk/Partitions.antt =====
-- About find_partition of build/mkbootdisk.c: it finds a partition exactly where there is one.
use memory_management.Base.{ℕ, ◌+◌, ◌%◌, ◌^◌, ◌≤◌, ◌<◌, ◌≡◌, ◌≢◌, true, Option, none, some}
use memory_management.Base.Run.{Run}
use memory_management.Clib.Memory.{Memory}
use memory_management.Disk.Partition.{
  PartitionDesc, partition_desc, has_magic, jos_kern, is_extended, Partition, inner_sect,
}

module _ (disk : ℕ → Memory) where
  -- The entry `i` of the table in a sector.
  abbrev desc : (sect i : ℕ) → PartitionDesc
  desc sect i = partition_desc (disk (sect % 2 ^ 32)) i

  -- An entry of a table that leads to an extended partition.
  pub record Link (sect i : ℕ) : Type 0 where
    pub magic : has_magic (disk (sect % 2 ^ 32)) ≡ true
    pub slot : i < 4
    pub used : (desc sect i).lba_length ≢ 0
    pub other : (desc sect i).type ≢ jos_kern
    pub extended : is_extended (desc sect i).type ≡ true

  -- A partition of the type that is looked for, in the table of a sector or in one of its
  -- extended partitions. `ext` is the sector that those are numbered from.
  pub data Present : (sect ext : ℕ) → Partition → Type 0 where
    listed :
        {sect ext : ℕ} {p : Partition} (i : ℕ)
        → has_magic (disk (sect % 2 ^ 32)) ≡ true
        → i < 4
        → (desc sect i).lba_length ≢ 0
        → (desc sect i).type ≡ jos_kern
        → p ≡ record { start = sect + (desc sect i).lba_start; sectors = (desc sect i).lba_length }
        → Present sect ext p
    nested :
        {sect ext : ℕ} {p : Partition} (i : ℕ)
        → Link sect i
        → Present ((desc sect i).lba_start + ext) (inner_sect ext (desc sect i).lba_start) p
        → Present sect ext p

  -- The result of a search: a partition that is present, or none at all is.
  abbrev pub Searched : (sect ext : ℕ) → Option Partition → Type 0
  Searched sect ext none = (p : Partition) → ¬ Present sect ext p
  Searched sect ext (some p) = Present sect ext p

  -- The searches that one leads to, through the links to extended partitions.
  pub data Visited (sect0 ext0 : ℕ) : (sect ext : ℕ) → Type 0 where
    first_table : Visited sect0 ext0 sect0 ext0
    inner_table :
        {sect ext : ℕ} (i : ℕ)
        → Visited sect0 ext0 sect ext
        → Link sect i
        → Visited sect0 ext0
            ((desc sect i).lba_start + ext)
            (inner_sect ext (desc sect i).lba_start)

  -- The links that a search follows do not go in a circle: each lowers `rank`.
  abbrev pub Falls : (sect0 ext0 : ℕ) (rank : ℕ → ℕ → ℕ) → Type 0
  Falls sect0 ext0 rank =
      (sect ext i : ℕ)
      → Visited sect0 ext0 sect ext
      → Link sect i
      → rank ((desc sect i).lba_start + ext) (inner_sect ext (desc sect i).lba_start)
        < rank sect ext

  -- The entry `j` gives no partition.
  abbrev Clear : (sect ext j : ℕ) → Type 0
  Clear sect ext j =
      ((desc sect j).lba_length ≢ 0 → (desc sect j).type ≢ jos_kern)
      × (Link sect j
          → (p : Partition)
          → ¬ Present ((desc sect j).lba_start + ext) (inner_sect ext (desc sect j).lba_start) p)

  -- The result of the loop from the entry `i` on.
  abbrev SearchedFrom : (sect ext i : ℕ) → Option Partition → Type 0
  SearchedFrom sect ext i none = (j : ℕ) → i ≤ j → j < 4 → Clear sect ext j
  SearchedFrom sect ext i (some p) = Present sect ext p
