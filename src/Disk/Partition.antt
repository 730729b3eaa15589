-- ===== src/Disk/Partition.antt =====
-- find_partition of build/mkbootdisk.c: the search for a partition of type 0x27 in the partition
-- table of a disk and in its extended partitions. A disk is a function of sector and byte.
use memory_management.Base.{
  ℕ, zero, suc, ◌+◌, ◌*◌, ◌%◌, ◌^◌, Bool, ◌&&◌, ◌||◌, Option, none, some, ◌==◌, if◌then◌else◌,
}
use memory_management.Base.Run.{Run, ok, out_of_fuel, ◌>>=◌}
use memory_management.Clib.Memory.{Memory}
use memory_management.Boot.Elf.{load}

-- `struct Partitiondesc`, with the fields that the search reads.
pub record PartitionDesc : Type 0 where
  pub type : ℕ
  pub lba_start : ℕ
  pub lba_length : ℕ

-- `ptable[i]` of a sector: entries of 16 bytes from PTABLE_OFFSET on.
unfoldable pub partition_desc : (buf : Memory) → (i : ℕ) → PartitionDesc
unfolding load
partition_desc buf i =
    let at = 446 + 16 * i in
    record {
      type = load 1 (at + 4) buf;
      lba_start = load 4 (at + 8) buf;
      lba_length = load 4 (at + 12) buf;
    }

-- The bytes 0x55 and 0xAA at PTABLE_MAGIC_OFFSET
abbrev pub has_magic : (buf : Memory) → Bool
has_magic buf = (buf 510 == 0x55) && (buf 511 == 0xAA)

-- PTYPE_JOS_KERN
abbrev pub jos_kern : ℕ
jos_kern = 0x27

-- PTYPE_DOS_EXTENDED, PTYPE_W95_EXTENDED and PTYPE_LINUX_EXTENDED
abbrev pub is_extended : ℕ → Bool
is_extended type = (type == 0x05) || (type == 0x0F) || (type == 0x85)

-- The sector and the length, in sectors, of the partition that is found.
pub record Partition : Type 0 where
  pub start : ℕ
  pub sectors : ℕ

-- `inner_sect`: the first extended partition, in which the others are numbered.
abbrev pub inner_sect : (extended_sect lba_start : ℕ) → ℕ
inner_sect extended_sect lba_start = if extended_sect == 0 then lba_start else extended_sect

-- The loop over the entries of the table in `buf`, the `left` last ones; `search` is the recursive
-- call.
unfoldable pub entry_loop :
    (search : (partition_sect extended_sect : ℕ) → Run (Option Partition)) (buf : Memory)
    → (left i partition_sect extended_sect : ℕ) → Run (Option Partition)
entry_loop search buf zero i partition_sect extended_sect = ok none
entry_loop search buf (suc left) i partition_sect extended_sect =
    let p = partition_desc buf i in
    let rest = entry_loop search buf left (i + 1) partition_sect extended_sect in
    if p.lba_length == 0
    then rest
    else if p.type == jos_kern
    then ok (some (record { start = partition_sect + p.lba_start; sectors = p.lba_length }))
    else if is_extended p.type
    then search (p.lba_start + extended_sect) (inner_sect extended_sect p.lba_start)
      >>= (λ r. elim r [ none ↦ rest | some found ↦ ok (some found) ])
    else rest

-- `find_partition`, to a depth of recursion; `readsect` takes a 32-bit sector.
unfoldable pub find_partition :
    (disk : ℕ → Memory) → (depth partition_sect extended_sect : ℕ) → Run (Option Partition)
unfolding entry_loop
find_partition disk zero partition_sect extended_sect = out_of_fuel
find_partition disk (suc depth) partition_sect extended_sect =
    let buf = disk (partition_sect % 2 ^ 32) in
    let search = entry_loop (find_partition disk depth) buf 4 0 partition_sect extended_sect in
    if has_magic buf then search else ok none
