-- ===== src/Disk/Command.antt =====
-- do_multiboot and main of build/mkbootdisk.c.
use memory_management.Base.{
  ℕ, ◌-◌, ◌*◌, Bool, true, false, none, some, List, [], ◌∷◌, ◌==◌, leb, if◌then◌else◌, add64,
}
use memory_management.Base.Run.{Run, ok, fault, ◌>>=◌}
use memory_management.Clib.Strings.{same_text}
use memory_management.Boot.Elf.{elf_magic, elf_header, elf_program_size}
use memory_management.Disk.Writer.{Host, Writer, diskwrite}
use memory_management.Disk.Image.{write_image, write_files}
use memory_management.Disk.Partition.{find_partition}

-- A writer at the byte `base` of the output, with `maxoff`.
abbrev pub writer_at : (base maxoff : ℕ) → Writer
writer_at base maxoff = record { calls = 0; maxoff = maxoff; curoff = 0; base = base; out = [] }

-- `multiboot_header`: the magic number, 0, and the number that makes the sum 0, in little endian.
abbrev multiboot_header : List ℕ
multiboot_header = 0x02 ∷ 0xB0 ∷ 0xAD ∷ 0x1B ∷ 0 ∷ 0 ∷ 0 ∷ 0 ∷ 0xFE ∷ 0x4F ∷ 0x52 ∷ 0xE4 ∷ []

module _ (host : Host) (depth : ℕ) where
  -- `do_multiboot`: the header that it writes behind the program headers of an ELF file. It counts
  -- from `curoff` and `maxoff` as they are.
  unfoldable do_multiboot : (name : List ℕ) → Writer → Run Writer
  do_multiboot name w = elim (host.disk name) [
    | none ↦ fault
    | some sectors ↦ (do
      let header = elf_header 0 (sectors 0)
      let o = add64 header.e_phoff (elf_program_size * header.e_phnum)
      if header.e_magic == elf_magic
          then if leb (4096 - 12) o
            then fault
            else diskwrite host multiboot_header (record w { base = o })
          else fault)
  ]

  -- The arguments behind those of a partition: the image, or a multiboot header.
  unfoldable build : (special : Bool) → List (List ℕ) → Writer → Run Writer
  unfolding do_multiboot write_image write_files
  build special [] w = fault
  build special (arg ∷ args) w =
      if same_text arg (b'-' ∷ b'm' ∷ [])
      then elim args [ [] ↦ fault | name ∷ more ↦ do_multiboot name w ]
      else if special
      then write_image host arg args w
      else write_files host (arg ∷ args) 0 w

  -- The partition that `-p` names.
  unfoldable partition_writer : (name : List ℕ) → Run Writer
  unfolding find_partition
  partition_writer name = elim (host.disk name) [
    | none ↦ fault
    | some sectors ↦ (do
      r ← find_partition sectors depth 0 0
      elim r [ none ↦ fault | some p ↦ ok (writer_at (p.start * 512) (p.sectors * 512)) ])
  ]

  -- `main`, of its arguments without the name of the program.
  unfoldable main : List (List ℕ) → Run Writer
  unfolding build partition_writer
  main [] = build true [] (writer_at 0 0)
  main (arg ∷ args) =
      if same_text arg (b'-' ∷ b'p' ∷ [])
      then elim args [ [] ↦ fault | name ∷ more ↦ partition_writer name >>= build false more ]
      else build true (arg ∷ args) (writer_at 0 0)
