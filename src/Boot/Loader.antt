-- ===== src/Boot/Loader.antt =====
-- The boot loader of kernel/boot.c, over a memory of bytes. The disk is a parameter: what it
-- answers to the commands that are written to its ports. The waits for the disk are not modelled.
use memory_management.Base.{
  ℕ, zero, suc, ◌+◌, ◌-◌, ◌*◌, ◌/◌, ◌%◌, ◌^◌, ◌<◌, ◌≡◌, List, [], ◌∷◌, ◌==◌, ltb, leb, ◌&&◌,
  if◌then◌else◌, update, add64,
}
use memory_management.Base.Run.{Run, ok, out_of_fuel, ◌>>=◌}
use memory_management.Clib.Memory.{Memory}
use memory_management.Hardware.Interrupts.{Outb, outb}
use memory_management.Boot.Elf.{elf_magic, elf_header, elf_program, elf_program_size}

abbrev pub sector_size : ℕ
sector_size = 512

-- The commands of `boot_readsect`. `(src_sect >> 24) | 0xE0` has the three upper bits of 0xE0 and
-- the five lower ones of `src_sect >> 24`.
unfoldable pub read_commands : (src_sect : ℕ) → List Outb
read_commands src_sect =
    outb 0x1F2 1
    ∷ outb 0x1F3 (src_sect % 256)
    ∷ outb 0x1F4 (src_sect / 2 ^ 8 % 256)
    ∷ outb 0x1F5 (src_sect / 2 ^ 16 % 256)
    ∷ outb 0x1F6 (0xE0 + src_sect / 2 ^ 24 % 32)
    ∷ outb 0x1F7 0x20
    ∷ []

-- A disk: the bytes of its sectors, and the bytes that it answers to the commands for a read.
pub record Disk : Type 0 where
  pub image : (sector i : ℕ) → ℕ
  pub answer : List Outb → (i : ℕ) → ℕ
  -- the ATA command 0x20, for one sector with a number of 28 bits
  pub answers :
      (a b c d i : ℕ)
      → a < 256
      → b < 256
      → c < 256
      → d < 16
      → let commands =
          outb 0x1F2 1
          ∷ outb 0x1F3 a
          ∷ outb 0x1F4 b
          ∷ outb 0x1F5 c
          ∷ outb 0x1F6 (0xE0 + d)
          ∷ outb 0x1F7 0x20
          ∷ [] in
        answer commands i ≡ image (a + 2 ^ 8 * b + 2 ^ 16 * c + 2 ^ 24 * d) i

-- The loop that clears the bytes that are in no file, with the bytes left.
unfoldable pub bss_loop : (left end_ptr : ℕ) → Memory → Memory
bss_loop zero end_ptr m = m
bss_loop (suc left) end_ptr m = bss_loop left (end_ptr + 1) (update m end_ptr 0)

module _ (disk : Disk) where
  -- `boot_readsect`
  unfoldable pub boot_readsect : (dst src_sect : ℕ) → Memory → Memory
  unfolding read_commands
  boot_readsect dst src_sect m = λ q.
      if leb dst q && ltb q (dst + sector_size)
      then disk.answer (read_commands src_sect) (q - dst)
      else m q

  -- The loop of `boot_readseg` that reads sectors.
  unfoldable pub sector_loop : ℕ → (ptr end_ptr src_sect : ℕ) → Memory → Run Memory
  unfolding boot_readsect
  sector_loop zero ptr end_ptr src_sect m = out_of_fuel
  sector_loop (suc fuel) ptr end_ptr src_sect m =
      let rest =
        sector_loop fuel (add64 ptr sector_size) end_ptr ((src_sect + 1) % 2 ^ 32)
          (boot_readsect ptr src_sect m) in
      if ltb ptr end_ptr then rest else ok m

  unfoldable pub boot_readseg : (ptr src_sect filesz memsz : ℕ) → Memory → Run Memory
  unfolding sector_loop bss_loop
  boot_readseg ptr src_sect filesz memsz m =
      let end_ptr = add64 ptr filesz in
      do
        m' ←
            sector_loop (filesz / sector_size + 3) (ptr / sector_size * sector_size) end_ptr
              src_sect m
        ok (bss_loop (add64 memsz ptr - end_ptr) end_ptr m')

  -- The loop of `boot` over the program headers, with the headers left.
  unfoldable segment_loop : (left ph : ℕ) → Memory → Run Memory
  unfolding boot_readseg elf_program
  segment_loop zero ph m = ok m
  segment_loop (suc left) ph m = do
    m' ←
        let p = elf_program ph m in
        boot_readseg p.p_va ((p.p_offset / sector_size + 1) % 2 ^ 32) p.p_filesz p.p_memsz m
    segment_loop left (ph + elf_program_size) m'

  -- `boot`: the entry point of the kernel and the memory. Without the magic number it spins.
  unfoldable boot : Memory → Run (ℕ × Memory)
  unfolding boot_readseg elf_header segment_loop
  boot m = do
    m1 ← boot_readseg 0x10000 1 0x1000 0x1000 m
    let header = elf_header 0x10000 m1
    m2 ←
        if header.e_magic == elf_magic
        then segment_loop header.e_phnum (add64 0x10000 header.e_phoff) m1
        else out_of_fuel
    ok ((elf_header 0x10000 m2).e_entry, m2)
