-- ===== src/Tests/Boot.antt =====
-- The boot loader at a concrete disk.
use memory_management.Base.{ℕ, ◌+◌, ◌-◌, ◌*◌, ◌%◌, ◌^◌, ◌<◌, ◌≡◌, List, [], ◌∷◌, arith}
use memory_management.Base.Run.{Returns}
use memory_management.Hardware.Interrupts.{Outb, outb}
use memory_management.Boot.Loader.{Disk, boot_readseg}
use memory_management.Boot.Segments.{Loaded, boot_readseg-Loaded}

-- The sector that the commands of a read name.
abbrev sector_of : List Outb → ℕ
sector_of (count ∷ a ∷ b ∷ c ∷ d ∷ command) =
    a.byte + 2 ^ 8 * b.byte + 2 ^ 16 * c.byte + 2 ^ 24 * (d.byte - 0xE0)
sector_of commands = 0

abbrev byte_at : (sector i : ℕ) → ℕ
byte_at sector i = (sector + i) % 256

answer-image :
    (a b c d i : ℕ)
    → a < 256
    → b < 256
    → c < 256
    → d < 16
    → let commands =
        outb 0x1F2 1
        ∷ outb 0x1F3 a
        ∷ outb 0x1F4 b
        ∷ outb 0x1F5 c
        ∷ outb 0x1F6 (0xE0 + d)
        ∷ outb 0x1F7 0x20
        ∷ [] in
      byte_at (sector_of commands) i ≡ byte_at (a + 2 ^ 8 * b + 2 ^ 16 * c + 2 ^ 24 * d) i
answer-image a b c d i ha hb hc hd = ground arith

-- A disk whose bytes are the numbers of their sectors and their places.
abbrev disk : Disk
disk = record {
  image = byte_at;
  answer = λ commands i. byte_at (sector_of commands) i;
  answers = answer-image;
}

boot_readseg-Loaded_example :
    Returns
      (Loaded disk 0x40010 9 0x2345 0x3000 (λ q. 7))
      (boot_readseg disk 0x40010 9 0x2345 0x3000 (λ q. 7))
boot_readseg-Loaded_example =
    boot_readseg-Loaded disk 0x40010 9 0x2345 0x3000 (λ q. 7) (omega arith) (omega arith)
      (omega arith)
