-- ===== src/Tests/Disk.antt =====
-- The disk image builder at a concrete host.
use memory_management.Base.{
  ℕ, ◌≡◌, ◌⊎◌, refl, true, false, none, some, List, [], ◌∷◌, ◌==◌, if◌then◌else◌, arith,
}
use memory_management.Base.Run.{Returns, Settles, fault}
use memory_management.Disk.Writer.{Host, wrote, is_full, diskwrite}
use memory_management.Disk.Written.{progress, Steady, Appended, diskwrite-Appended}
use memory_management.Disk.Image.{write_image}
use memory_management.Disk.Layout.{Image, write_image-Image}
use memory_management.Disk.Command.{writer_at}

-- A host that writes at most 100 bytes at a time; each file is its name.
abbrev host : Host
host = record {
  write = λ call. wrote 100;
  patience = 0;
  file = λ name. some name;
  disk = λ name. none;
  strtoul = λ text. (7, []);
}

host-Steady : Steady host
host-Steady = record {
  credit = λ k. 0;
  within = λ k. omega arith;
  fair = λ k. progress 100 refl (ground arith) (omega arith);
}

diskwrite-Appended_example :
    (is_full (writer_at 0 0) 3 ≡ true → diskwrite host (1 ∷ 2 ∷ 3 ∷ []) (writer_at 0 0) ≡ fault)
    × (is_full (writer_at 0 0) 3 ≡ false
        → Returns
            (Appended (1 ∷ 2 ∷ 3 ∷ []) (writer_at 0 0))
            (diskwrite host (1 ∷ 2 ∷ 3 ∷ []) (writer_at 0 0)))
diskwrite-Appended_example = diskwrite-Appended host host-Steady (1 ∷ 2 ∷ 3 ∷ []) (writer_at 0 0)

-- "boot", a gap up to sector 7 and "a"
abbrev boot : List ℕ
boot = b'b' ∷ b'o' ∷ b'o' ∷ b't' ∷ []

abbrev args : List (List ℕ)
args = (b'@' ∷ b'7' ∷ []) ∷ (b'a' ∷ []) ∷ []

write_image-Image_example :
    Settles (Image host boot args (writer_at 0 0)) (write_image host boot args (writer_at 0 0))
write_image-Image_example = write_image-Image host host-Steady boot args (writer_at 0 0)

-- The first sector has a table with an extended partition that starts in sector 5; every other one
-- has a table with one partition of type 0x27, of one sector.
abbrev disk : ℕ → ℕ → ℕ
disk sect at =
    if at == 510
    then 0x55
    else if at == 511
    then 0xAA
    else if at == 450
    then (if sect == 0 then 0x05 else 0x27)
    else if at == 454
    then (if sect == 0 then 5 else 0)
    else if at == 458
    then 1
    else 0

-- A link leads from the first entry of the first sector.
Place : (sect ext : ℕ) → Type 0
Place sect ext = ((sect ≡ 0) × (ext ≡ 0)) ⊎ (sect ≡ 5)

abbrev rank : (sect ext : ℕ) → ℕ
rank sect ext = if sect == 0 then 1 else 0
