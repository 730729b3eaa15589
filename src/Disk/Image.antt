-- ===== src/Disk/Image.antt =====
-- The image that build/mkbootdisk.c writes: the boot sector, then files and gaps, each up to a
-- sector boundary.
use memory_management.Base.{
  ℕ, zero, suc, ◌+◌, ◌-◌, ◌/◌, ◌%◌, ◌&&◌, Option, none, some, List, [], ◌∷◌, ◌++◌, length, take,
  drop, replicate, ◌==◌, ltb, leb, if◌then◌else◌,
}
use memory_management.Base.Run.{Run, ok, fault, out_of_fuel, ◌>>=◌}
use memory_management.Disk.Writer.{Host, Writer, diskwrite}

-- The boot sector: the code, zeros, and the signature.
abbrev pub boot_sector : List ℕ → List ℕ
boot_sector code = code ++ replicate (510 - length code) 0 ++ 0x55 ∷ 0xAA ∷ []

-- The number of "@X", an argument that means "skip to sector X".
unfoldable pub skip_sector : Host → List ℕ → Option ℕ
skip_sector host (at ∷ d ∷ text) =
    if (at == b'@') && leb b'0' d && leb d b'9'
    then (let r = host.strtoul (d ∷ text) in if length r.1 == 0 then some r.0 else none)
    else none
skip_sector host text = none

module _ (host : Host) where
  -- A loop that writes `left` empty sectors.
  unfoldable pub zero_sectors : (left : ℕ) → Writer → Run Writer
  zero_sectors zero w = ok w
  zero_sectors (suc left) w = do w' ← diskwrite host (replicate 512 0) w; zero_sectors left w'

  -- The loop that copies a file in pieces of 4096 bytes; `pos` is the number of bytes so far.
  unfoldable pub copy_loop : ℕ → List ℕ → (pos : ℕ) → Writer → Run (ℕ × Writer)
  copy_loop zero [] pos w = ok (pos, w)
  copy_loop zero (c ∷ cs) pos w = out_of_fuel
  copy_loop (suc fuel) [] pos w = ok (pos, w)
  copy_loop (suc fuel) (c ∷ cs) pos w = do
    let piece = take 4096 (c ∷ cs)
    w' ← diskwrite host piece w
    copy_loop fuel (drop 4096 (c ∷ cs)) (pos + length piece) w'

  -- A file, filled up to a sector boundary: the sectors that it takes.
  unfoldable pub write_file : List ℕ → Writer → Run (ℕ × Writer)
  unfolding copy_loop
  write_file content w = do
    (pos, w1) ← copy_loop (length content / 4096 + 1) content 0 w
    if pos % 512 == 0 then ok (pos / 512, w1) else (do
      w2 ← diskwrite host (replicate (512 - pos % 512) 0) w1
      ok ((pos + (512 - pos % 512)) / 512, w2))

  -- One argument: a gap or a file. The number of sectors is counted.
  unfoldable pub write_argument : List ℕ → (nsectors : ℕ) → Writer → Run (ℕ × Writer)
  unfolding zero_sectors write_file skip_sector
  write_argument arg nsectors w = elim (skip_sector host arg) [
    | some sector ↦
        if ltb sector nsectors
        then fault
        else (do w' ← zero_sectors (sector - nsectors) w; ok (sector, w'))
    | none ↦ elim (host.file arg) [
      | none ↦ fault
      | some content ↦ (do (n, w') ← write_file content w; ok (nsectors + n, w'))
    ]
  ]

  unfoldable pub write_arguments : List (List ℕ) → (nsectors : ℕ) → Writer → Run (ℕ × Writer)
  unfolding write_argument
  write_arguments [] nsectors w = ok (nsectors, w)
  write_arguments (arg ∷ args) nsectors w = do
    (n, w') ← write_argument arg nsectors w
    write_arguments args n w'

  -- The files behind the boot sector, and zeros up to 1024 sectors.
  unfoldable pub write_files : List (List ℕ) → (nsectors : ℕ) → Writer → Run Writer
  unfolding write_arguments zero_sectors
  write_files args nsectors w = do
    (n, w') ← write_arguments args nsectors w
    zero_sectors (1024 - n) w'

  -- The whole image, of a boot sector file and others.
  unfoldable pub write_image : (boot : List ℕ) → List (List ℕ) → Writer → Run Writer
  unfolding write_files
  write_image boot args w = elim (host.file boot) [
    | none ↦ fault
    | some code ↦
        if ltb 510 (length code)
        then fault
        else (do w' ← diskwrite host (boot_sector code) w; write_files args 1 w')
  ]
