-- ===== src/Boot/Segments.antt =====
-- About boot_readseg of kernel/boot.c: what a segment has in memory after it.
use memory_management.Base.{
  ℕ, zero, suc, ◌+◌, ◌-◌, ◌*◌, ◌/◌, ◌%◌, ◌^◌, ◌≤◌, ◌<◌, ◌≡◌, refl, ap, ◌∙◌, inl, inr, true, false,
  ◌&&◌, dec_lt, ltb, leb, if◌then◌else◌, update, add64, arith, Bool-cases,
}
use memory_management.Base.Run.{Returns, returns, Returns-bind, Returns-weaken}
use memory_management.Clib.Memory.{Memory}
use memory_management.Boot.Loader.{
  sector_size, read_commands, Disk, boot_readsect, sector_loop, bss_loop, boot_readseg,
}

module _ (disk : Disk) where
  -- The sector that one read gives.
  boot_readsect-image :
      (dst s q : ℕ) (m : Memory)
      → s < 2 ^ 28
      → dst ≤ q
      → q < dst + sector_size
      → boot_readsect disk dst s m q ≡ disk.image s (q - dst)
  unfolding boot_readsect read_commands
  boot_readsect-image dst s q m small lo hi =
      let a = s % 256 in
      let b = s / 2 ^ 8 % 256 in
      let c = s / 2 ^ 16 % 256 in
      let d = s / 2 ^ 24 % 32 in
      let parts : a + 2 ^ 8 * b + 2 ^ 16 * c + 2 ^ 24 * d ≡ s = omega arith in
      let answer =
        disk.answers a b c d (q - dst) (omega arith) (omega arith) (omega arith) (omega arith) in
      let inside : (leb dst q && ltb q (dst + sector_size)) ≡ true = ground arith in
      rw inside (answer ∙ ap (λ n. disk.image n (q - dst)) parts)

  boot_readsect-outside :
      (dst s q : ℕ) (m : Memory)
      → (leb dst q && ltb q (dst + sector_size)) ≡ false
      → boot_readsect disk dst s m q ≡ m q
  unfolding boot_readsect
  boot_readsect-outside dst s q m outside = rw outside refl

  -- The sectors from `s` on stand at `p` and behind it, and nothing before it or far behind `e`
  -- has changed.
  unfoldable Read : (p e s : ℕ) → (m m' : Memory) → Type 0
  Read p e s m m' =
      ((q : ℕ)
        → p ≤ q
        → q < e
        → m' q ≡ disk.image (s + (q - p) / sector_size) ((q - p) % sector_size))
      × ((q : ℕ) → q < p → m' q ≡ m q)
      × ((q : ℕ) → p ≤ q → e + sector_size ≤ q → m' q ≡ m q)

  Read-nothing : (p e s : ℕ) (m : Memory) → e ≤ p → Read p e s m m
  unfolding Read
  Read-nothing p e s m h = (λ q lo hi. absurd (omega arith), λ q h'. refl, λ q h' h''. refl)

  Read-sector :
      (p e s : ℕ) (m m' : Memory)
      → p < e
      → s < 2 ^ 28
      → Read (p + sector_size) e (s + 1) (boot_readsect disk p s m) m'
      → Read p e s m m'
  unfolding Read
  Read-sector p e s m m' more small (read, before, behind) =
      let image = λ (a b a' b' : ℕ) (same : a ≡ a') (same' : b ≡ b').
        ap (λ t. disk.image t b) same ∙ ap (disk.image a') same' in
      (
        λ q lo hi. elim (dec_lt q (p + sector_size)) [
          | yes first ↦
              before q first
              ∙ boot_readsect-image p s q m small lo first
              ∙ image s (q - p) (s + (q - p) / sector_size) ((q - p) % sector_size) (omega arith)
                  (omega arith)
          | no later ↦
              read q (omega arith) hi
              ∙ image (s + 1 + (q - (p + sector_size)) / sector_size)
                  ((q - (p + sector_size)) % sector_size) (s + (q - p) / sector_size)
                  ((q - p) % sector_size) (omega arith) (omega arith)
        ],
        λ q h. before q (omega arith) ∙ boot_readsect-outside p s q m (ground arith),
        λ q lo far. behind q (omega arith) far ∙ boot_readsect-outside p s q m (ground arith),
      )

  sector_loop-Read :
      (n p e s : ℕ) (m : Memory)
      → e ≤ p + sector_size * n
      → e + sector_size ≤ 2 ^ 64
      → s + n < 2 ^ 28
      → Returns (Read p e s m) (sector_loop disk (suc n) p e s m)
  unfolding sector_loop
  sector_loop-Read zero p e s m near top small =
      let done : ltb p e ≡ false = ground arith in
      rw done (returns (Read-nothing p e s m (omega arith)))
  sector_loop-Read (suc n) p e s m near top small = elim (Bool-cases (ltb p e)) [
    | inr done ↦ rw done (returns (Read-nothing p e s m (ground arith)))
    | inl more ↦
        let lt : p < e = ground arith in
        let next : add64 p sector_size ≡ p + sector_size = omega arith in
        let sector : (s + 1) % 2 ^ 32 ≡ s + 1 = omega arith in
        rw (more, next, sector)
          (Returns-weaken
            (sector_loop-Read n (p + sector_size) e (s + 1) (boot_readsect disk p s m) (omega arith)
              top (omega arith))
            λ m' read. Read-sector p e s m m' lt (omega arith) read)
  ]

bss_loop_lem :
    (n p : ℕ) (m : Memory) (q : ℕ)
    → bss_loop n p m q ≡ (if leb p q && ltb q (p + n) then 0 else m q)
unfolding bss_loop
bss_loop_lem zero p m q = ground arith
bss_loop_lem (suc n) p m q = bss_loop_lem n (p + 1) (update m p 0) q ∙ ground arith

bss_loop-outside :
    (n p : ℕ) (m : Memory) (q : ℕ) → (leb p q && ltb q (p + n)) ≡ false → bss_loop n p m q ≡ m q
bss_loop-outside n p m q outside = bss_loop_lem n p m q ∙ rw outside refl

-- What `boot_readseg` leaves in memory.
pub record Loaded (disk : Disk) (ptr src_sect filesz memsz : ℕ) (m m' : Memory) : Type 0 where
  -- the bytes of the file, from the sectors of the disk
  pub file :
      (q : ℕ)
      → ptr ≤ q
      → q < ptr + filesz
      → let i = q - ptr / sector_size * sector_size in
        m' q ≡ disk.image (src_sect + i / sector_size) (i % sector_size)
  -- zeros behind them
  pub bss : (q : ℕ) → ptr + filesz ≤ q → q < ptr + memsz → m' q ≡ 0
  -- nothing else, but for the rest of the first and the last sector
  pub below : (q : ℕ) → q < ptr / sector_size * sector_size → m' q ≡ m q
  pub above : (q : ℕ) → ptr + filesz + sector_size ≤ q → ptr + memsz ≤ q → m' q ≡ m q

-- Where the segment ends a sector below 2^64 and its sectors have numbers of 28 bits,
-- `boot_readseg` returns. Then the memory of the segment holds the bytes of the disk from the
-- given sector on, as far as the file goes, and zeros up to the segment's size; the memory before
-- its first sector, and behind its size and the sector of its last byte, is as it was.
pub boot_readseg-Loaded :
    (disk : Disk) (ptr src_sect filesz memsz : ℕ) (m : Memory)
    → ptr + filesz + sector_size ≤ 2 ^ 64
    → ptr + memsz < 2 ^ 64
    → src_sect + filesz / sector_size + 2 < 2 ^ 28
    → Returns
        (Loaded disk ptr src_sect filesz memsz m)
        (boot_readseg disk ptr src_sect filesz memsz m)
unfolding boot_readseg Read
boot_readseg-Loaded disk ptr src_sect filesz memsz m top top' small =
    let base = ptr / sector_size * sector_size in
    let end : add64 ptr filesz ≡ ptr + filesz = omega arith in
    let end' : add64 memsz ptr ≡ ptr + memsz = omega arith in
    let rounds : filesz / sector_size + 3 ≡ suc (filesz / sector_size + 2) = omega arith in
    rw (end, end', rounds)
      (Returns-bind
        (sector_loop-Read disk (filesz / sector_size + 2) base (ptr + filesz) src_sect m
          (omega arith) (omega arith) (omega arith))
        λ m' (file, below, above).
          let left = ptr + memsz - (ptr + filesz) in
          let kept = bss_loop-outside left (ptr + filesz) m' in
          returns (record {
            file = λ q lo hi. kept q (ground arith) ∙ file q (omega arith) hi;
            bss = λ q lo hi. bss_loop_lem left (ptr + filesz) m' q ∙ ground arith;
            below = λ q h. kept q (ground arith) ∙ below q h;
            above = λ q far far'. kept q (ground arith) ∙ above q (omega arith) far;
          }))
