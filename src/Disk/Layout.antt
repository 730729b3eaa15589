-- ===== src/Disk/Layout.antt =====
-- About the image that build/mkbootdisk.c writes: where its parts lie.
use memory_management.Base.{
  ℕ, zero, suc, ◌+◌, ◌-◌, ◌*◌, ◌/◌, ◌%◌, ◌≤◌, ◌≡◌, ◌∙◌, refl, ap, sym, option-cases, none, some,
  List, [], ◌∷◌, ◌++◌, length, take, drop, take-append-drop, length-drop, length-take, replicate,
  ◌==◌, ltb, if-cases, arith,
}
use mathlib.Core.List.{append-nil}
use memory_management.Base.Run.{Settles, settled, faulted, Settles-bind, Settles-weaken}
use memory_management.Disk.Writer.{Host, Writer}
use memory_management.Disk.Written.{
  Steady, Appended, Appended-eq, Appended-nil, Appended-append, diskwrite-Settles,
}
use memory_management.Disk.Image.{
  boot_sector, skip_sector, zero_sectors, copy_loop, write_file, write_argument, write_arguments,
  write_files, write_image,
}

-- The sectors that `n` bytes take.
abbrev pub sectors : ℕ → ℕ
sectors n = (n + 511) / 512

-- A file and the zeros behind it.
abbrev padded : List ℕ → List ℕ
padded content = content ++ replicate (512 * sectors (length content) - length content) 0

-- The bytes of the arguments from the sector `n` on, up to the sector `n'`: a gap of zeros up to
-- the sector that an argument names, or a file up to the next sector boundary.
pub data Layout (host : Host) : List (List ℕ) → (n : ℕ) → List ℕ → (n' : ℕ) → Type 0 where
  end : {n : ℕ} → Layout host [] n [] n
  gap :
      {arg : List ℕ} {args : List (List ℕ)} {n n' sector : ℕ} {bytes : List ℕ}
      → skip_sector host arg ≡ some sector
      → n ≤ sector
      → Layout host args sector bytes n'
      → Layout host (arg ∷ args) n (replicate (512 * (sector - n)) 0 ++ bytes) n'
  file :
      {arg : List ℕ} {args : List (List ℕ)} {n n' : ℕ} {content bytes : List ℕ}
      → skip_sector host arg ≡ none
      → host.file arg ≡ some content
      → Layout host args (n + sectors (length content)) bytes n'
      → Layout host (arg ∷ args) n (padded content ++ bytes) n'

-- The image of a boot sector file and the arguments.
pub record Image (host : Host) (boot : List ℕ) (args : List (List ℕ)) (w w' : Writer) : Type 0 where
  pub code : List ℕ
  pub bytes : List ℕ
  pub used : ℕ
  pub found : host.file boot ≡ some code
  pub small : length code ≤ 510
  pub layout : Layout host args 1 bytes used
  pub appended : Appended (boot_sector code ++ (bytes ++ replicate (512 * (1024 - used)) 0)) w w'

replicate-append : (m n x : ℕ) → replicate m x ++ replicate n x ≡ replicate (m + n) x
replicate-append zero n x = let e : 0 + n ≡ n = omega arith in rw e refl
replicate-append (suc m) n x =
    let e : suc m + n ≡ suc (m + n) = omega arith in
    rw e (ap (λ xs. x ∷ xs) (replicate-append m n x))

module _ (host : Host) (steady : Steady host) where
  zero_sectors-Appended :
      (left : ℕ) (w : Writer)
      → Settles (Appended (replicate (512 * left) 0) w) (zero_sectors host left w)
  unfolding zero_sectors
  zero_sectors-Appended zero w = settled (Appended-nil w)
  zero_sectors-Appended (suc left) w =
      Settles-bind (diskwrite-Settles host steady (replicate 512 0) w) λ w1 a.
        Settles-weaken (zero_sectors-Appended left w1) λ w2 b.
          let sum : 512 + 512 * left ≡ 512 * suc left = omega arith in
          let joined = replicate-append 512 (512 * left) 0 ∙ ap (λ k. replicate k 0) sum in
          settled
            (Appended-eq joined (Appended-append (replicate 512 0) (replicate (512 * left) 0) a b))

  copy_loop-Appended :
      (fuel : ℕ) (content : List ℕ) (pos : ℕ) (w : Writer)
      → length content ≤ 4096 * fuel
      → Settles
          (λ r. (r.0 ≡ pos + length content) × Appended content w r.1)
          (copy_loop host fuel content pos w)
  unfolding copy_loop
  copy_loop-Appended zero [] pos w h = settled (omega arith, Appended-nil w)
  copy_loop-Appended zero (c ∷ cs) pos w h = absurd (omega arith)
  copy_loop-Appended (suc fuel) [] pos w h = settled (omega arith, Appended-nil w)
  copy_loop-Appended (suc fuel) (c ∷ cs) pos w h =
      let piece = take 4096 (c ∷ cs) in
      let rest = drop 4096 (c ∷ cs) in
      Settles-bind (diskwrite-Settles host steady piece w) λ w1 a.
        Settles-weaken
          (copy_loop-Appended fuel rest (pos + length piece) w1
            (omega (arith, length-drop 4096 (c ∷ cs))))
          λ r (at, b). settled (
            omega (arith, at, length-drop 4096 (c ∷ cs), length-take 4096 (c ∷ cs)),
            Appended-eq (take-append-drop 4096 (c ∷ cs)) (Appended-append piece rest a b),
          )

  -- A file takes the sectors that its length needs.
  write_file-Appended :
      (content : List ℕ) (w : Writer)
      → Settles
          (λ r. (r.0 ≡ sectors (length content)) × Appended (padded content) w r.1)
          (write_file host content w)
  unfolding write_file
  write_file-Appended content w =
      Settles-bind (copy_loop-Appended (length content / 4096 + 1) content 0 w (omega arith))
        λ r (at, a).
          let pos = r.0 in
          let pad = 512 * sectors (length content) - length content in
          if-cases
            (Settles (λ r'. (r'.0 ≡ sectors (length content)) × Appended (padded content) w r'.1))
            (pos % 512 == 0)
            (λ whole.
              let none_left : pad ≡ 0 = ground arith in
              let same = ap (λ k. content ++ replicate k 0) none_left ∙ append-nil content in
              settled (ground arith, Appended-eq (sym same) a))
            (λ part.
              let left : 512 - pos % 512 ≡ pad = ground arith in
              Settles-bind (diskwrite-Settles host steady (replicate (512 - pos % 512) 0) r.1)
                λ w2 b. settled (
                  ground arith,
                  Appended-eq (ap (λ k. content ++ replicate k 0) left)
                      (Appended-append content (replicate (512 - pos % 512) 0) a b),
                ))

  -- What one argument adds, whatever comes behind it.
  abbrev Adds : (arg : List ℕ) (args : List (List ℕ)) (n : ℕ) (w : Writer) → ℕ × Writer → Type 0
  Adds arg args n w r =
      (own : List ℕ) × Appended own w r.1
      × ((bytes : List ℕ) (n' : ℕ)
          → Layout host args r.0 bytes n'
          → Layout host (arg ∷ args) n (own ++ bytes) n')

  write_argument-Layout :
      (arg : List ℕ) (args : List (List ℕ)) (n : ℕ) (w : Writer)
      → Settles (Adds arg args n w) (write_argument host arg n w)
  unfolding write_argument
  write_argument-Layout arg args n w =
      let P = Settles (Adds arg args n w) in
      option-cases P (skip_sector host arg)
        (λ e.
          option-cases P (host.file arg) (λ missing. faulted)
            λ content f.
              Settles-bind (write_file-Appended content w)
                λ r (at, a). settled (padded content, a, λ bytes n' rest. file e f (rw at at rest)))
        λ sector e.
          if-cases P (ltb sector n) (λ behind. faulted)
            λ ahead. Settles-bind (zero_sectors-Appended (sector - n) w) λ w' a.
              settled
                (replicate (512 * (sector - n)) 0, a, λ bytes n' rest. gap e (ground arith) rest)

  write_arguments-Layout :
      (args : List (List ℕ)) (n : ℕ) (w : Writer)
      → Settles
          (λ r. (bytes : List ℕ) × Layout host args n bytes r.0 × Appended bytes w r.1)
          (write_arguments host args n w)
  unfolding write_arguments
  write_arguments-Layout [] n w = settled ([], end, Appended-nil w)
  write_arguments-Layout (arg ∷ args) n w =
      Settles-bind (write_argument-Layout arg args n w) λ r (own, a, layout).
        Settles-weaken (write_arguments-Layout args r.0 r.1) λ r' (bytes, rest, b).
          settled (own ++ bytes, layout bytes r'.0 rest, Appended-append own bytes a b)

  -- On a host whose writes do not fail, `write_image` ends the program with an error or appends the
  -- boot sector, which is the code, zeros up to 510 bytes and the signature, then the layout of the
  -- arguments from sector 1 on, and then zeros up to 1024 sectors.
  pub write_image-Image :
      (boot : List ℕ) (args : List (List ℕ)) (w : Writer)
      → Settles (Image host boot args w) (write_image host boot args w)
  unfolding write_image write_files
  write_image-Image boot args w =
      let P = Settles (Image host boot args w) in
      option-cases P (host.file boot) (λ missing. faulted)
        λ code f.
          if-cases P (ltb 510 (length code)) (λ large. faulted)
            λ fits. Settles-bind (diskwrite-Settles host steady (boot_sector code) w) λ w1 a.
              Settles-bind (write_arguments-Layout args 1 w1) λ r (bytes, layout, b).
                Settles-weaken (zero_sectors-Appended (1024 - r.0) r.1) λ w2 c.
                  let zeros : List ℕ = replicate (512 * (1024 - r.0)) 0 in
                  settled (record {
                    code = code;
                    bytes = bytes;
                    used = r.0;
                    found = f;
                    small = ground arith;
                    layout = layout;
                    appended =
                        Appended-append (boot_sector code) (bytes ++ zeros) a
                          (Appended-append bytes zeros b c);
                  })
