-- ===== src/Kernel/Breaks.antt =====
-- About `sbrk` of kernel/kernel.c and the loops that it calls.
use memory_management.Base.{
  ℕ, zero, suc, ◌+◌, ◌-◌, ◌/◌, ◌^◌, ◌≤◌, ◌<◌, ◌≡◌, refl, ◌⊎◌, inl, inr, Bool, true, false, not,
  ◌&&◌, ◌||◌, Option, none, some, ◌%◌, ◌==◌, ltb, leb, leb→le, if◌then◌else◌, Bool-cases, minus_one,
  add64, sub64, round_up, round_down, arith,
}
use memory_management.Base.Run.{Run, ok, Settles, settled, faulted, Settles-bind, Settles-weaken}
use memory_management.Kernel.PageTable.{
  Entries, page_size, memsize_virtual, virtual_memory_lookup, virtual_memory_map, map_loop,
  map_page, lookup_l4pagetable, l4_loop, is_present, is_writable, is_user, pte_addr, entry_at,
  memsize_physical, map_asserts,
}
use memory_management.Kernel.Process.{
  Proc, Kernel, sbrk, unmap_loop, unmap_page, unmap_fuel, int_to_word,
}

-- The break lies in the range that `sbrk` allows, above the kernel's part of the address space.
pub record IsProcess (p : Proc) : Type 0 where
  pub pos : page_size ≤ p.original_break
  pub above : p.original_break ≤ p.program_break
  pub below : p.program_break < memsize_virtual - page_size

-- What `sbrk` returns and does, whenever it returns.
pub data Moved (p : Proc) (difference : ℕ) (k : Kernel) : ℕ × Proc × Kernel → Type 0 where
  refused :
      {r : ℕ × Proc × Kernel}
      → (memsize_virtual - page_size ≤ add64 p.program_break difference)
        ⊎ (add64 p.program_break difference < p.original_break)
      → r ≡ (minus_one, p, k)
      → Moved p difference k r
  moved :
      {r : ℕ × Proc × Kernel}
      → r.0 ≡ p.program_break
      → r.1 ≡ record p { program_break = add64 p.program_break difference }
      → IsProcess r.1
      → (difference < 2 ^ 63 → r.2 ≡ k)
      → Moved p difference k r

if-Settles {ℓ κ} :
    {A : Type ℓ} {P : A → Type κ} {x y : Run A} (b : Bool)
    → Settles P x
    → Settles P y
    → Settles P (if b then x else y)
if-Settles true s t = s
if-Settles false s t = t

pub Option-Settles {ℓ κ μ} :
    {A : Type ℓ} {B : Type μ} {P : A → Type κ} {x : Run A} {f : B → Run A} (o : Option B)
    → Settles P x
    → ((b : B) → Settles P (f b))
    → Settles P (elim o [ none ↦ x | some b ↦ f b ])
Option-Settles none s t = s
Option-Settles (some b) s t = t b

abbrev pub Any : {A : Type 0} → A → Type 0
Any _ = Unit

-- No loop of the page-table code runs out of fuel: each recurs on its own counter.
l4_loop-Settles :
    (n level pt va perm : ℕ) (mem : Entries) → Settles Any (l4_loop n level pt va perm mem)
unfolding l4_loop
l4_loop-Settles zero level pt va perm mem = settled tt
l4_loop-Settles (suc n) level pt va perm mem =
    let pe = mem (entry_at pt va level) in
    let rest = l4_loop-Settles n (level + 1) (pte_addr pe) va perm mem in
    if-Settles (not (is_present pe)) (settled tt) (
      if-Settles (not (ltb (pte_addr pe) memsize_physical)) faulted (
        if-Settles (is_writable perm && not (is_writable pe)) faulted
          (if-Settles (is_user perm && not (is_user pe)) faulted rest)))

map_loop-Settles :
    (n pt va pa perm : ℕ) (last : ℕ) (l4 : Option ℕ) (mem : Entries)
    → Settles Any (map_loop n pt va pa perm last l4 mem)
unfolding map_loop lookup_l4pagetable
map_loop-Settles zero pt va pa perm last l4 mem = settled tt
map_loop-Settles (suc n) pt va pa perm last l4 mem =
    Settles-bind
      (if-Settles (va / 2 ^ 21 % 2 ^ 32 == last) (settled tt) (l4_loop-Settles 3 0 pt va perm mem))
      λ l4' _. Option-Settles (map_page l4' va pa perm mem) (settled tt) λ mem'.
        map_loop-Settles n pt (add64 va page_size) (add64 pa page_size) perm (va / 2 ^ 21 % 2 ^ 32)
          l4' mem'

pub virtual_memory_map-Settles :
    (pt va pa sz perm : ℕ) (mem : Entries) → Settles Any (virtual_memory_map pt va pa sz perm mem)
unfolding virtual_memory_map
virtual_memory_map-Settles pt va pa sz perm mem =
    if-Settles (map_asserts pt va pa sz perm)
      (map_loop-Settles (sz / page_size) pt va pa perm (2 ^ 32 - 1) none mem) faulted

unmap_page-Settles : (pt i : ℕ) (k : Kernel) → Settles Any (unmap_page pt i k)
unfolding unmap_page
unmap_page-Settles pt i k = Option-Settles (virtual_memory_lookup pt i k.mem).pn (settled tt) λ pn.
    Settles-bind
      (virtual_memory_map-Settles pt i (virtual_memory_lookup pt i k.mem).pa page_size 6 k.mem)
      λ r _. settled tt

unmap_loop-Settles :
    (fuel pt i low : ℕ) (k : Kernel)
    → page_size ≤ low
    → i < 2 ^ 64
    → i / page_size < fuel
    → Settles Any (unmap_loop (suc fuel) pt i low k)
unfolding unmap_loop
unmap_loop-Settles zero pt i low k pos small h = absurd (omega arith)
unmap_loop-Settles (suc fuel) pt i low k pos small h = elim (Bool-cases (leb low i)) [
  | inl e ↦ rw e (
      Settles-bind (unmap_page-Settles pt i k) λ k' _.
        unmap_loop-Settles fuel pt (sub64 i page_size) low k' pos (omega arith)
          (omega (arith, leb→le low i e)))
  | inr e ↦ rw e (settled tt)
]

-- The part of `sbrk` that gives pages back.
shrink-Settles :
    (p : Proc) (d new_break : ℕ) (k : Kernel)
    → page_size ≤ new_break
    → new_break < 2 ^ 64
    → let top_page = round_up p.program_break page_size in
      Settles
        (λ k'. d < 2 ^ 63 → k' ≡ k)
        (if leb (2 ^ 63) d
          then unmap_loop
              (unmap_fuel top_page)
              p.p_pagetable
              top_page
              (round_down new_break page_size)
              k
          else ok k)
unfolding round_up round_down
shrink-Settles p d new_break k lo hi =
    let i = round_up p.program_break page_size in
    let fuel : i / page_size + 2 ≡ suc (i / page_size + 1) = omega arith in
    elim (Bool-cases (leb (2 ^ 63) d)) [
      | inl e ↦
          let negative : 2 ^ 63 ≤ d = leb→le (2 ^ 63) d e in
          rw e (
            rw fuel (
              Settles-weaken
                (unmap_loop-Settles (i / page_size + 1) p.p_pagetable i
                  (round_down new_break page_size) k (omega arith) (omega arith) (omega arith))
                λ k' _. settled (λ h. absurd (omega arith))))
      | inr e ↦ rw e (settled (λ h. refl))
    ]

-- From a break in its range `sbrk` does not loop: it panics in an assert of the page-table code, or
-- it returns -1 and changes nothing, which happens only if the new break is out of range, or it
-- returns the old break and leaves the break moved by the difference, in its range; with a
-- difference that is not negative it then leaves the page tables and page information alone.
pub sbrk-Moved :
    (p : Proc) (difference : ℕ) (k : Kernel)
    → IsProcess p
    → Settles (Moved p difference k) (sbrk p difference k)
unfolding sbrk int_to_word
sbrk-Moved p d k v =
    let b = add64 p.program_break d in
    elim (Bool-cases (not (ltb b (memsize_virtual - page_size)) || ltb b p.original_break)) [
      | inl e ↦ rw e (settled (refused (ground arith) refl))
      | inr e ↦ rw e (
          Settles-bind (shrink-Settles p d b k (ground arith) (omega arith))
            λ k' same. settled (moved (ground arith) refl (ground arith) same))
    ]
