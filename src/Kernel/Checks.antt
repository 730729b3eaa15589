-- ===== src/Kernel/Checks.antt =====
-- About pageinfo_init and check_virtual_memory of kernel/kernel.c.
use memory_management.Base.{
  ℕ, zero, suc, ◌+◌, ◌*◌, ◌≤◌, ◌<◌, ◌≡◌, ◌≢◌, refl, ◌∙◌, Bool, true, false, ◌&&◌, ◌||◌, ◌==◌, ltb,
  leb, if◌then◌else◌, update, arith, ℕ_discrete,
}
use mathlib.Core.Logic.{◌↔◌}
use memory_management.Kernel.PageTable.{page_size, page_number, pte_addr}
use memory_management.Kernel.Process.{Owner, po_free, po_reserved, po_kernel, PageInfo, Kernel}
use memory_management.Hardware.Interrupts.{physical_memory_isreserved}
use memory_management.Kernel.System.{
  Image, all_from, initial_owner, is_free, pageinfo_loop, pageinfo_init, owner_eq, check_level,
}

-- What a page is at the start: page 0 and the pages 0xA0 to 0xFF are reserved; the pages from 0x40
-- on that start below the kernel's end, and page 0x7F, are the kernel's; nobody has the others.
unfoldable pub initial_info : (end pn : ℕ) → PageInfo
initial_info end pn =
    if (pn == 0) || (leb 0xA0 pn && ltb pn 0x100)
    then record { owner = po_reserved; refcount = 1 }
    else if (leb 0x40 pn && ltb (pn * page_size) end) || (pn == 0x7F)
    then record { owner = po_kernel; refcount = 1 }
    else record { owner = po_free; refcount = 0 }

-- The entry that a round of the loop writes for a page.
initial_owner-page :
    (end pn : ℕ)
    → let owner = initial_owner end (pn * page_size) in
      let info : PageInfo = record { owner = owner; refcount = if is_free owner then 0 else 1 } in
      info ≡ initial_info end pn
unfolding initial_info initial_owner physical_memory_isreserved
initial_owner-page end pn = ground arith

spread :
    (left i pn : ℕ) (info pageinfo : ℕ → PageInfo)
    → (if leb (i + 1) pn && ltb pn (i + 1 + left) then info pn else update pageinfo i (info i) pn)
      ≡ (if leb i pn && ltb pn (i + suc left) then info pn else pageinfo pn)
spread left i pn info pageinfo = ground arith

pageinfo_loop_lem :
    (left i end : ℕ) (pageinfo : ℕ → PageInfo) (pn : ℕ)
    → i + left ≤ 512
    → pageinfo_loop left (i * page_size) end pageinfo pn
      ≡ (if leb i pn && ltb pn (i + left) then initial_info end pn else pageinfo pn)
unfolding pageinfo_loop initial_info
pageinfo_loop_lem zero i end pageinfo pn bound = ground arith
pageinfo_loop_lem (suc left) i end pageinfo pn bound =
    let next : i * page_size + page_size ≡ (i + 1) * page_size = omega arith in
    let here : page_number (i * page_size) ≡ i = omega arith in
    rw (next, here, initial_owner-page end i)
      (pageinfo_loop_lem left (i + 1) end (update pageinfo i (initial_info end i)) pn (omega arith)
        ∙ spread left i pn (initial_info end) pageinfo)

-- After `pageinfo_init` every physical page has its owner: reserved memory, the kernel's code,
-- data and stack, or nobody; a page has one reference if it has an owner and none otherwise.
pub pageinfo_init_lem :
    (image : Image) (k : Kernel) (pn : ℕ)
    → pn < 512
    → (pageinfo_init image k).pageinfo pn ≡ initial_info image.end pn
unfolding pageinfo_init
pageinfo_init_lem image k pn h =
    pageinfo_loop_lem 512 0 image.end k.pageinfo pn (omega arith) ∙ ground arith

pub all_from_iff :
    (left i : ℕ) (test : ℕ → Bool)
    → (all_from left i test ≡ true) ↔ ((j : ℕ) → i ≤ j → j < i + left → test j ≡ true)
unfolding all_from
all_from_iff zero i test = (λ h j lo hi. absurd (omega arith), λ h. refl)
all_from_iff (suc left) i test =
    let ih = all_from_iff left (i + 1) test in
    (
      λ h j lo hi. elim (ℕ_discrete j i) [
        | yes same ↦ rw same (ground arith)
        | no other ↦ ih.0 (ground arith) j (omega arith) (omega arith)
      ],
      λ h. ground (
        arith,
        h i (omega arith) (omega arith),
        ih.1 (λ j lo hi. h j (omega arith) (omega arith)),
      ),
    )

-- What `check_page_table_ownership_level` wants of a page.
abbrev TableOk : (pt : ℕ) → Owner → (refcount : ℕ) → Kernel → Type 0
TableOk pt owner refcount k =
    (page_number pt < 512)
    × (owner_eq (k.pageinfo (page_number pt)).owner owner ≡ true)
    × ((k.pageinfo (page_number pt)).refcount ≡ refcount)

-- The page, and each page of the levels below that a non-zero entry leads to.
abbrev pub LevelOk : (levels pt : ℕ) → Owner → (refcount : ℕ) → Kernel → Type 0
LevelOk zero pt owner refcount k = TableOk pt owner refcount k
LevelOk (suc levels) pt owner refcount k =
    TableOk pt owner refcount k
    × ((index : ℕ)
        → index < 512
        → k.mem (pt + 8 * index) ≢ 0
        → LevelOk levels (pte_addr (k.mem (pt + 8 * index))) owner 1 k)

table_iff :
    (pt : ℕ) (owner : Owner) (refcount : ℕ) (k : Kernel)
    → (ltb (page_number pt) 512
          && owner_eq (k.pageinfo (page_number pt)).owner owner
          && ((k.pageinfo (page_number pt)).refcount == refcount)
        ≡ true)
      ↔ TableOk pt owner refcount k
table_iff pt owner refcount k = (λ h. ground arith, λ h. ground arith)

and_iff : {P Q : Type 0} (a b : Bool) → (a ≡ true) ↔ P → (b ≡ true) ↔ Q → (a && b ≡ true) ↔ (P × Q)
and_iff true true p q = (λ h. (p.0 refl, q.0 refl), λ h. refl)
and_iff true false p q = (λ h. absurd (ground arith), λ h. q.1 h.1)
and_iff false b p q = (λ h. absurd (ground arith), λ h. p.1 h.0)

or_true : (a b : Bool) → a ≡ false → a || b ≡ true → b ≡ true
or_true true b e h = absurd (ground arith)
or_true false b e h = h

zero_or : (n : ℕ) (b : Bool) → (n ≢ 0 → b ≡ true) → (n == 0) || b ≡ true
zero_or n b h = elim (ℕ_discrete n 0) [ yes e ↦ rw e refl | no ne ↦ rw (h ne) (ground arith) ]

-- The asserts of `check_page_table_ownership_level` hold exactly when the table and every table
-- that it leads to is a physical page with the right owner and reference count.
pub check_level_iff :
    (levels pt : ℕ) (owner : Owner) (refcount : ℕ) (k : Kernel)
    → (check_level levels pt owner refcount k ≡ true) ↔ LevelOk levels pt owner refcount k
unfolding check_level
check_level_iff zero pt owner refcount k = table_iff pt owner refcount k
check_level_iff (suc levels) pt owner refcount k =
    let entry = λ (index : ℕ). k.mem (pt + 8 * index) in
    let below = λ (index : ℕ). check_level levels (pte_addr (entry index)) owner 1 k in
    let all = all_from_iff 512 0 (λ index. (entry index == 0) || below index) in
    and_iff _ _ (table_iff pt owner refcount k) (
      λ h index small ne. (check_level_iff levels (pte_addr (entry index)) owner 1 k).0 (
          or_true (entry index == 0) (below index) (ground (arith, ne))
            (all.0 h index (omega arith) (omega arith))),
      λ h. all.1 (λ index lo hi. zero_or (entry index) (below index) (λ ne.
          (check_level_iff levels (pte_addr (entry index)) owner 1 k).1
            (h index (omega arith) ne))),
    )
