-- ===== src/Kernel/Consistency.antt =====
-- About check_virtual_memory of kernel/kernel.c: what its asserts say of the system.
use mathlib.Core.Logic.{◌↔◌}
use memory_management.Base.{
  ℕ, ◌+◌, ◌*◌, ◌≤◌, ◌<◌, ◌≡◌, ◌≢◌, inl, inr, refl, Bool, true, false, ◌&&◌, ◌||◌, Option, none,
  some, ◌==◌, ltb, if◌then◌else◌, arith, eq_of_==, Bool-cases, ℕ_discrete,
}
use memory_management.Kernel.PageTable.{
  Entries, page_size, pte_addr, is_writable, virtual_memory_lookup,
}
use memory_management.Kernel.Process.{Owner, PageInfo, Proc, process, po_kernel}
use memory_management.Kernel.System.{
  Image, System, all_from, is_p_free, pages, check_page_table_mappings, check_page_table_ownership,
  count_users, check_process, check_owner, check_page_owner, check_virtual_memory, owner_pid,
  is_referenced,
}
use memory_management.Kernel.Checks.{all_from_iff, LevelOk, check_level_iff}
use memory_management.Kernel.Schedule.{nproc}

four :
    (a b c d : Bool)
    → (a && b && c && d ≡ true) ↔ ((a ≡ true) × (b ≡ true) × (c ≡ true) × (d ≡ true))
four a b c d = (λ h. ground arith, λ h. ground arith)

five :
    (a b c d e : Bool)
    → (a && b && c && d && e ≡ true)
      ↔ ((a ≡ true) × (b ≡ true) × (c ≡ true) × (d ≡ true) × (e ≡ true))
five a b c d e = (λ h. ground arith, λ h. ground arith)

-- The kernel's code and data are identity mapped from 0x40000 on, its data writable, and its stack
-- is identity mapped and writable.
pub record HasMappings (image : Image) (pt : ℕ) (mem : Entries) : Type 0 where
  pub aligned : pte_addr pt ≡ pt
  pub identity :
      (i : ℕ)
      → i < pages 0x40000 image.end
      → (virtual_memory_lookup pt (0x40000 + i * page_size) mem).pa ≡ 0x40000 + i * page_size
  pub writable :
      (i : ℕ)
      → i < pages 0x40000 image.end
      → image.start_data ≤ 0x40000 + i * page_size
      → is_writable (virtual_memory_lookup pt (0x40000 + i * page_size) mem).perm ≡ true
  pub stack_identity : (virtual_memory_lookup pt 0x7F000 mem).pa ≡ 0x7F000
  pub stack_writable : is_writable (virtual_memory_lookup pt 0x7F000 mem).perm ≡ true

module _ (image : Image) where
  mappings_iff :
      (pt : ℕ) (mem : Entries)
      → (check_page_table_mappings image pt mem ≡ true) ↔ HasMappings image pt mem
  unfolding check_page_table_mappings
  mappings_iff pt mem =
      let va = λ (i : ℕ). 0x40000 + i * page_size in
      let vam = λ (i : ℕ). virtual_memory_lookup pt (va i) mem in
      let test = λ (i : ℕ).
        ((vam i).pa == va i) && (ltb (va i) image.start_data || is_writable (vam i).perm) in
      let stack = virtual_memory_lookup pt 0x7F000 mem in
      let all = all_from_iff (pages 0x40000 image.end) 0 test in
      let parts =
        four (pte_addr pt == pt) (all_from (pages 0x40000 image.end) 0 test) (stack.pa == 0x7F000)
          (is_writable stack.perm) in
      (
        λ h.
            let p = parts.0 h in
            record {
              aligned = eq_of_== _ _ p.0;
              identity = λ i small. ground (arith, all.0 p.1 i (omega arith) (omega arith));
              writable = λ i small data'. ground (arith, all.0 p.1 i (omega arith) (omega arith));
              stack_identity = eq_of_== _ _ p.2;
              stack_writable = p.3;
            },
        λ v. parts.1 (
          ground (arith, v.aligned),
          all.1 (λ i lo hi. ground (arith, v.identity i (omega arith), v.writable i (omega arith))),
          ground (arith, v.stack_identity),
          v.stack_writable,
        ),
      )

  -- A page table belongs to its owner down to the last level; the kernel's counts its users.
  abbrev IsOwned : (pt : ℕ) → Owner → System → Type 0
  IsOwned pt owner s =
      LevelOk 3 pt (if pt == image.kernel_pagetable then po_kernel else owner)
        (if pt == image.kernel_pagetable then count_users nproc 0 pt s.processes else 1) s.kernel

  IsOwned-iff :
      (pt : ℕ) (owner : Owner) (s : System)
      → (check_page_table_ownership image pt owner s ≡ true) ↔ IsOwned pt owner s
  unfolding check_page_table_ownership
  IsOwned-iff pt owner s = elim (Bool-cases (pt == image.kernel_pagetable)) [
    | inl e ↦ rw e (check_level_iff 3 pt po_kernel (count_users nproc 0 pt s.processes) s.kernel)
    | inr e ↦ rw e (check_level_iff 3 pt owner 1 s.kernel)
  ]

  -- The invariant that `check_virtual_memory` describes in its comments.
  pub record IsConsistent (s : System) : Type 0 where
    pub unused : is_p_free (s.processes 0).p_state ≡ true
    pub kernel_mapped : HasMappings image image.kernel_pagetable s.kernel.mem
    pub kernel_owned : IsOwned image.kernel_pagetable po_kernel s
    pub mapped :
        (pid : ℕ)
        → pid < nproc
        → is_p_free (s.processes pid).p_state ≡ false
        → (s.processes pid).p_pagetable ≢ image.kernel_pagetable
        → HasMappings image (s.processes pid).p_pagetable s.kernel.mem
    pub owned :
        (pid : ℕ)
        → pid < nproc
        → is_p_free (s.processes pid).p_state ≡ false
        → (s.processes pid).p_pagetable ≢ image.kernel_pagetable
        → IsOwned (s.processes pid).p_pagetable (process pid) s
    pub active :
        (pn pid : ℕ)
        → pn < 512
        → owner_pid (s.kernel.pageinfo pn).owner ≡ some pid
        → is_referenced (s.kernel.pageinfo pn) ≡ true
        → is_p_free (s.processes pid).p_state ≡ false

  process_iff :
      (s : System) (pid : ℕ)
      → (check_process image s pid ≡ true) ↔ (
          is_p_free (s.processes pid).p_state ≡ false
          → (s.processes pid).p_pagetable ≢ image.kernel_pagetable
          → HasMappings image (s.processes pid).p_pagetable s.kernel.mem
            × IsOwned (s.processes pid).p_pagetable (process pid) s)
  unfolding check_process
  process_iff s pid =
      let p = s.processes pid in
      let m = mappings_iff p.p_pagetable s.kernel.mem in
      let o = IsOwned-iff p.p_pagetable (process pid) s in
      (
        λ h busy own. (m.0 (ground arith), o.0 (ground arith)),
        λ h. elim (Bool-cases (is_p_free p.p_state)) [
          | inl e ↦ rw e refl
          | inr e ↦ elim (ℕ_discrete p.p_pagetable image.kernel_pagetable) [
            | yes k ↦ ground (arith, k)
            | no k ↦ ground (arith, m.1 (h e k).0, o.1 (h e k).1)
          ]
        ],
      )

  page_iff :
      (i : PageInfo) (o : Option ℕ) (processes : ℕ → Proc)
      → (check_owner i o processes ≡ true) ↔ (
          (pid : ℕ)
          → o ≡ some pid
          → is_referenced i ≡ true
          → is_p_free (processes pid).p_state ≡ false)
  unfolding check_owner
  page_iff i none processes = (λ h pid e r. absurd (ground arith), λ h. refl)
  page_iff i (some owner) processes = (
    λ h pid e r. ground arith,
    λ h. elim (Bool-cases (is_referenced i)) [
      | inl e ↦ rw (e, h owner refl e) refl
      | inr e ↦ rw e refl
    ],
  )

  -- The asserts of `check_virtual_memory` hold exactly when the system satisfies the invariant.
  pub check_virtual_memory_iff :
      (s : System) → (check_virtual_memory image s ≡ true) ↔ IsConsistent s
  unfolding check_virtual_memory
  check_virtual_memory_iff s =
      let km = mappings_iff image.kernel_pagetable s.kernel.mem in
      let ko = IsOwned-iff image.kernel_pagetable po_kernel s in
      let ps = all_from_iff nproc 0 (check_process image s) in
      let os = all_from_iff 512 0 (check_page_owner s) in
      let parts =
        five (is_p_free (s.processes 0).p_state)
          (check_page_table_mappings image image.kernel_pagetable s.kernel.mem)
          (check_page_table_ownership image image.kernel_pagetable po_kernel s)
          (all_from nproc 0 (check_process image s)) (all_from 512 0 (check_page_owner s)) in
      (
        λ h.
            let p = parts.0 h in
            record {
              unused = p.0;
              kernel_mapped = km.0 p.1;
              kernel_owned = ko.0 p.2;
              mapped = λ pid n busy own.
                  ((process_iff s pid).0 (ps.0 p.3 pid (omega arith) (omega arith)) busy own).0;
              owned = λ pid n busy own.
                  ((process_iff s pid).0 (ps.0 p.3 pid (omega arith) (omega arith)) busy own).1;
              active = λ pn pid n e r.
                  (page_iff (s.kernel.pageinfo pn) (owner_pid (s.kernel.pageinfo pn).owner)
                      s.processes).0
                    (os.0 p.4 pn (omega arith) (omega arith)) pid e r;
            },
        λ v. parts.1 (
          v.unused,
          km.1 v.kernel_mapped,
          ko.1 v.kernel_owned,
          ps.1 (λ pid lo hi. (process_iff s pid).1 (λ busy own.
              (v.mapped pid (omega arith) busy own, v.owned pid (omega arith) busy own))),
          os.1 (λ pn lo hi.
              (page_iff (s.kernel.pageinfo pn) (owner_pid (s.kernel.pageinfo pn).owner)
                  s.processes).1
                (λ pid e r. v.active pn pid (omega arith) e r)),
        ),
      )
