-- ===== src/Kernel/Segment.antt =====
-- About program_load_segment of kernel/k-loader.c ends, and the breaks that
-- it leaves.
use memory_management.Base.{
  ℕ, zero, suc, ◌+◌, ◌-◌, ◌*◌, ◌/◌, ◌%◌, ◌^◌, ◌≤◌, ◌<◌, ◌≡◌, ◌≢◌, refl, ◌∙◌, ap, Bool, true, not,
  ◌==◌, ==-refl, ltb, if◌then◌else◌, if-cases, add64, sub64, round_up, round_down, arith,
}
use memory_management.Base.Run.{ok, Settles, settled, faulted, Settles-bind, Settles-weaken}
use memory_management.Clib.Memory.{Memory}
use memory_management.Boot.Elf.{ElfProgram}
use memory_management.Kernel.PageTable.{Entries, page_size, memsize_virtual}
use memory_management.Kernel.System.{Image, System}
use memory_management.Kernel.Syscalls.{Vm, pagetable_asserts, set_pagetable}
use memory_management.Kernel.Breaks.{Option-Settles, Any, IsProcess, virtual_memory_map-Settles}
use memory_management.Kernel.Loader.{
  write_address, Loading, with_mem, page_rounds, store_byte, copy_in, clear_in, fill, alloc_loop,
  protect_loop, finish_segment, program_load_segment,
}

-- A segment that lies between the first page and the last one that a break may reach.
pub record Fits (p : ElfProgram) : Type 0 where
  pub low : page_size ≤ p.p_va + p.p_memsz
  pub high : p.p_va + p.p_memsz ≤ memsize_virtual - 2 * page_size

-- Enough fuel for the pages from `addr` on.
abbrev Enough : (fuel addr end_mem : ℕ) → Type 0
Enough fuel addr end_mem = (end_mem - addr + 4095) / page_size < fuel

store_byte-Settles :
    (pagetable va byte : ℕ) (mem : Entries) (bytes : Memory)
    → Settles Any (store_byte pagetable va byte mem bytes)
unfolding store_byte
store_byte-Settles pagetable va byte mem bytes =
    Option-Settles (write_address 4 0 pagetable va mem) faulted (λ pa. settled tt)

copy_in-Settles :
    (left pagetable va src : ℕ) (file : Memory) (mem : Entries) (bytes : Memory)
    → Settles Any (copy_in left pagetable va src file mem bytes)
unfolding copy_in
copy_in-Settles zero pagetable va src file mem bytes = settled tt
copy_in-Settles (suc left) pagetable va src file mem bytes =
    Settles-bind (store_byte-Settles pagetable va (file src) mem bytes)
      λ bytes' _. copy_in-Settles left pagetable (va + 1) (src + 1) file mem bytes'

clear_in-Settles :
    (left pagetable va : ℕ) (mem : Entries) (bytes : Memory)
    → Settles Any (clear_in left pagetable va mem bytes)
unfolding clear_in
clear_in-Settles zero pagetable va mem bytes = settled tt
clear_in-Settles (suc left) pagetable va mem bytes =
    Settles-bind (store_byte-Settles pagetable va 0 mem bytes)
      λ bytes' _. clear_in-Settles left pagetable (va + 1) mem bytes'

protect_loop-Settles :
    (fuel pagetable addr end_mem : ℕ) (mem : Entries)
    → Enough fuel addr end_mem
    → end_mem < 2 ^ 62
    → Settles Any (protect_loop fuel pagetable addr end_mem mem)
unfolding protect_loop
protect_loop-Settles zero pagetable addr end_mem mem enough small = absurd (omega arith)
protect_loop-Settles (suc fuel) pagetable addr end_mem mem enough small =
    if-cases (Settles Any) (ltb addr end_mem)
      (λ e. Settles-bind (virtual_memory_map-Settles pagetable addr _ page_size 5 mem) λ r _.
        let next : add64 addr page_size ≡ addr + page_size = ground arith in
        rw next
          (protect_loop-Settles fuel pagetable (addr + page_size) end_mem r.1 (ground arith) small))
      (λ e. settled tt)

module _ (vm : Vm) where
  open vm use {palloc}

  alloc_loop-Settles :
      (fuel pid addr end_mem : ℕ) (s : System)
      → Enough fuel addr end_mem
      → end_mem < 2 ^ 62
      → Settles (λ r. r.1.processes ≡ s.processes) (alloc_loop vm fuel pid addr end_mem s)
  unfolding alloc_loop
  alloc_loop-Settles zero pid addr end_mem s enough small = absurd (omega arith)
  alloc_loop-Settles (suc fuel) pid addr end_mem s enough small =
      let P = λ (r : Bool × System). r.1.processes ≡ s.processes in
      let got = palloc (s.processes pid).p_pid s in
      let kept = vm.palloc_processes (s.processes pid).p_pid s in
      if-cases (Settles P) (not (ltb addr end_mem)) (λ e. settled refl)
        λ below.
          if-cases (Settles P) (got.0 == 0) (λ e. settled kept)
            λ some_page.
              Settles-bind (virtual_memory_map-Settles _ addr got.0 page_size 7 got.1.kernel.mem)
                λ r _.
                  if-cases (Settles P) r.0
                    (λ e.
                      let next : add64 addr page_size ≡ addr + page_size = ground arith in
                      rw next (
                        Settles-weaken
                          (alloc_loop-Settles fuel pid (addr + page_size) end_mem
                            (with_mem r.1 got.1) (ground arith) small)
                          λ t same. settled (same ∙ kept)))
                    (λ e. settled kept)

-- The descriptors of other processes are as before.
abbrev pub Kept : (pid : ℕ) → System → System → Type 0
Kept pid s t = (q : ℕ) → q ≢ pid → t.processes q ≡ s.processes q

-- The breaks at the end of a segment are in range.
finish_segment-IsProcess :
    (pid va end_mem flags : ℕ) (s : System)
    → va ≤ end_mem
    → page_size ≤ end_mem
    → end_mem ≤ memsize_virtual - 2 * page_size
    → Settles
        (λ t. Kept pid s t × IsProcess (t.processes pid))
        (finish_segment pid va end_mem flags s)
unfolding finish_segment round_up round_down
finish_segment-IsProcess pid va end_mem flags s start low high =
    let p = s.processes pid in
    let top = round_up end_mem page_size in
    let process : IsProcess (record p { program_break = top; original_break = top }) = record {
      pos = omega arith;
      above = omega arith;
      below = omega arith;
    } in
    let memory : Settles Any (
        if flags / 2 % 2 == 0
        then protect_loop (page_rounds va end_mem) p.p_pagetable va end_mem s.kernel.mem
        else ok s.kernel.mem) =
      if-cases (Settles Any) (flags / 2 % 2 == 0)
        (λ e.
          protect_loop-Settles (page_rounds va end_mem) p.p_pagetable va end_mem s.kernel.mem
            (omega arith) (omega arith))
        (λ e. settled tt) in
    Settles-bind memory λ mem _. settled ((λ q other. ground arith), rw (==-refl pid) process)

set_pagetable-Settles :
    (image : Image) (pagetable : ℕ) (s : System)
    → Settles (λ t. t ≡ s) (set_pagetable image pagetable s)
unfolding set_pagetable
set_pagetable-Settles image pagetable s =
    if-cases (Settles (λ t. t ≡ s)) (pagetable_asserts image pagetable s.kernel.mem)
      (λ e. settled refl) (λ e. faulted)

fill-Settles :
    (pagetable va end_file end_mem src : ℕ) (file : Memory) (mem : Entries) (bytes : Memory)
    → Settles Any (fill pagetable va end_file end_mem src file mem bytes)
unfolding fill
fill-Settles pagetable va end_file end_mem src file mem bytes =
    Settles-bind (copy_in-Settles (sub64 end_file va) pagetable va src file mem bytes)
      λ bytes' _. clear_in-Settles (sub64 end_mem end_file) pagetable end_file mem bytes'

round_down-le : (a : ℕ) → a < 2 ^ 64 → round_down a page_size ≤ a
unfolding round_down
round_down-le a small = omega arith

module _ (vm : Vm) (image : Image) where
  pub program_load_segment-IsProcess :
      (pid : ℕ) (ph : ElfProgram) (src : ℕ) (file : Memory) (l : Loading)
      → Fits ph
      → Settles
          (λ r. Kept pid l.system r.1.system × (r.0 ≡ true → IsProcess (r.1.system.processes pid)))
          (program_load_segment vm image pid ph src file l)
  unfolding program_load_segment
  program_load_segment-IsProcess pid ph src file l fits =
      let va = round_down ph.p_va page_size in
      let end_mem = add64 ph.p_va ph.p_memsz in
      let end' : end_mem ≡ ph.p_va + ph.p_memsz = omega (arith, fits.high) in
      let start : va ≤ end_mem =
        omega (arith, end', fits.high, round_down-le ph.p_va (omega (arith, fits.high))) in
      Settles-bind
        (alloc_loop-Settles vm (page_rounds va end_mem) pid va end_mem l.system (omega arith)
          (omega (arith, end', fits.high)))
        λ r same.
          if-cases (Settles _) r.0
            (λ done.
              Settles-bind (set_pagetable-Settles image (r.1.processes pid).p_pagetable r.1)
                λ s2 same2.
                  Settles-bind (fill-Settles _ va _ end_mem src file s2.kernel.mem l.bytes)
                    λ bytes _.
                      Settles-bind (set_pagetable-Settles image image.kernel_pagetable s2)
                        λ s3 same3.
                          Settles-bind
                            (finish_segment-IsProcess pid va end_mem ph.p_flags s3 start
                              (omega (arith, end', fits.low)) (omega (arith, end', fits.high)))
                            λ s4 (kept, process). settled (
                              (λ q other.
                                  kept q other
                                  ∙ ap (λ t. t.processes q) same3
                                  ∙ ap (λ t. t.processes q) same2
                                  ∙ (λ i. same i q)),
                              λ e. process,
                            ))
            (λ e. settled ((λ q other i. same i q), λ wrong. absurd (ground arith)))
