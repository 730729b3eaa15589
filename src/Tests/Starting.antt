-- ===== src/Tests/Starting.antt =====
-- kernel/k-loader.c, the start of kernel/kernel.c and the system calls at concrete inputs.
use memory_management.Base.{
  round_down, ℕ, ◌+◌, ◌-◌, ◌*◌, ◌/◌, ◌%◌, ◌^◌, ◌<◌, ◌≡◌, refl, ◌∙◌, ap, sym, true, Option, none,
  some, Bool, false, ◌&&◌, ◌||◌, ◌==◌, ltb, if◌then◌else◌, arith,
}
use memory_management.Base.Run.{Run, ok, Returns, Settles}
use memory_management.Tests.{proc-IsProcess}
use memory_management.Tests.System.{image, system, vm, identity}
use memory_management.Clib.Memory.{Memory}
use memory_management.Kernel.Syscalls.{Vm, pagetable_asserts, set_pagetable}
use memory_management.Boot.Elf.{load, elf_header, elf_program}
use memory_management.Kernel.Registers.{zero_registers}
use memory_management.Kernel.PageTable.{
  pageindex, virtual_memory_lookup, virtual_memory_map, lookup_loop, mask_perm, map_loop, map_page,
  map_asserts, lookup_l4pagetable, l4_loop,
}
use memory_management.Kernel.Loader.{
  Loading, write_address, store_byte, copy_in, clear_in, fill, program_load, segments_loop,
  program_load_segment, alloc_loop, protect_loop, finish_segment,
}
use memory_management.Kernel.Loaded.{Reaches, Filled, fill-Filled}
use memory_management.Kernel.Segment.{Kept}
use memory_management.Kernel.Placed.{AllFit, Ready, program_load-Ready}
use memory_management.Uspace.Calls.{sbrk}
use memory_management.Uspace.Called.{Answered, sbrk-Answered}

sbrk-Answered_example :
    Settles (Answered vm image zero_registers 64 system) (sbrk vm image zero_registers 64 system)
sbrk-Answered_example =
    sbrk-Answered vm image zero_registers 64 system (omega (arith, proc-IsProcess)) refl

identity-write : (va : ℕ) → va < 2 ^ 21 → write_address 4 0 0x46000 va identity ≡ some va
unfolding write_address pageindex
identity-write va small =
    let first : identity (0x46000 + 8 * (va / 2 ^ 39 % 512)) ≡ 0x47007 = ground arith in
    let second : identity (0x47000 + 8 * (va / 2 ^ 30 % 512)) ≡ 0x48007 = ground arith in
    let third : identity (0x48000 + 8 * (va / 2 ^ 21 % 512)) ≡ 0x49007 = ground arith in
    let entry : identity (0x49000 + 8 * (va / 4096 % 512)) ≡ va / 4096 * 4096 + 7 = ground arith in
    let e = va / 4096 * 4096 + 7 in
    let open_page : ((e % 2 == 1) && (e / 2 % 2 == 1)) ≡ true = ground arith in
    let pa : e / 4096 * 4096 + va % 4096 ≡ va = omega arith in
    rw (first, second, third, entry, open_page, pa) refl

abbrev or_zero : Option ℕ → ℕ
or_zero none = 0
or_zero (some pa) = pa

identity-Reaches : Reaches 0x46000 identity 0x100000 0x100020
identity-Reaches = record {
  open_page = λ a lo hi.
      let found = identity-write a (omega arith) in found ∙ ap (λ w. some (or_zero w)) (sym found);
  apart = λ a b la ha lb hb same.
      sym (ap or_zero (identity-write a (omega arith)))
      ∙ same
      ∙ ap or_zero (identity-write b (omega arith));
}

fill-Filled_example :
    Returns
      (Filled 0x46000 identity 0x100000 0x100020
        (λ a. if ltb a 0x100010 then 0 + (a - 0x100000) else 0)
        (λ q. 255))
      (fill 0x46000 0x100000 0x100010 0x100020 0 (λ q. q) identity (λ q. 255))
fill-Filled_example =
    fill-Filled 0x46000 identity 0x100000 0x100010 0x100020 0 (λ q. q) (λ q. 255) (omega arith)
      (omega arith) (omega arith) identity-Reaches

-- A program with one segment to load, of 16 bytes at 0x100000.
abbrev program : Memory
program = λ q.
    if q == 0
    then 0x7F
    else if q == 1
    then 0x45
    else if q == 2
    then 0x4C
    else if q == 3
    then 0x46
    else if q == 0x20
    then 64
    else if (q == 0x38) || (q == 64)
    then 1
    else if (q == 82) || (q == 104)
    then 0x10
    else 0

-- A k-vm with a free page.
abbrev pages : Vm
pages = record vm {
  palloc = λ pid s. (0x100000, s);
  palloc_processes = λ pid s. refl;
  palloc_current = λ pid s. refl;
}

abbrev loading : Loading
loading = record { system = system; bytes = λ q. 0 }

program-AllFit : AllFit (elf_header 0 program).e_phnum (elf_header 0 program).e_phoff program
unfolding elf_header elf_program load
program-AllFit = λ i lt loads.
    let at : i ≡ 0 = omega arith in rw at (record { low = omega arith; high = omega arith })

program_load-Ready_example :
    Settles
      (λ r. Kept 1 system r.1.system × (r.0 ≡ true → Ready pages image 1 program system r.1.system))
      (program_load pages image (λ i. program) 1 0 loading)
program_load-Ready_example =
    program_load-Ready pages image (λ i. program) 1 0 loading program-AllFit

has_loaded : Run (Bool × Loading) → Bool
has_loaded (ok r) = r.0
has_loaded _ = false

-- The program is loaded.
program_loads : has_loaded (program_load pages image (λ i. program) 1 0 loading) ≡ true
unfolding has_loaded program_load segments_loop program_load_segment alloc_loop protect_loop
    finish_segment fill copy_in clear_in store_byte write_address set_pagetable pagetable_asserts
    virtual_memory_lookup virtual_memory_map lookup_loop mask_perm map_loop map_page map_asserts
    lookup_l4pagetable l4_loop pageindex elf_header elf_program load round_down
program_loads = refl
