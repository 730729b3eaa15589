-- ===== src/Tests/Tables.antt =====
-- kernel/vm.c and uspace/process.c at concrete memories.
use memory_management.Base.{ℕ, ◌*◌, ◌≡◌, refl, inl, List, [], ◌∷◌, ◌==◌, if◌then◌else◌, arith}
use memory_management.Base.Run.{Returns}
use memory_management.Tests.System.{image, system}
use memory_management.Clib.Format.{VaList}
use memory_management.Kernel.PageTable.{Entries, pageindex, virtual_memory_map}
use memory_management.Kernel.Translate.{Walk}
use memory_management.Kernel.Mapped.{Apart, Mapped, virtual_memory_map-Mapped}
use memory_management.Kernel.Start.{virtual_memory_init}
use memory_management.Kernel.Identity.{IsLoaded, Identity, virtual_memory_init-Identity}
use memory_management.Uspace.Print.{panic_message}
use memory_management.Uspace.Panics.{Message, panic_message-Message}

-- Tables at 0x46000, 0x47000, 0x48000 and 0x49000, each linked to the next.
abbrev pub tables : Entries
tables = λ q.
    if q == 0x46000
    then 0x47007
    else if q == 0x47000
    then 0x48007
    else if q == 0x48000
    then 0x49007
    else 0

tables-Walk : Walk tables 0x46000 0x100000 0x47000 0x48000 0x49000
unfolding pageindex
tables-Walk = record {
  first = record { bits = refl; addr = refl; physical = omega arith };
  second = record { bits = refl; addr = refl; physical = omega arith };
  third = record { bits = refl; addr = refl; physical = omega arith };
}

tables-Apart : Apart 0x46000 0x100000 0x47000 0x48000 0x49000
unfolding pageindex
tables-Apart = record {
  first = inl (omega arith);
  second = inl (omega arith);
  third = inl (omega arith);
}

-- Two pages at 0x100000.
virtual_memory_map-Mapped_example :
    Returns
      (Mapped 0x46000 0x100000 0x5000 7 2 0x49000 256 tables)
      (virtual_memory_map 0x46000 0x100000 0x5000 (2 * 4096) 7 tables)
virtual_memory_map-Mapped_example =
    virtual_memory_map-Mapped 0x46000 0 256 2 0x5000 7 0x47000 0x48000 0x49000 tables tables-Walk
      tables-Apart refl (omega arith) (omega arith) (omega arith) refl (omega arith) refl
      (omega arith)

pub image-IsLoaded : IsLoaded image
image-IsLoaded = record {
  aligned = refl;
  tables = omega arith;
  handler = omega arith;
  mapper = omega arith;
}

virtual_memory_init-Identity_example :
    Returns
      (λ t.
        Identity image.kernel_pagetable t.kernel.mem
        × (t.kernel.pageinfo ≡ system.kernel.pageinfo)
        × (t.processes ≡ system.processes)
        × (t.current ≡ system.current)
        × (t.ticks ≡ system.ticks)
        × (t.disp_global ≡ system.disp_global))
      (virtual_memory_init image system)
virtual_memory_init-Identity_example = virtual_memory_init-Identity image image-IsLoaded system

abbrev text : List ℕ
text = b'%' ∷ b'd' ∷ []

abbrev args : VaList
args = record { slot = λ i. record { word = 7; text = [] }; next = 0 }

panic_message-Message_example :
    Returns (Message 0x1000 (λ q. 1)) (panic_message 0x1000 text args (λ q. 1))
panic_message-Message_example = panic_message-Message 0x1000 text args (λ q. 1)
