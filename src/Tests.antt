-- ===== src/Tests.antt =====
-- Runs of the models, and the theorems at concrete inputs.
mod Boot
mod Disk
mod Tables
mod Starting
mod Printers
mod Hardware
mod System
use memory_management.Base.{
  ℕ, ◌+◌, ◌-◌, ◌%◌, ◌^◌, ◌≤◌, ◌≡◌, refl, ◌⊎◌, true, List, [], ◌∷◌, arith, ◌==◌, ◌||◌, update,
  if◌then◌else◌, minus_one,
}
use memory_management.Base.Run.{ok, out_of_fuel, Returns, Settles}
use memory_management.Clib.Memory.{memmove}
use memory_management.Clib.Numbers.{Filled, fill_numbuf, fill_numbuf-Filled}
use memory_management.Clib.Strings.{IsString}
use memory_management.Kernel.Schedule.{Turn, schedule_loop, schedule_loop-Turn}
use memory_management.Clib.Copy.{memmove_lem}
use memory_management.Malloc.Links.{Ptr}
use memory_management.Malloc.Arena.{Arena, header, append_list_ordered}
use memory_management.Malloc.Invariant.{IsArena, IsBlock}
use memory_management.Malloc.Lists.{FreeInserted, append_list_ordered-free}
use memory_management.Malloc.Detach.{IsArena-grow}
use memory_management.Malloc.Sizes.{required_size-wraps}
use memory_management.Malloc.Ops.{
  HeapInfo, heap_info, malloc, free, calloc, realloc, defrag, required_size,
}
use memory_management.Malloc.Allocate.{IsState, Malloced, malloc-Malloced}
use memory_management.Malloc.Informed.{Informed, heap_info-Informed}
use memory_management.Malloc.Free.{Freed, free-Freed}
use memory_management.Malloc.Calloc.{Calloced, calloc-Calloced, calloc-overflow}
use memory_management.Malloc.Realloc.{Realloced, realloc-Realloced}
use memory_management.Malloc.Defrag.{Compact, defrag-Compact}
use memory_management.Kernel.Registers.{zero_registers}
use memory_management.Kernel.Process.{Proc, Kernel, po_free, p_runnable, p_free, sbrk}
use memory_management.Kernel.Breaks.{Moved, sbrk-Moved}
use memory_management.Kernel.Breaks
use memory_management.Kernel.Process
use memory_management.Kernel.UserBreak.{process_breaks, user_sbrk}
use memory_management.Base.{false, inr}
use memory_management.Malloc.Arena.{remove_list, search_free}
use memory_management.Malloc.Search.{search_free-first_fit}
use memory_management.Malloc.Detach.{remove_list-free, remove_list-alloc}
use memory_management.Malloc.Lists.{AllocInserted, append_list_ordered-alloc}
use memory_management.Clib.Strings.{Copied, strcmp, strcmp_lem, strcpy, strcpy-Copied}

-- Two free blocks that touch, and an allocated one of 20 bytes behind them.
abbrev f1 : Ptr
f1 = 0x110000

abbrev f2 : Ptr
f2 = 0x110040

abbrev b1 : Ptr
b1 = 0x1100a0

abbrev top : ℕ
top = 0x1100e0

abbrev arena : Arena
arena = record {
  size = λ q. if q == f2 then 96 else 64;
  alloc_bytes = λ q. 20;
  links = record { prev = λ q. if q == f2 then f1 else 0; next = λ q. if q == f1 then f2 else 0 };
  free = record { head = f1; tail = f2; count = 2 };
  alloc = record { head = b1; tail = b1; count = 1 };
  payload = λ q. q % 256;
}

abbrev fs : List Ptr
fs = f1 ∷ f2 ∷ []

abbrev bs : List Ptr
bs = b1 ∷ []

arena-IsArena : IsArena arena top fs bs
arena-IsArena = record {
  free_linked = record { chain = ground arith; count = refl };
  alloc_linked = record { chain = ground arith; count = refl };
  shared = λ q m. ground arith;
  block = λ q m. ground arith;
  apart = λ q r m k ne. ground arith;
  ascending = (λ q m. ground arith, (λ q m. absurd (ground arith), tt));
  descending = (λ q m. absurd (ground arith), tt);
  room = λ q m. ground arith;
}

abbrev proc : Proc
proc = record {
  p_pid = 1;
  program_break = top;
  original_break = f1;
  p_registers = zero_registers;
  p_state = p_runnable;
  p_pagetable = 0x8000;
  display_status = true;
}

abbrev kernel : Kernel
kernel = record { mem = λ q. 0; pageinfo = λ pn. record { owner = po_free; refcount = 0 } }

proc-IsProcess : Breaks.IsProcess proc
proc-IsProcess = omega arith

state : IsState process_breaks arena (proc, kernel) fs bs
state = record { arena = arena-IsArena; process = proc-IsProcess; aligned = refl }

-- The kernel grows the heap of `proc`.
sbrk_runs : (user_sbrk 16384 (proc, kernel)).0 ≡ top
unfolding sbrk Process.int_to_word
sbrk_runs = refl

abbrev no_info : HeapInfo
no_info = record {
  num_allocs = 0;
  size_array = 0;
  ptr_array = 0;
  free_space = 0;
  largest_free_chunk = 0;
}

malloc-Malloced_example :
    Returns
      (Malloced process_breaks arena (proc, kernel) fs bs 50)
      (malloc process_breaks 50 arena (proc, kernel))
malloc-Malloced_example =
    malloc-Malloced process_breaks arena (proc, kernel) fs bs 50 state (omega arith)

heap_info-Informed_example :
    Returns
      (Informed process_breaks arena (proc, kernel) fs bs)
      (heap_info process_breaks no_info arena (proc, kernel))
heap_info-Informed_example =
    heap_info-Informed process_breaks arena (proc, kernel) fs bs no_info state (omega arith)
      (omega arith)

free-Freed_example : Returns (Freed arena top fs bs b1) (free (b1 + header) arena)
free-Freed_example = free-Freed arena top fs bs arena-IsArena (omega arith) b1 refl

defrag-Compact_example : Returns (Compact arena top fs bs) (defrag arena)
defrag-Compact_example = defrag-Compact arena top fs bs arena-IsArena (omega arith)

realloc-Realloced_example :
    Returns
      (Realloced process_breaks arena (proc, kernel) fs bs b1 60)
      (realloc process_breaks (b1 + header) 60 arena (proc, kernel))
realloc-Realloced_example =
    realloc-Realloced process_breaks arena (proc, kernel) fs bs b1 60 state refl (omega arith)
      (omega arith)

calloc-Calloced_example :
    Returns
      (Calloced process_breaks arena (proc, kernel) fs bs 6 5)
      (calloc process_breaks 6 5 arena (proc, kernel))
calloc-Calloced_example =
    calloc-Calloced process_breaks arena (proc, kernel) fs bs 6 5 state (omega arith)

calloc-overflow_example :
    calloc process_breaks (2 ^ 32) (2 ^ 32) arena (proc, kernel) ≡ ok (0, arena, (proc, kernel))
calloc-overflow_example =
    calloc-overflow process_breaks arena (proc, kernel) (2 ^ 32) (2 ^ 32) (omega arith)

-- A block at 0x120000 is vacant below a higher break.
new-IsBlock : IsBlock top 64 (top + 64)
new-IsBlock = omega arith

append_list_ordered-free_example :
    Returns (FreeInserted arena (top + 64) fs bs top 64) (append_list_ordered top 64 0 true arena)
append_list_ordered-free_example =
    append_list_ordered-free arena (top + 64) fs bs
      (IsArena-grow arena top (top + 64) fs bs (omega arith) arena-IsArena) top 64 new-IsBlock
      (λ q m. ground arith) 0

required_size-wraps_example : required_size (2 ^ 64 - 20) ≤ header
required_size-wraps_example = required_size-wraps (2 ^ 64 - 20) (omega arith) (omega arith)

sbrk-Moved_example : Settles (Moved proc (2 ^ 64 - 4096) kernel) (sbrk proc (2 ^ 64 - 4096) kernel)
sbrk-Moved_example = sbrk-Moved proc (2 ^ 64 - 4096) kernel proc-IsProcess

memmove_lem_example : memmove 104 100 8 (λ q. q) 108 ≡ 104
memmove_lem_example = memmove_lem 104 100 8 (λ q. q) 108

-- The largest 64-bit number in decimal fits the 24 bytes of `numbuf`.
fill_numbuf-Filled_example :
    Returns
      (Filled 10 1 23 (2 ^ 64 - 1) 20 (update (λ q. 1) 23 0))
      (fill_numbuf 24 (2 ^ 64 - 1) 10 (λ q. 1))
fill_numbuf-Filled_example =
    fill_numbuf-Filled 24 (2 ^ 64 - 1) 10 20 (λ q. 1) (omega arith) (omega arith) (omega arith)
      (omega arith) (omega arith) (omega arith)

-- Processes 1 and 5 are runnable.
abbrev processes : ℕ → Proc
processes q = record proc { p_state = if (q == 1) || (q == 5) then p_runnable else p_free }

schedule_loop-Turn_example : Returns (Turn processes 1 16) (schedule_loop 16 1 processes)
schedule_loop-Turn_example = schedule_loop-Turn processes 16 1 15 (omega arith) refl

-- "ab" at 100 and "ac" at 200.
abbrev ab : List ℕ
ab = 97 ∷ 98 ∷ []

abbrev ac : List ℕ
ac = 97 ∷ 99 ∷ []

abbrev text : ℕ → ℕ
text q =
    if (q == 100) || (q == 200) then 97 else if q == 101 then 98 else if q == 201 then 99 else 0

ab-IsString : IsString 100 ab text
ab-IsString = (refl, omega arith, (refl, omega arith, refl))

ac-IsString : IsString 200 ac text
ac-IsString = (refl, omega arith, (refl, omega arith, refl))

search_free-first_fit_example : search_free 80 arena ≡ ok f2
search_free-first_fit_example =
    search_free-first_fit arena 80 fs (IsArena.free_linked arena-IsArena)

remove_list-free_example : IsArena (remove_list f1 true arena) top (f2 ∷ []) bs
remove_list-free_example = remove_list-free arena top fs bs arena-IsArena f1 refl

remove_list-alloc_example : IsArena (remove_list b1 false arena) top fs []
remove_list-alloc_example = remove_list-alloc arena top fs bs arena-IsArena b1 refl

append_list_ordered-alloc_example :
    Returns
      (AllocInserted arena (top + 64) fs bs top 64 30)
      (append_list_ordered top 64 30 false arena)
append_list_ordered-alloc_example =
    append_list_ordered-alloc arena (top + 64) fs bs
      (IsArena-grow arena top (top + 64) fs bs (omega arith) arena-IsArena) top 64 new-IsBlock
      (λ q m. ground arith) 30 (omega arith)

strcmp_lem_example : strcmp 8 100 200 text ≡ ok (2 ^ 32 - 1)
strcmp_lem_example = strcmp_lem 8 100 200 ab ac text ab-IsString ac-IsString (omega arith)

strcpy-Copied_example : Returns (Copied 300 ab text) (strcpy 8 300 100 text)
strcpy-Copied_example =
    strcpy-Copied 8 300 100 ab text ab-IsString (omega arith) (inr (omega arith))
