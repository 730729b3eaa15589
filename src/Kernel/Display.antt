-- ===== src/Kernel/Display.antt =====
-- The pictures of memory that kernel/kernel.c draws on the console: memshow_physical,
-- memshow_virtual and memshow_virtual_animate.
use memory_management.Base.{
  ℕ, zero, suc, ◌+◌, ◌-◌, ◌*◌, ◌/◌, ◌%◌, ◌^◌, Bool, not, ◌&&◌, ◌||◌, none, some, List, [], ◌∷◌,
  ◌==◌, ltb, leb, if◌then◌else◌, update,
}
use memory_management.Base.Run.{Run, ok, fault, ◌>>=◌}
use memory_management.Clib.Memory.{Memory}
use memory_management.Clib.Format.{VaList}
use memory_management.Clib.Printer.{string_at}
use memory_management.Clib.Console.{console_vprintf, vsnprintf}
use memory_management.Hardware.Keyboard.{entry}
use memory_management.Kernel.PageTable.{
  page_size, page_number, memsize_physical, memsize_virtual, is_user, virtual_memory_lookup,
}
use memory_management.Kernel.Process.{
  Owner, po_free, po_reserved, po_kernel, process, PageInfo, Proc, Kernel,
}
use memory_management.Kernel.Schedule.{nproc}
use memory_management.Kernel.System.{System, is_p_free}

-- `console`, the cells, is at this address.
abbrev console_addr : ℕ
console_addr = 0xB8000

-- `CPOS`
abbrev cpos : (row col : ℕ) → ℕ
cpos row col = row * 80 + col

-- `memstate_colors`: K, R, a dot, 1 to 9 and A to F in colors, and S without one.
abbrev memstate_colors : List ℕ
memstate_colors =
    0xD4B ∷ 0x752 ∷ 0x72E ∷ 0xC31 ∷ 0xA32 ∷ 0x933 ∷ 0xE34 ∷ 0xF35 ∷ 0xC36 ∷ 0xA37 ∷ 0x938 ∷ 0xE39
    ∷ 0xF41 ∷ 0xC42 ∷ 0xA43 ∷ 0x944 ∷ 0xE45 ∷ 0xF46 ∷ 0x53 ∷ []

-- `owner - PO_KERNEL`
abbrev owner_index : Owner → ℕ
owner_index po_kernel = 0
owner_index po_reserved = 1
owner_index po_free = 2
owner_index (process pid) = pid + 2

-- `memstate_colors[owner - PO_KERNEL]`, of nobody's where the page has no reference. An owner
-- behind the table is a fault.
unfoldable page_color : PageInfo → Run ℕ
page_color info =
    let owner = if info.refcount == 0 then po_free else info.owner in
    elim (entry memstate_colors (owner_index owner)) [ none ↦ fault | some color ↦ ok color ]

-- `refcount > 1`
abbrev is_shared : PageInfo → Bool
is_shared info = leb 2 info.refcount && ltb info.refcount 128

abbrev args : (word : ℕ) (text : List ℕ) → VaList
args word text = record { slot = λ i. record { word = word; text = text }; next = 0 }

-- "0x%06X "
abbrev address_format : List ℕ
address_format = b'0' ∷ b'x' ∷ b'%' ∷ b'0' ∷ b'6' ∷ b'X' ∷ b' ' ∷ []

-- "PHYSICAL MEMORY"
abbrev physical_title : List ℕ
physical_title =
    b'P' ∷ b'H' ∷ b'Y' ∷ b'S' ∷ b'I' ∷ b'C' ∷ b'A' ∷ b'L' ∷ b' ' ∷ b'M' ∷ b'E' ∷ b'M' ∷ b'O' ∷ b'R'
    ∷ b'Y' ∷ []

-- "VIRTUAL ADDRESS SPACE FOR %s"
abbrev virtual_title : List ℕ
virtual_title =
    b'V' ∷ b'I' ∷ b'R' ∷ b'T' ∷ b'U' ∷ b'A' ∷ b'L' ∷ b' ' ∷ b'A' ∷ b'D' ∷ b'D' ∷ b'R' ∷ b'E' ∷ b'S'
    ∷ b'S' ∷ b' ' ∷ b'S' ∷ b'P' ∷ b'A' ∷ b'C' ∷ b'E' ∷ b' ' ∷ b'F' ∷ b'O' ∷ b'R' ∷ b' ' ∷ b'%'
    ∷ b's' ∷ []

-- The address in front of a row, before its first page; `row` is the first row of the picture.
unfoldable put_address : (row pn : ℕ) → (ℕ → ℕ) → Run (ℕ → ℕ)
unfolding console_vprintf
put_address row pn console =
    if pn % 64 == 0
    then (do
      p ←
          console_vprintf (cpos (row + pn / 64) 3) 0xF00 address_format (args (pn * page_size) [])
            console
      ok p.console)
    else ok console

-- The loop of `memshow_physical`, with the pages left.
unfoldable physical_loop : (left pn : ℕ) → Kernel → (ℕ → ℕ) → Run (ℕ → ℕ)
unfolding put_address page_color
physical_loop zero pn k console = ok console
physical_loop (suc left) pn k console = do
  drawn ← put_address 1 pn console
  color ← page_color (k.pageinfo pn)
  let shared = is_shared (k.pageinfo pn) && not (pn == page_number console_addr)
  let cell = if shared then 0xF00 + b'S' else color
  physical_loop left (pn + 1) k (update drawn (cpos (1 + pn / 64) (12 + pn % 64)) cell)

unfoldable memshow_physical : Kernel → (ℕ → ℕ) → Run (ℕ → ℕ)
unfolding physical_loop console_vprintf
memshow_physical k console = do
  p ← console_vprintf (cpos 0 32) 0xF00 physical_title (args 0 []) console
  physical_loop (page_number memsize_physical) 0 k p.console

-- Foreground and background of a cell swapped.
abbrev reverse_video : ℕ → ℕ
reverse_video color = color / 0x100 % 16 * 0x1000 + color / 0x1000 % 16 * 0x100 + color % 256

-- The cell of a mapped page at `va`, which belongs to the physical page `pn`.
unfoldable mapped_color : (va pn perm : ℕ) → Kernel → Run ℕ
unfolding page_color
mapped_color va pn perm k = do
  color ← page_color (k.pageinfo pn)
  let shown = if is_user perm then reverse_video color else color
  let text : ℕ = if is_user perm then 0 else 0xF00
  ok (
      if is_shared (k.pageinfo pn) && not (va == console_addr)
      then shown / 0x1000 % 16 * 0x1000 + text + b'S'
      else shown)

-- The loop of `memshow_virtual`, with the pages left.
unfoldable virtual_loop : (left pn pagetable : ℕ) → Kernel → (ℕ → ℕ) → Run (ℕ → ℕ)
unfolding put_address mapped_color
virtual_loop zero pn pagetable k console = ok console
virtual_loop (suc left) pn pagetable k console = do
  let va = pn * page_size
  let vam = virtual_memory_lookup pagetable va k.mem
  color ← elim vam.pn [
    | none ↦ ok b' '
    | some page ↦ if ltb vam.pa memsize_physical then mapped_color va page vam.perm k else fault
  ]
  drawn ← put_address 11 pn console
  virtual_loop left (pn + 1) pagetable k (update drawn (cpos (11 + pn / 64) (12 + pn % 64)) color)

unfoldable memshow_virtual : (pagetable : ℕ) → (name : List ℕ) → Kernel → (ℕ → ℕ) → Run (ℕ → ℕ)
unfolding virtual_loop console_vprintf
memshow_virtual pagetable name k console = if not (pagetable % page_size == 0) then fault else (do
  p ← console_vprintf (cpos 10 26) 0xF00 virtual_title (args 0 name) console
  virtual_loop (page_number memsize_virtual) 0 pagetable k p.console)

-- `last_ticks` and `showing`
pub record Animation : Type 0 where
  pub last_ticks : ℕ
  pub showing : ℕ

-- The loop of `memshow_virtual_animate`, with the rounds left until `showing` is above 2 * NPROC.
unfoldable pub skip_free : (left showing : ℕ) → (ℕ → Proc) → ℕ
skip_free zero showing processes = showing
skip_free (suc left) showing processes =
    let rest = skip_free left (showing + 1) processes in
    if is_p_free (processes (showing % nproc)).p_state then rest else showing

-- Whether half a second has passed; HZ / 2 is 50.
abbrev pub switches : System → Animation → Bool
switches s a = (a.last_ticks == 0) || leb 50 ((s.ticks + 2 ^ 32 - a.last_ticks) % 2 ^ 32)

-- The process that `memshow_virtual_animate` shows.
unfoldable pub next_showing : System → Animation → Animation
unfolding skip_free
next_showing s a =
    let last_ticks = if switches s a then s.ticks else a.last_ticks in
    let showing = if switches s a then a.showing + 1 else a.showing in
    record {
      last_ticks = last_ticks;
      showing = skip_free (2 * nproc + 1 - showing) showing s.processes % nproc;
    }

-- "%d "
abbrev pid_format : List ℕ
pid_format = b'%' ∷ b'd' ∷ b' ' ∷ []

-- `memshow_virtual_animate`; `stack` is the memory that its array `s` at 0 is in.
unfoldable memshow_virtual_animate :
    System → Animation → (stack : Memory) → (ℕ → ℕ) → Run (Animation × (ℕ → ℕ))
unfolding next_showing memshow_virtual vsnprintf
memshow_virtual_animate s a stack console =
    let a' = next_showing s a in
    let p = s.processes a'.showing in
    if not (is_p_free p.p_state) && p.display_status
    then (do
      r ← vsnprintf 0 4 pid_format (args a'.showing []) stack
      console' ← memshow_virtual p.p_pagetable (string_at 4 0 r.1) s.kernel console
      ok (a', console'))
    else ok (a', console)
