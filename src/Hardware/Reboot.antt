-- ===== src/Hardware/Reboot.antt =====
-- check_keyboard of kernel/k-hardware.c, which reboots the kernel for some keys, and reboot.
use memory_management.Base.{
  ℕ, ◌&&◌, ◌||◌, Option, none, some, List, [], ◌∷◌, ◌==◌, leb, ltb, if◌then◌else◌, update,
}
use memory_management.Hardware.Interrupts.{Outb, outb}
use memory_management.Kernel.PageTable.{Entries}

-- The argument of the soft reboot for a key.
unfoldable reboot_argument : (c : ℕ) → Option (List ℕ)
reboot_argument c =
    if c == b'a'
    then some (b'a' ∷ b'l' ∷ b'l' ∷ b'o' ∷ b'c' ∷ b'a' ∷ b't' ∷ b'o' ∷ b'r' ∷ [])
    else if c == b'm'
    then some (b'm' ∷ b'a' ∷ b'l' ∷ b'l' ∷ b'o' ∷ b'c' ∷ [])
    else if c == b'c'
    then some (b'a' ∷ b'l' ∷ b'l' ∷ b'o' ∷ b'c' ∷ b't' ∷ b'e' ∷ b's' ∷ b't' ∷ b's' ∷ [])
    else if c == b't'
    then some (b't' ∷ b'e' ∷ b's' ∷ b't' ∷ [])
    else if c == b'2'
    then some (b't' ∷ b'e' ∷ b's' ∷ b't' ∷ b'2' ∷ [])
    else none

-- The page tables of the reboot: three cleared pages at 0x8000, linked, with one large page.
unfoldable reboot_tables : Entries → Entries
reboot_tables mem =
    let cleared : Entries = λ q. if leb 0x8000 q && ltb q 0xB000 then 0 else mem q in
    update (update (update cleared 0x8000 0x9007) 0x9000 0xA007) 0xA000 0x87

-- What becomes of the machine: a key as the result, a jump to the kernel's entry with an argument,
-- or no power.
data KeyAction : Type 0 where
  typed : (c : ℕ) → KeyAction
  rebooted : (argument : List ℕ) → (mem : Entries) → KeyAction
  powered_off : KeyAction

-- `check_keyboard`, for the key that `keyboard_readc` gives (-1 by its bit pattern).
unfoldable check_keyboard : (c : ℕ) → Entries → KeyAction
unfolding reboot_argument reboot_tables
check_keyboard c mem = elim (reboot_argument c) [
  | some argument ↦ rebooted argument (reboot_tables mem)
  | none ↦ if (c == 0x03) || (c == b'q') then powered_off else typed c
]

-- `reboot`, up to its endless loop
abbrev reboot : List Outb
reboot = outb 0x92 3 ∷ []
