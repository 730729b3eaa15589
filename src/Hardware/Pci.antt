-- ===== src/Hardware/Pci.antt =====
-- The search for a PCI device in kernel/k-hardware.c. The configuration space is a parameter: the
-- word that a read of port 0xCFC gives once an address has been written to port 0xCF8.
use memory_management.Base.{
  ℕ, zero, suc, ◌+◌, ◌-◌, ◌*◌, ◌/◌, ◌%◌, ◌^◌, ◌&&◌, Option, none, some, ◌==◌, if◌then◌else◌,
}

-- `pci_make_configaddr`, of a bus below 256, a slot below 32 and a function below 8
abbrev pub pci_make_configaddr : (bus slot func : ℕ) → ℕ
pci_make_configaddr bus slot func = bus * 2 ^ 16 + slot * 2 ^ 11 + func * 2 ^ 8

-- A loop that ends at the first round with a result.
abbrev pub first_of : (left i : ℕ) → (ℕ → Option ℕ) → Option ℕ
first_of zero i round = none
first_of (suc left) i round =
    let rest = first_of left (i + 1) round in elim (round i) [ none ↦ rest | some a ↦ some a ]

module _ (config : ℕ → ℕ) where
  -- `pci_config_readl`
  abbrev pub pci_config_readl : (configaddr offset : ℕ) → ℕ
  pci_config_readl configaddr offset = config (2 ^ 31 + configaddr + offset) % 2 ^ 32

  -- The loop over the functions of a slot, from `func` on.
  unfoldable pub func_loop : (left func wanted bus slot : ℕ) → Option ℕ
  func_loop zero func wanted bus slot = none
  func_loop (suc left) func wanted bus slot =
      let configaddr = pci_make_configaddr bus slot func in
      let vendor_device = pci_config_readl configaddr 0 in
      let rest = func_loop left (func + 1) wanted bus slot in
      if vendor_device == wanted
      then some configaddr
      else if (vendor_device == 2 ^ 32 - 1) && (func == 0)
      then none
      else rest

  -- `pci_find_device`, with `none` for -1
  unfoldable pub pci_find_device : (vendor device : ℕ) → Option ℕ
  pci_find_device vendor device =
      first_of 256 0 λ bus. first_of 32 0 λ slot. func_loop 8 0 (vendor + device * 2 ^ 16) bus slot

  -- `poweroff`, up to where it spins: the port and the word that it writes, if it finds the
  -- controller.
  unfoldable poweroff : Option (ℕ × ℕ)
  poweroff = elim (pci_find_device 0x8086 0x7113) [
    | none ↦ none
    | some configaddr ↦ some (pci_config_readl configaddr 0x40 / 64 % 1024 * 64 + 4, 0x2000)
  ]
