-- ===== src/Hardware/Devices.antt =====
-- About the search for a PCI device in kernel/k-hardware.c.
use memory_management.Base.{
  ℕ, zero, suc, ◌+◌, ◌-◌, ◌*◌, ◌^◌, ◌≤◌, ◌<◌, ◌≡◌, ◌≢◌, ◌⊎◌, inl, inr, refl, sym, ◌∙◌, true, false,
  ◌&&◌, Option, none, some, ◌==◌, eq_of_==, ne_of_==, Bool-cases, ℕ_discrete, arith, Option-cases,
}
use memory_management.Hardware.Pci.{
  pci_make_configaddr, first_of, pci_config_readl, func_loop, pci_find_device,
}
use mathlib.Core.Path.{subst}

-- The result of a loop that ends at the first round with a result.
data FirstOf (left i : ℕ) (round : ℕ → Option ℕ) (r : Option ℕ) : Type 0 where
  at_round :
      (j a : ℕ) → i ≤ j → j < i + left → round j ≡ some a → r ≡ some a → FirstOf left i round r
  nowhere : ((j : ℕ) → i ≤ j → j < i + left → round j ≡ none) → r ≡ none → FirstOf left i round r

one_more :
    (left i : ℕ) (round : ℕ → Option ℕ) (r : Option ℕ)
    → round i ≡ none
    → FirstOf left (i + 1) round r
    → FirstOf (suc left) i round r
one_more left i round r e (at_round j a lo hi k f) = at_round j a (omega arith) (omega arith) k f
one_more left i round r e (nowhere all f) =
    nowhere
      (λ j lo hi. elim (ℕ_discrete j i) [
        | yes same ↦ rw same e
        | no other ↦ all j (omega arith) (omega arith)
      ])
      f

first_of-FirstOf :
    (left i : ℕ) (round : ℕ → Option ℕ) → FirstOf left i round (first_of left i round)
first_of-FirstOf zero i round = nowhere (λ j lo hi. absurd (omega arith)) refl
first_of-FirstOf (suc left) i round = elim (Option-cases (round i)) [
  | inl e ↦ rw (e, first_of) (one_more left i round _ e (first_of-FirstOf left (i + 1) round))
  | inr (a, e) ↦ rw (e, first_of) (at_round i a (omega arith) (omega arith) e refl)
]

module _ (config : ℕ → ℕ) where
  -- A function that the search looks at: the first one of its slot, or one behind a first one
  -- that answers.
  abbrev IsVisible : (bus slot func : ℕ) → Type 0
  IsVisible bus slot func =
      (func ≡ 0) ⊎ (pci_config_readl config (pci_make_configaddr bus slot 0) 0 ≢ 2 ^ 32 - 1)

  answers :
      (bus slot func : ℕ)
      → IsVisible bus slot func
      → ((pci_config_readl config (pci_make_configaddr bus slot func) 0 == 2 ^ 32 - 1)
          && (func == 0))
        ≡ false
      → IsVisible bus slot (func + 1)
  answers bus slot func (inr v) h = inr v
  answers bus slot func (inl first) h = inr (
      subst (λ n. pci_config_readl config (pci_make_configaddr bus slot n) 0 ≢ 2 ^ 32 - 1) first
        (ground arith))

  only_first :
      (wanted bus slot func : ℕ)
      → (pci_config_readl config (pci_make_configaddr bus slot func) 0 == wanted) ≡ false
      → ((pci_config_readl config (pci_make_configaddr bus slot func) 0 == 2 ^ 32 - 1)
          && (func == 0))
        ≡ true
      → (f : ℕ) → func ≤ f
      → f < 8
      → IsVisible bus slot f
      → pci_config_readl config (pci_make_configaddr bus slot f) 0 ≢ wanted
  only_first wanted bus slot func e h f lo hi (inl first) =
      let at : func ≡ f = omega arith in
      subst (λ n. pci_config_readl config (pci_make_configaddr bus slot n) 0 ≢ wanted) at
        (ne_of_== _ _ e)
  only_first wanted bus slot func e h f lo hi (inr v) = absurd (ground arith)

  -- What the search of one slot gives, from `func` on.
  data InSlot (wanted bus slot func : ℕ) (r : Option ℕ) : Type 0 where
    hit :
        (f : ℕ)
        → f < 8
        → IsVisible bus slot f
        → pci_config_readl config (pci_make_configaddr bus slot f) 0 ≡ wanted
        → r ≡ some (pci_make_configaddr bus slot f)
        → InSlot wanted bus slot func r
    miss :
        ((f : ℕ)
          → func ≤ f
          → f < 8
          → IsVisible bus slot f
          → pci_config_readl config (pci_make_configaddr bus slot f) 0 ≢ wanted)
        → r ≡ none
        → InSlot wanted bus slot func r

  further :
      (wanted bus slot func : ℕ) (r : Option ℕ)
      → pci_config_readl config (pci_make_configaddr bus slot func) 0 ≢ wanted
      → InSlot wanted bus slot (func + 1) r
      → InSlot wanted bus slot func r
  further wanted bus slot func r ne (hit f h v e k) = hit f h v e k
  further wanted bus slot func r ne (miss all e) =
      miss
        (λ f lo hi v. elim (ℕ_discrete f func) [
          | yes same ↦ rw same ne
          | no other ↦ all f (omega arith) hi v
        ])
        e

  func_loop-InSlot :
      (left func wanted bus slot : ℕ)
      → func + left ≡ 8
      → IsVisible bus slot func
      → InSlot wanted bus slot func (func_loop config left func wanted bus slot)
  unfolding func_loop
  func_loop-InSlot zero func wanted bus slot end v = miss (λ f lo hi w. absurd (omega arith)) refl
  func_loop-InSlot (suc left) func wanted bus slot end v =
      let value = pci_config_readl config (pci_make_configaddr bus slot func) 0 in
      elim (Bool-cases (value == wanted)) [
        | inl e ↦ rw e (hit func (omega arith) v (eq_of_== value wanted e) refl)
        | inr e ↦ elim (Bool-cases ((value == 2 ^ 32 - 1) && (func == 0))) [
          | inl f ↦ rw (e, f) (miss (only_first wanted bus slot func e f) refl)
          | inr f ↦
              rw (e, f)
                (further wanted bus slot func _ (ne_of_== value wanted e) (
                  func_loop-InSlot left (func + 1) wanted bus slot (omega arith)
                    (answers bus slot func v f)))
        ]
      ]

  -- The device, if one that is looked at answers with the vendor and device numbers.
  pub data Found (wanted : ℕ) (r : Option ℕ) : Type 0 where
    device :
        (bus slot func : ℕ)
        → (bus < 256) × (slot < 32) × (func < 8)
        → IsVisible bus slot func
        → pci_config_readl config (pci_make_configaddr bus slot func) 0 ≡ wanted
        → r ≡ some (pci_make_configaddr bus slot func)
        → Found wanted r
    absent :
        ((bus slot func : ℕ)
          → (bus < 256) × (slot < 32) × (func < 8)
          → IsVisible bus slot func
          → pci_config_readl config (pci_make_configaddr bus slot func) 0 ≢ wanted)
        → r ≡ none
        → Found wanted r

  in_slot : (wanted bus slot : ℕ) → InSlot wanted bus slot 0 (func_loop config 8 0 wanted bus slot)
  in_slot wanted bus slot = func_loop-InSlot 8 0 wanted bus slot refl (inl refl)

  device_in :
      (wanted bus slot a : ℕ) (x r : Option ℕ)
      → (bus < 256) × (slot < 32)
      → InSlot wanted bus slot 0 x
      → x ≡ some a
      → r ≡ some a
      → Found wanted r
  device_in wanted bus slot a x r ranges (hit f h v w e) here k =
      device bus slot f (ranges.0, ranges.1, h) v w (k ∙ sym here ∙ e)
  device_in wanted bus slot a x r ranges (miss all e) here k = absurd (ground arith)

  empty_slot :
      (wanted bus slot func : ℕ) (x : Option ℕ)
      → func < 8
      → InSlot wanted bus slot 0 x
      → x ≡ none
      → IsVisible bus slot func
      → pci_config_readl config (pci_make_configaddr bus slot func) 0 ≢ wanted
  empty_slot wanted bus slot func x h (hit f k v w e) nil see = absurd (ground arith)
  empty_slot wanted bus slot func x h (miss all e) nil see = all func (omega arith) h see

  -- The rounds over the buses and over the slots of one.
  abbrev slots : (wanted bus slot : ℕ) → Option ℕ
  slots wanted bus slot = func_loop config 8 0 wanted bus slot

  device_on :
      (wanted bus a : ℕ) (x r : Option ℕ)
      → bus < 256
      → FirstOf 32 0 (slots wanted bus) x
      → x ≡ some a
      → r ≡ some a
      → Found wanted r
  device_on wanted bus a x r h (at_round slot b lo hi e k) here l =
      device_in wanted bus slot b (slots wanted bus slot) r (h, omega arith)
        (in_slot wanted bus slot) e (l ∙ sym here ∙ k)
  device_on wanted bus a x r h (nowhere all e) here l = absurd (ground arith)

  empty_bus :
      (wanted bus slot : ℕ) (x : Option ℕ)
      → slot < 32
      → FirstOf 32 0 (slots wanted bus) x
      → x ≡ none
      → slots wanted bus slot ≡ none
  empty_bus wanted bus slot x h (at_round j a lo hi e k) nil = absurd (ground arith)
  empty_bus wanted bus slot x h (nowhere all e) nil = all slot (omega arith) (omega arith)

  found :
      (wanted : ℕ) (r : Option ℕ)
      → FirstOf 256 0 (λ bus. first_of 32 0 (slots wanted bus)) r
      → Found wanted r
  found wanted r (at_round bus a lo hi e k) =
      device_on wanted bus a (first_of 32 0 (slots wanted bus)) r (omega arith)
        (first_of-FirstOf 32 0 (slots wanted bus)) e k
  found wanted r (nowhere all e) =
      absent
        (λ bus slot func ranges see.
          empty_slot wanted bus slot func (slots wanted bus slot) ranges.2 (in_slot wanted bus slot)
            (empty_bus wanted bus slot (first_of 32 0 (slots wanted bus)) ranges.1
              (first_of-FirstOf 32 0 (slots wanted bus)) (all bus (omega arith) (omega arith)))
            see)
        e

  -- `pci_find_device` gives the address of a device that answers with the vendor and device
  -- numbers, or -1 if no function that the search looks at answers with them; it looks at the
  -- first function of every slot of every bus, and at the others where that one answers at all.
  pub pci_find_device-Found :
      (vendor dev : ℕ) → Found (vendor + dev * 2 ^ 16) (pci_find_device config vendor dev)
  unfolding pci_find_device
  pci_find_device-Found vendor dev =
      let wanted = vendor + dev * 2 ^ 16 in
      found wanted (first_of 256 0 (λ bus. first_of 32 0 (slots wanted bus)))
        (first_of-FirstOf 256 0 (λ bus. first_of 32 0 (slots wanted bus)))
