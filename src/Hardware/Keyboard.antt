-- ===== src/Hardware/Keyboard.antt =====
-- keyboard_readc of kernel/k-hardware.c, and its tables.
use memory_management.Base.{
  ℕ, zero, suc, ◌+◌, ◌-◌, ◌*◌, ◌/◌, ◌%◌, ◌^◌, not, ◌&&◌, Option, none, some, List, [], ◌∷◌, ◌==◌,
  ltb, leb, if◌then◌else◌,
}

abbrev pub key_shift : ℕ
key_shift = 250

abbrev pub key_capslock : ℕ
key_capslock = 253

-- `keymap`: 128 and the number for `CKEY`.
abbrev pub keymap : List ℕ
keymap =
    0 ∷ 27 ∷ 128 ∷ 129 ∷ 130 ∷ 131 ∷ 132 ∷ 133 ∷ 134 ∷ 135 ∷ 136 ∷ 137 ∷ 138 ∷ 139 ∷ 8 ∷ 9 ∷ 113
    ∷ 119 ∷ 101 ∷ 114 ∷ 116 ∷ 121 ∷ 117 ∷ 105 ∷ 111 ∷ 112 ∷ 140 ∷ 141 ∷ 142 ∷ 251 ∷ 97 ∷ 115 ∷ 100
    ∷ 102 ∷ 103 ∷ 104 ∷ 106 ∷ 107 ∷ 108 ∷ 143 ∷ 144 ∷ 145 ∷ 250 ∷ 146 ∷ 122 ∷ 120 ∷ 99 ∷ 118 ∷ 98
    ∷ 110 ∷ 109 ∷ 147 ∷ 148 ∷ 149 ∷ 250 ∷ 42 ∷ 252 ∷ 32 ∷ 253 ∷ 0 ∷ 0 ∷ 0 ∷ 0 ∷ 0 ∷ 0 ∷ 0 ∷ 0 ∷ 0
    ∷ 0 ∷ 254 ∷ 255 ∷ 55 ∷ 56 ∷ 57 ∷ 45 ∷ 52 ∷ 53 ∷ 54 ∷ 43 ∷ 49 ∷ 50 ∷ 51 ∷ 48 ∷ 46 ∷ 0 ∷ 0 ∷ 0 ∷ 0
    ∷ 0 ∷ 0 ∷ 0 ∷ 0 ∷ 0 ∷ 0 ∷ 0 ∷ 0 ∷ 0 ∷ 0 ∷ 0 ∷ 0 ∷ 0 ∷ 0 ∷ 0 ∷ 0 ∷ 0 ∷ 0 ∷ 0 ∷ 0 ∷ 0 ∷ 0 ∷ 0 ∷ 0
    ∷ 0 ∷ 0 ∷ 0 ∷ 0 ∷ 0 ∷ 0 ∷ 0 ∷ 0 ∷ 0 ∷ 0 ∷ 0 ∷ 0 ∷ 0 ∷ 0 ∷ 0 ∷ 0 ∷ 0 ∷ 0 ∷ 0 ∷ 0 ∷ 0 ∷ 0 ∷ 0 ∷ 0
    ∷ 0 ∷ 0 ∷ 0 ∷ 0 ∷ 0 ∷ 0 ∷ 0 ∷ 0 ∷ 0 ∷ 0 ∷ 0 ∷ 0 ∷ 0 ∷ 0 ∷ 0 ∷ 0 ∷ 0 ∷ 0 ∷ 0 ∷ 0 ∷ 142 ∷ 251 ∷ 0
    ∷ 0 ∷ 0 ∷ 0 ∷ 0 ∷ 0 ∷ 0 ∷ 0 ∷ 0 ∷ 0 ∷ 0 ∷ 0 ∷ 0 ∷ 0 ∷ 0 ∷ 0 ∷ 0 ∷ 0 ∷ 0 ∷ 0 ∷ 0 ∷ 0 ∷ 0 ∷ 47 ∷ 0
    ∷ 0 ∷ 252 ∷ 0 ∷ 0 ∷ 0 ∷ 0 ∷ 0 ∷ 0 ∷ 0 ∷ 0 ∷ 0 ∷ 0 ∷ 0 ∷ 0 ∷ 0 ∷ 0 ∷ 196 ∷ 192 ∷ 198 ∷ 0 ∷ 195
    ∷ 0 ∷ 193 ∷ 0 ∷ 197 ∷ 194 ∷ 199 ∷ 200 ∷ 201 ∷ 0 ∷ 0 ∷ 0 ∷ 0 ∷ 0 ∷ 0 ∷ 0 ∷ 0 ∷ 0 ∷ 0 ∷ 0 ∷ 0 ∷ 0
    ∷ 0 ∷ 0 ∷ 0 ∷ 0 ∷ 0 ∷ 0 ∷ 0 ∷ 0 ∷ 0 ∷ 0 ∷ 0 ∷ 0 ∷ 0 ∷ 0 ∷ 0 ∷ 0 ∷ 0 ∷ 0 ∷ 0 ∷ 0 ∷ 0 ∷ 0 ∷ 0 ∷ 0
    ∷ 0 ∷ 0 ∷ 0 ∷ 0 ∷ 0 ∷ 0 ∷ 0 ∷ []

-- `complex_keymap`, four characters for each key
abbrev pub complex_keymap : List ℕ
complex_keymap =
    49 ∷ 33 ∷ 0 ∷ 0 ∷ 50 ∷ 64 ∷ 0 ∷ 0 ∷ 51 ∷ 35 ∷ 0 ∷ 0 ∷ 52 ∷ 36 ∷ 0 ∷ 0 ∷ 53 ∷ 37 ∷ 0 ∷ 0 ∷ 54
    ∷ 94 ∷ 0 ∷ 30 ∷ 55 ∷ 38 ∷ 0 ∷ 0 ∷ 56 ∷ 42 ∷ 0 ∷ 0 ∷ 57 ∷ 40 ∷ 0 ∷ 0 ∷ 48 ∷ 41 ∷ 0 ∷ 0 ∷ 45 ∷ 95
    ∷ 0 ∷ 31 ∷ 61 ∷ 43 ∷ 0 ∷ 0 ∷ 91 ∷ 123 ∷ 27 ∷ 0 ∷ 93 ∷ 125 ∷ 29 ∷ 0 ∷ 10 ∷ 10 ∷ 13 ∷ 13 ∷ 59 ∷ 58
    ∷ 0 ∷ 0 ∷ 39 ∷ 34 ∷ 0 ∷ 0 ∷ 96 ∷ 126 ∷ 0 ∷ 0 ∷ 92 ∷ 124 ∷ 28 ∷ 0 ∷ 44 ∷ 60 ∷ 0 ∷ 0 ∷ 46 ∷ 62 ∷ 0
    ∷ 0 ∷ 47 ∷ 63 ∷ 0 ∷ 0 ∷ []

-- An entry of a table; behind its end there is none.
abbrev pub entry : List ℕ → ℕ → Option ℕ
entry [] i = none
entry (x ∷ xs) zero = some x
entry (x ∷ xs) (suc i) = entry xs i

-- `modifiers` and `last_escape`
pub record Keyboard : Type 0 where
  pub modifiers : ℕ
  pub last_escape : ℕ

-- `modifiers >> k & 1`, and the byte with the bit cleared, set and toggled.
abbrev pub bit : (k modifiers : ℕ) → ℕ
bit k modifiers = modifiers / 2 ^ k % 2

abbrev pub clear_bit : (k modifiers : ℕ) → ℕ
clear_bit k modifiers = modifiers - bit k modifiers * 2 ^ k

abbrev pub set_bit : (k modifiers : ℕ) → ℕ
set_bit k modifiers = modifiers + (1 - bit k modifiers) * 2 ^ k

abbrev pub toggle_bit : (k modifiers : ℕ) → ℕ
toggle_bit k modifiers = if bit k modifiers == 1 then clear_bit k modifiers else set_bit k modifiers

-- The release of the key `ch`.
unfoldable pub release : (ch modifiers : ℕ) → ℕ
release ch modifiers =
    if leb key_shift ch && ltb ch key_capslock
    then clear_bit (ch - key_shift) modifiers
    else modifiers

-- The press of the key `ch`: the character and the modifiers, and no value if a table has none.
unfoldable pub press : (ch modifiers : ℕ) → Option (ℕ × ℕ)
press ch modifiers =
    if leb b'a' ch && leb ch b'z'
    then if bit 1 modifiers == 1
      then some (ch - 0x60, modifiers)
      else if not (bit 0 modifiers == bit 3 modifiers)
      then some (ch - 0x20, modifiers)
      else some (ch, modifiers)
    else if leb key_capslock ch
    then some (0, toggle_bit (ch - key_shift) modifiers)
    else if leb key_shift ch
    then some (0, set_bit (ch - key_shift) modifiers)
    else if leb 0x80 ch && leb ch 0x95
    then elim (entry complex_keymap (4 * (ch - 0x80) + modifiers % 4)) [
      | none ↦ none
      | some c ↦ some (c, modifiers)
    ]
    else if ltb ch 0x80 && (bit 1 modifiers == 1)
    then some (0, modifiers)
    else some (ch, modifiers)

-- `keyboard_readc`, for the byte that the status port gives and the one that the data port gives.
-- The outer value is missing if a table is read behind its end; the inner one stands for -1.
unfoldable pub keyboard_readc : (status byte : ℕ) → Keyboard → Option (Option ℕ × Keyboard)
unfolding release press
keyboard_readc status byte k =
    let quiet : Keyboard = record k { last_escape = 0 } in
    if status % 2 == 0
    then some (none, k)
    else if byte == 0xE0
    then some (some 0, record k { last_escape = 0x80 })
    else elim (entry keymap (byte % 128 + k.last_escape)) [
      | none ↦ none
      | some ch ↦
          if leb 0x80 byte
          then some (some 0, record quiet { modifiers = release ch k.modifiers })
          else elim (press ch k.modifiers) [
            | none ↦ none
            | some r ↦ some (some r.0, record quiet { modifiers = r.1 })
          ]
    ]
