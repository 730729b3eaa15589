-- ===== src/Hardware/Keys.antt =====
-- About keyboard_readc of kernel/k-hardware.c.
use memory_management.Base.{
  ℕ, zero, suc, ◌+◌, ◌-◌, ◌*◌, ◌%◌, ◌<◌, ◌≡◌, ◌⊎◌, inl, inr, refl, not, ◌&&◌, Option, none, some,
  List, [], ◌∷◌, length, All, ◌==◌, ltb, leb, Bool-cases, if-cases, arith,
}
use memory_management.Hardware.Keyboard.{
  Keyboard, keymap, complex_keymap, entry, bit, clear_bit, set_bit, toggle_bit, release, press,
  keyboard_readc, key_shift, key_capslock,
}

-- Entries of a table below a bound.
All-entry :
    (b : ℕ) (xs : List ℕ) (i : ℕ)
    → All (λ x. x < b) xs
    → i < length xs
    → (x : ℕ) × (entry xs i ≡ some x) × (x < b)
All-entry b [] i a h = absurd (omega arith)
All-entry b (x ∷ xs) zero a h = (x, refl, a.0)
All-entry b (x ∷ xs) (suc i) a h = All-entry b xs i a.1 (omega arith)

keymap_bytes : All (λ x. x < 256) keymap
keymap_bytes = omega arith

complex_keymap_chars : All (λ x. x < 128) complex_keymap
complex_keymap_chars = omega arith

-- The six modifier bits.
bits :
    (k m : ℕ) → k < 6 → m < 64 → (clear_bit k m < 64) × (set_bit k m < 64) × (toggle_bit k m < 64)
bits zero m h s = ground arith
bits (suc zero) m h s = ground arith
bits (suc (suc zero)) m h s = ground arith
bits (suc (suc (suc zero))) m h s = ground arith
bits (suc (suc (suc (suc zero)))) m h s = ground arith
bits (suc (suc (suc (suc (suc zero))))) m h s = ground arith
bits (suc (suc (suc (suc (suc (suc k)))))) m h s = absurd (omega arith)

-- The modifiers are six bits, and an escape is pending or not.
pub record IsKeyboard (k : Keyboard) : Type 0 where
  pub modifiers : k.modifiers < 64
  pub last_escape : (k.last_escape ≡ 0) ⊎ (k.last_escape ≡ 0x80)

release-bits : (ch m : ℕ) → m < 64 → release ch m < 64
unfolding release
release-bits ch m h = elim (Bool-cases (leb key_shift ch && ltb ch key_capslock)) [
  | inl e ↦ rw e (bits (ch - key_shift) m (ground arith) h).0
  | inr e ↦ rw e h
]

-- A key press that gives a character and modifiers in their range.
data Pressed : Option (ℕ × ℕ) → Type 0 where
  pressed : {r : ℕ × ℕ} → r.0 < key_shift → r.1 < 64 → Pressed (some r)

complex-Pressed :
    (i m : ℕ)
    → i < 88
    → m < 64
    → Pressed (elim (entry complex_keymap i) [ none ↦ none | some c ↦ some (c, m) ])
complex-Pressed i m h s =
    let e = All-entry 128 complex_keymap i complex_keymap_chars h in
    rw (e.1) (pressed (omega (arith, e.2)) s)

press-Pressed : (ch m : ℕ) → ch < 256 → m < 64 → Pressed (press ch m)
unfolding press
press-Pressed ch m h s =
    if-cases Pressed (leb b'a' ch && leb ch b'z')
      (λ e.
        if-cases Pressed (bit 1 m == 1) (λ f. pressed (ground arith) s)
          λ f.
            if-cases Pressed (not (bit 0 m == bit 3 m)) (λ g. pressed (ground arith) s)
              (λ g. pressed (ground arith) s))
      λ e.
        if-cases Pressed (leb key_capslock ch)
          (λ f. pressed (omega arith) (bits (ch - key_shift) m (ground arith) s).2)
          λ f.
            if-cases Pressed (leb key_shift ch)
              (λ g. pressed (omega arith) (bits (ch - key_shift) m (ground arith) s).1)
              λ g.
                if-cases Pressed (leb 0x80 ch && leb ch 0x95)
                  (λ i. complex-Pressed (4 * (ch - 0x80) + m % 4) m (ground arith) s)
                  λ i.
                    if-cases Pressed (ltb ch 0x80 && (bit 1 m == 1)) (λ j. pressed (omega arith) s)
                      (λ j. pressed (ground arith) s)

-- What one reading of the keyboard gives.
pub data Read : Option (Option ℕ × Keyboard) → Type 0 where
  no_character : {k : Keyboard} → IsKeyboard k → Read (some (none, k))
  character : {c : ℕ} {k : Keyboard} → c < key_shift → IsKeyboard k → Read (some (some c, k))

after_press :
    (p : Option (ℕ × ℕ))
    → Pressed p
    → Read (elim p [
      | none ↦ none
      | some r ↦ some (some r.0, record { modifiers = r.1; last_escape = 0 })
    ])
after_press none p = elim p [ ]
after_press (some r) (pressed h s) = character h (record { modifiers = s; last_escape = inl refl })

-- Every reading of the keyboard, from modifiers and an escape in their range, keeps them in it,
-- reads both tables inside their bounds, and gives -1 or a character below the codes of the
-- modifier keys.
pub keyboard_readc-Read :
    (status byte : ℕ) (k : Keyboard)
    → byte < 256
    → IsKeyboard k
    → Read (keyboard_readc status byte k)
unfolding keyboard_readc
keyboard_readc-Read status byte k h v =
    if-cases Read (status % 2 == 0) (λ e. no_character v)
      λ e.
        if-cases Read (byte == 0xE0)
          (λ f.
            character (omega arith) (record { modifiers = v.modifiers; last_escape = inr refl }))
          λ f.
            let index : byte % 128 + k.last_escape < 256 = omega (arith, v.last_escape) in
            let x = All-entry 256 keymap (byte % 128 + k.last_escape) keymap_bytes index in
            rw (x.1) (
              if-cases Read (leb 0x80 byte)
                (λ g. character (omega arith) (record {
                  modifiers = release-bits x.0 k.modifiers v.modifiers;
                  last_escape = inl refl;
                }))
                λ g.
                  after_press (press x.0 k.modifiers)
                    (press-Pressed x.0 k.modifiers x.2 v.modifiers))
