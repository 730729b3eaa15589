-- ===== src/Clib/Snprintf.antt =====
-- About vsnprintf of shared/lib.c.
use Prim.Native.Nat.{min}
use memory_management.Base.{
  ℕ, zero, suc, ◌+◌, ◌-◌, ◌%◌, ◌^◌, ◌≤◌, ◌<◌, ◌≡◌, refl, inl, inr, false, List, [], ◌∷◌, ◌++◌,
  length, length-append, ◌==◌, ltb, ltb→lt, if◌then◌else◌, update, Bool-cases, arith,
}
use memory_management.Base.Run.{Run, ok, Returns, returns, ◌>>=◌}
use memory_management.Clib.Memory.{Memory}
use memory_management.Clib.Copy.{in_range}
use memory_management.Clib.Format.{VaList}
use memory_management.Clib.Printer.{printer_vprintf}
use memory_management.Clib.Printed.{Alike, alike, printer_vprintf-Alike}
use memory_management.Clib.Printers.{record_putc}
use memory_management.Clib.Console.{StringPrinter, string_putc, vsnprintf}

le_of_not-ltb : (a b : ℕ) → ltb a b ≡ false → b ≤ a
le_of_not-ltb a b h = ground arith

-- The character at a place of what has been printed.
abbrev pub char_at : ℕ → List (ℕ × ℕ) → ℕ
char_at i [] = 0
char_at zero ((c, color) ∷ out) = c
char_at (suc i) ((c, color) ∷ out) = char_at i out

char_at-before :
    (out : List (ℕ × ℕ)) (i c color : ℕ)
    → i < length out
    → char_at i (out ++ (c, color) ∷ []) ≡ char_at i out
char_at-before [] i c color h = absurd (omega arith)
char_at-before ((x, y) ∷ out) zero c color h = refl
char_at-before ((x, y) ∷ out) (suc i) c color h = char_at-before out i c color (omega arith)

char_at-last :
    (out : List (ℕ × ℕ)) (c color : ℕ) → char_at (length out) (out ++ (c, color) ∷ []) ≡ c
char_at-last [] c color = refl
char_at-last ((x, y) ∷ out) c color = char_at-last out c color

module _ (s size : ℕ) (m : Memory) (pos : 0 < size) where
  abbrev pub shown : List (ℕ × ℕ) → ℕ
  shown out = min (length out) (size - 1)

  record Buffered (p : StringPrinter) (out : List (ℕ × ℕ)) : Type 0 where
    at : p.s ≡ s + shown out
    end : p.end ≡ s + size - 1
    bytes :
        (q : ℕ) → p.bytes q ≡ (if in_range s (shown out) q then char_at (q - s) out % 256 else m q)

  string_putc-Buffered :
      (p : StringPrinter) (out : List (ℕ × ℕ)) (c color : ℕ)
      → Buffered p out
      → Buffered (string_putc p c color) (record_putc out c color)
  unfolding string_putc
  string_putc-Buffered p out c color v =
      let longer = length-append out ((c, color) ∷ []) in
      let full = λ (e : ltb p.s p.end ≡ false). le_of_not-ltb p.s p.end e in
      elim (Bool-cases (ltb p.s p.end)) [
        | inl e ↦ rw e (record {
          at = omega (arith, v.at, v.end, longer, ltb→lt _ _ e);
          end = v.end;
          bytes = λ q. ground (
            arith,
            v.bytes q,
            v.at,
            v.end,
            longer,
            ltb→lt _ _ e,
            char_at-before out (q - s) c color,
            char_at-last out c color,
          );
        })
        | inr e ↦ rw e (record {
          at = omega (arith, v.at, v.end, longer, full e);
          end = v.end;
          bytes = λ q.
              ground
                (arith, v.bytes q, v.at, v.end, longer, full e, char_at-before out (q - s) c color);
        })
      ]

  -- The result of `vsnprintf` for the text `out`.
  pub record Snprinted (out : List (ℕ × ℕ)) (r : ℕ × Memory) : Type 0 where
    pub count : r.0 ≡ shown out % 2 ^ 32
    pub bytes :
        (q : ℕ)
        → r.1 q ≡ (
            if q == s + shown out
            then 0
            else if in_range s (shown out) q
            then char_at (q - s) out % 256
            else m q)

  snprinted :
      (r : Run StringPrinter) (r' : Run (List (ℕ × ℕ)))
      → Alike Buffered r r'
      → Returns
          (λ out.
            Returns (Snprinted out) (r >>= λ p. ok ((p.s - s) % 2 ^ 32, update p.bytes p.s 0)))
          r'
  snprinted r r' (alike {s = p} {t = out} v) = returns (
      returns
        (record { count = omega (arith, v.at); bytes = λ q. ground (arith, v.bytes q, v.at) }))

  -- `vsnprintf` into a buffer of one byte or more returns: the first `size - 1` characters of what
  -- a printer that keeps everything gets from the same format stand in the buffer, a NUL behind
  -- them, and no other byte changes; the result is their number.
  pub vsnprintf-Snprinted :
      (format : List ℕ) (v : VaList)
      → Returns
          (λ out. Returns (Snprinted out) (vsnprintf s size format v m))
          (printer_vprintf record_putc 0 format v [])
  unfolding vsnprintf
  vsnprintf-Snprinted format v =
      let e : (size == 0) ≡ false = ground arith in
      let p : StringPrinter = record { bytes = m; s = s; end = s + size - 1 } in
      let start : Buffered p [] = record {
        at = omega arith;
        end = refl;
        bytes = λ q. ground arith;
      } in
      rw e (
        snprinted (printer_vprintf string_putc 0 format v p)
          (printer_vprintf record_putc 0 format v [])
          (printer_vprintf-Alike Buffered string_putc record_putc
            (λ p' out c color w. string_putc-Buffered p' out c color w) 0 format v p [] start))
