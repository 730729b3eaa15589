-- ===== src/Clib/Printers.antt =====
-- About the printers of shared/lib.c: what reaches the console and a string buffer.
use Prim.Native.Nat.{bit_or}
use memory_management.Base.{
  ℕ, zero, suc, ◌+◌, ◌-◌, ◌*◌, ◌/◌, ◌%◌, ◌^◌, ◌≤◌, ◌<◌, ◌≡◌, refl, sym, ap, inl, inr, false, ◌&&◌,
  List, [], ◌∷◌, ◌++◌, ◌==◌, ltb, leb, if◌then◌else◌, Bool-cases, arith,
}
use memory_management.Base.Run.{Run, ok, Returns, returns}
use memory_management.Clib.Copy.{in_range}
use memory_management.Clib.Format.{VaList}
use memory_management.Clib.Printer.{printer_vprintf}
use memory_management.Clib.Printed.{Alike, alike, printer_vprintf-Alike}
use memory_management.Clib.Console.{
  ConsolePrinter, console_size, put_cell, put_blanks, wrap_cursor, console_putc, console_vprintf,
}

-- The printer that keeps what it is given.
abbrev pub record_putc : List (ℕ × ℕ) → (c color : ℕ) → List (ℕ × ℕ)
record_putc out c color = out ++ (c, color) ∷ []

module _ {S : Type 0} (putc : S → (c color : ℕ) → S) where
  abbrev pub put_all : List (ℕ × ℕ) → S → S
  put_all [] s = s
  put_all ((c, color) ∷ out) s = put_all out (putc s c color)

  put_all-append :
      (out : List (ℕ × ℕ)) (c color : ℕ) (s : S)
      → put_all (out ++ (c, color) ∷ []) s ≡ putc (put_all out s) c color
  put_all-append [] c color s = refl
  put_all-append ((x, y) ∷ out) c color s = put_all-append out c color (putc s x y)

  collect :
      (s : S) (r : Run S) (r' : Run (List (ℕ × ℕ)))
      → Alike (λ s' out. s' ≡ put_all out s) r r'
      → Returns (λ out. r ≡ ok (put_all out s)) r'
  collect s r r' (alike e) = returns (ap ok e)

  -- `printer_vprintf` prints the same characters in the same colors on every printer, whatever
  -- the printer's state: those that it gives a printer that keeps them all.
  pub printer_vprintf-Returns :
      (color : ℕ) (format : List ℕ) (v : VaList) (s : S)
      → Returns
          (λ out. printer_vprintf putc color format v s ≡ ok (put_all out s))
          (printer_vprintf record_putc color format v [])
  printer_vprintf-Returns color format v s =
      collect s (printer_vprintf putc color format v s)
        (printer_vprintf record_putc color format v [])
        (printer_vprintf-Alike (λ s' out. s' ≡ put_all out s) putc record_putc
          (λ s' out c color' e. rw e (sym (put_all-append out c color' s))) color format v s []
          refl)

put_blanks-cursor :
    (n color : ℕ) (p : ConsolePrinter) → (put_blanks n color p).cursor ≡ p.cursor + n
unfolding put_blanks
put_blanks-cursor zero color p = omega arith
put_blanks-cursor (suc n) color p = omega (arith, put_blanks-cursor n color (put_cell b' ' color p))

put_blanks-console :
    (n color : ℕ) (p : ConsolePrinter) (q : ℕ)
    → (put_blanks n color p).console q
      ≡ (if in_range p.cursor n q then bit_or b' ' color % 2 ^ 16 else p.console q)
unfolding put_blanks
put_blanks-console zero color p q = ground arith
put_blanks-console (suc n) color p q =
    ground (arith, put_blanks-console n color (put_cell b' ' color p) q)

-- The cursor has not passed the end, and nothing behind the console's cells has been written.
pub record InConsole (console : ℕ → ℕ) (p : ConsolePrinter) : Type 0 where
  pub cursor : p.cursor ≤ console_size
  pub outside : (q : ℕ) → console_size ≤ q → p.console q ≡ console q

wrap_cursor-InConsole :
    (console : ℕ → ℕ) (p : ConsolePrinter)
    → InConsole console p
    → InConsole console (wrap_cursor p) × ((wrap_cursor p).cursor < console_size)
unfolding wrap_cursor
wrap_cursor-InConsole console p v = elim (Bool-cases (leb console_size p.cursor)) [
  | inl e ↦ rw e (record { cursor = omega arith; outside = v.outside }, omega arith)
  | inr e ↦ rw e (v, ground arith)
]

console_putc-InConsole :
    (console : ℕ → ℕ) (p : ConsolePrinter) (c color : ℕ)
    → InConsole console p
    → InConsole console (console_putc p c color)
unfolding console_putc
console_putc-InConsole console p c color v =
    let p1 = wrap_cursor p in
    let left = 80 - p1.cursor % 80 in
    let w = wrap_cursor-InConsole console p v in
    elim (Bool-cases (c % 256 == b'\n')) [
      | inl e ↦ rw e (record {
        cursor = omega (arith, put_blanks-cursor left color p1, w.1);
        outside = λ q h. ground (arith, put_blanks-console left color p1 q, w.0.outside q h, w.1);
      })
      | inr e ↦ rw e (record {
        cursor = omega (arith, w.1);
        outside = λ q h. ground (arith, w.0.outside q h, w.1);
      })
    ]

in_console :
    (console : ℕ → ℕ) (r : Run ConsolePrinter) (r' : Run Unit)
    → Alike (λ p u. InConsole console p) r r'
    → Returns (InConsole console) r
in_console console r r' (alike v) = returns v

-- `console_vprintf` returns from every position, with the cursor at most at the end of the
-- console and no memory behind the console's 2000 cells written.
pub console_vprintf-InConsole :
    (cpos color : ℕ) (format : List ℕ) (v : VaList) (console : ℕ → ℕ)
    → Returns (InConsole console) (console_vprintf cpos color format v console)
unfolding console_vprintf
console_vprintf-InConsole cpos color format v console =
    let start : ℕ = if leb console_size cpos then 0 else cpos in
    let p : ConsolePrinter = record { console = console; cursor = start } in
    in_console console (printer_vprintf console_putc color format v p)
      (printer_vprintf (λ (u : Unit) c color'. u) color format v tt)
      (printer_vprintf-Alike (λ p' u. InConsole console p') console_putc (λ u c color'. u)
        (λ p' u c color' w. console_putc-InConsole console p' c color' w) color format v p tt
        (record { cursor = ground arith; outside = λ q h. refl }))

-- A newline on a row of the console fills the row with blanks from the cursor on and leaves the
-- cursor at the start of the next row; no other cell changes.
console_putc-newline :
    (p : ConsolePrinter) (color q : ℕ)
    → p.cursor < console_size
    → ((console_putc p b'\n' color).cursor ≡ (p.cursor / 80 + 1) * 80)
      × ((console_putc p b'\n' color).console q ≡ (
          if leb p.cursor q && ltb q ((p.cursor / 80 + 1) * 80)
          then bit_or b' ' color % 2 ^ 16
          else p.console q))
unfolding console_putc wrap_cursor
console_putc-newline p color q h =
    let e : leb console_size p.cursor ≡ false = ground arith in
    let left = 80 - p.cursor % 80 in
    rw e (
      omega (arith, put_blanks-cursor left color p),
      ground (arith, put_blanks-console left color p q),
    )
