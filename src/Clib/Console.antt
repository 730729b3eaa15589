-- ===== src/Clib/Console.antt =====
-- The printers of shared/lib.c: the console and a string buffer.
use Prim.Native.Nat.{bit_or}
use memory_management.Base.{
  ℕ, zero, suc, ◌+◌, ◌-◌, ◌%◌, ◌^◌, List, ◌==◌, ltb, leb, if◌then◌else◌, update,
}
use memory_management.Base.Run.{Run, ok, ◌>>=◌}
use memory_management.Clib.Memory.{Memory}
use memory_management.Clib.Format.{VaList}
use memory_management.Clib.Printer.{printer_vprintf}

-- `CONSOLE_ROWS * CONSOLE_COLUMNS`
abbrev pub console_size : ℕ
console_size = 2000

-- `console_printer`: the cells of `console`, and the cursor as an index into them.
pub record ConsolePrinter : Type 0 where
  pub console : ℕ → ℕ
  pub cursor : ℕ

-- `*cp->cursor++ = c | color`
abbrev pub put_cell : (c color : ℕ) → ConsolePrinter → ConsolePrinter
put_cell c color p = record {
  console = update p.console p.cursor (bit_or c color % 2 ^ 16);
  cursor = p.cursor + 1;
}

unfoldable pub put_blanks : (left color : ℕ) → ConsolePrinter → ConsolePrinter
put_blanks zero color p = p
put_blanks (suc left) color p = put_blanks left color (put_cell b' ' color p)

-- The first test of `console_putc`
unfoldable pub wrap_cursor : ConsolePrinter → ConsolePrinter
wrap_cursor p = if leb console_size p.cursor then record p { cursor = 0 } else p

unfoldable pub console_putc : ConsolePrinter → (c color : ℕ) → ConsolePrinter
unfolding put_blanks wrap_cursor
console_putc p c color =
    let p1 = wrap_cursor p in
    if c % 256 == b'\n'
    then put_blanks (80 - p1.cursor % 80) color p1
    else put_cell (c % 256) color p1

-- `console_vprintf`; a negative position has a large bit pattern.
unfoldable pub console_vprintf :
    (cpos color : ℕ) → (format : List ℕ) → VaList → (ℕ → ℕ) → Run ConsolePrinter
unfolding printer_vprintf console_putc
console_vprintf cpos color format v console =
    let start : ℕ = if leb console_size cpos then 0 else cpos in
    printer_vprintf console_putc color format v (record { console = console; cursor = start })

unfoldable pub clear_loop : (left : ℕ) → (ℕ → ℕ) → ℕ → ℕ
clear_loop zero console = console
clear_loop (suc left) console = clear_loop left (update console (console_size - suc left) 0x720)

-- `console_clear`: the cells, and `cursorpos`.
unfoldable pub console_clear : (ℕ → ℕ) → (ℕ → ℕ) × ℕ
console_clear console = (clear_loop console_size console, 0)

-- `string_printer`
pub record StringPrinter : Type 0 where
  pub bytes : Memory
  pub s : ℕ
  pub end : ℕ

unfoldable pub string_putc : StringPrinter → (c color : ℕ) → StringPrinter
string_putc p c color =
    if ltb p.s p.end then record p { bytes = update p.bytes p.s (c % 256); s = p.s + 1 } else p

-- `vsnprintf`, with the memory after it.
unfoldable pub vsnprintf : (s size : ℕ) → (format : List ℕ) → VaList → Memory → Run (ℕ × Memory)
unfolding printer_vprintf string_putc
vsnprintf s size format v m = if size == 0 then ok (0, m) else (do
  p ← printer_vprintf string_putc 0 format v (record { bytes = m; s = s; end = s + size - 1 })
  ok ((p.s - s) % 2 ^ 32, update p.bytes p.s 0))
