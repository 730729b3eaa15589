-- ===== src/Tests/Printers.antt =====
-- The printers of shared/lib.c at concrete formats.
use memory_management.Base.{ℕ, ◌+◌, ◌-◌, ◌^◌, ◌≡◌, refl, false, none, List, [], ◌∷◌, arith}
use memory_management.Base.Run.{ok, Returns}
use memory_management.Clib.Format.{VaList, no_flags, signed_conversion}
use memory_management.Clib.Printer.{Field, printer_vprintf}
use memory_management.Clib.Printers.{record_putc, InConsole, console_vprintf-InConsole}
use memory_management.Clib.Console.{ConsolePrinter, console_vprintf, vsnprintf}
use memory_management.Clib.Snprintf.{Snprinted, vsnprintf-Snprinted}

-- "a%5d" and its argument -42
abbrev format : List ℕ
format = b'a' ∷ b'%' ∷ b'5' ∷ b'd' ∷ []

abbrev args : VaList
args = record { slot = λ i. record { word = 2 ^ 32 - 42; text = [] }; next = 0 }

-- A printer that counts.
abbrev count : ℕ → (c color : ℕ) → ℕ
count n c color = n + 1

printed :
    printer_vprintf record_putc 7 format args []
    ≡ ok ((b'a', 7) ∷ (b' ', 7) ∷ (b' ', 7) ∷ (b'-', 7) ∷ (b'4', 7) ∷ (b'2', 7) ∷ [])
unfolding printer_vprintf
printed = refl

abbrev field : Field
field = record {
  flags = no_flags;
  width = 8;
  precision = none;
  conversion = signed_conversion false 42;
  color = 7;
}

abbrev blank : ℕ → ℕ
blank q = 0x720

console_vprintf-InConsole_example :
    Returns (InConsole blank) (console_vprintf 1998 0x700 format args blank)
console_vprintf-InConsole_example = console_vprintf-InConsole 1998 0x700 format args blank

abbrev cursor_at : ConsolePrinter
cursor_at = record { console = blank; cursor = 83 }

vsnprintf-Snprinted_example :
    Returns
      (λ out.
        Returns (Snprinted 500 4 (λ q. 9) (omega arith) out) (vsnprintf 500 4 format args (λ q. 9)))
      (printer_vprintf record_putc 0 format args [])
vsnprintf-Snprinted_example = vsnprintf-Snprinted 500 4 (λ q. 9) (omega arith) format args
