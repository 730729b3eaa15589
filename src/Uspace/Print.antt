-- ===== src/Uspace/Print.antt =====
-- app_printf and kernel_panic of uspace/process.c. The system call at the end of `kernel_panic` is
-- `Calls.panic`; the address of its buffer is a parameter.
use memory_management.Base.{
  ℕ, zero, suc, ◌+◌, ◌-◌, ◌*◌, ◌/◌, ◌%◌, ◌^◌, not, List, ◌==◌, leb, if◌then◌else◌, update,
}
use memory_management.Base.Run.{Run, ok, ◌>>=◌}
use memory_management.Clib.Memory.{Memory}
use memory_management.Clib.Format.{VaList}
use memory_management.Clib.Console.{console_vprintf, vsnprintf}

-- `col`
abbrev pub col : ℕ → ℕ
col zero = 0x0E
col (suc zero) = 0x0F
col (suc (suc zero)) = 0x0C
col (suc (suc (suc zero))) = 0x0A
col (suc (suc (suc (suc i)))) = 0x09

-- The color of `app_printf`, of the bit pattern of an `int`.
unfoldable pub app_color : (colorid : ℕ) → ℕ
app_color colorid = if leb (2 ^ 31) colorid then 0x700 else col (colorid % 5) * 2 ^ 8

-- `app_printf`: the console, and `cursorpos`.
unfoldable pub app_printf :
    (colorid : ℕ) → (format : List ℕ) → VaList → (cursorpos : ℕ) → (ℕ → ℕ) → Run ((ℕ → ℕ) × ℕ)
unfolding console_vprintf app_color
app_printf colorid format v cursorpos console = do
  p ← console_vprintf cursorpos (app_color colorid) format v console
  ok (p.console, if leb 23 (p.cursor / 80) then 0 else p.cursor)

-- `memcpy(buf, "PANIC: ", 7)`
abbrev pub panic_prefix : (buf : ℕ) → Memory → Memory
panic_prefix buf m =
    update
      (update
        (update
          (update (update (update (update m buf b'P') (buf + 1) b'A') (buf + 2) b'N') (buf + 3)
            b'I')
          (buf + 4) b'C')
        (buf + 5) b':')
      (buf + 6) b' '

-- `strcpy(dst, "\n")`
abbrev pub put_newline : (dst : ℕ) → Memory → Memory
put_newline dst m = update (update m dst b'\n') (dst + 1) 0

-- The message that `kernel_panic` leaves in its buffer of 160 bytes.
unfoldable pub panic_message : (buf : ℕ) → (format : List ℕ) → VaList → Memory → Run Memory
unfolding vsnprintf
panic_message buf format v m = do
  (n, m1) ← vsnprintf (buf + 7) 153 format v (panic_prefix buf m)
  let len = n + 7
  ok (
      if not (m1 (buf + len - 1) == b'\n')
      then put_newline (buf + len - (if len == 159 then 1 else 0)) m1
      else m1)
