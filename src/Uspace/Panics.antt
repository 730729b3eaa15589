-- ===== src/Uspace/Panics.antt =====
-- About app_printf and kernel_panic of uspace/process.c: where they write.
use Prim.Native.Nat.{min}
use memory_management.Base.{
  ℕ, ◌+◌, ◌-◌, ◌*◌, ◌%◌, ◌≤◌, ◌<◌, ◌≡◌, ◌⊎◌, ap, sym, ◌∙◌, not, List, ◌==◌, if◌then◌else◌, if-cases,
  length, arith,
}
use memory_management.Base.Run.{Run, Returns, returns, Returns-bind, Returns-weaken}
use memory_management.Clib.Memory.{Memory}
use memory_management.Clib.Copy.{in_range}
use memory_management.Clib.Format.{VaList}
use memory_management.Clib.Console.{console_size}
use memory_management.Clib.Printers.{console_vprintf-InConsole}
use memory_management.Clib.Snprintf.{Snprinted, vsnprintf-Snprinted, char_at}
use memory_management.Uspace.Print.{app_printf, app_color, panic_prefix, put_newline, panic_message}

-- `app_printf` returns from every position, leaves `cursorpos` on the first 23 rows, and writes no
-- memory behind the console.
app_printf-InRows :
    (colorid : ℕ) (format : List ℕ) (v : VaList) (cursorpos : ℕ) (console : ℕ → ℕ)
    → Returns
        (λ r. (r.1 < 23 * 80) × ((q : ℕ) → console_size ≤ q → r.0 q ≡ console q))
        (app_printf colorid format v cursorpos console)
unfolding app_printf
app_printf-InRows colorid format v cursorpos console =
    Returns-bind (console_vprintf-InConsole cursorpos (app_color colorid) format v console)
      λ p inside. returns (ground arith, inside.outside)

-- What `kernel_panic` leaves in the 160 bytes from `buf` on, in a memory that was `m`.
pub record Message (buf : ℕ) (m m' : Memory) : Type 0 where
  pub end : ℕ
  pub low : 7 ≤ end
  pub high : end < 159
  pub prefix : (q : ℕ) → buf ≤ q → q < buf + 7 → m' q ≡ panic_prefix buf m q
  pub newline : m' (buf + end) ≡ b'\n'
  pub nul : m' (buf + end + 1) ≡ 0
  pub kept : (q : ℕ) → (q < buf) ⊎ (buf + 160 ≤ q) → m' q ≡ m q

-- The end of `panic_message`, behind a text of `n` characters.
Message-end :
    (buf n : ℕ) (m m1 : Memory) (text : ℕ → ℕ)
    → n ≤ 152
    → ((q : ℕ)
        → m1 q ≡ (
            if q == buf + 7 + n
            then 0
            else if in_range (buf + 7) n q
            then text q
            else panic_prefix buf m q))
    → Message buf m (
        if not (m1 (buf + (n + 7) - 1) == b'\n')
        then put_newline (buf + (n + 7) - (if n + 7 == 159 then 1 else 0)) m1
        else m1)
Message-end buf n m m1 text small bytes =
    if-cases (Message buf m) (not (m1 (buf + (n + 7) - 1) == b'\n'))
      (λ missing.
        let cut : ℕ = if n + 7 == 159 then 1 else 0 in
        let at : buf + (n + 7) - cut ≡ buf + (n + 7 - cut) = ground arith in
        rw at (record {
          end = n + 7 - cut;
          low = ground arith;
          high = ground arith;
          prefix = λ q lo hi. ground (arith, bytes q);
          newline = ground arith;
          nul = ground arith;
          kept = λ q out. ground (arith, bytes q);
        }))
      λ there.
        let long : 1 ≤ n = ground (arith, bytes (buf + (n + 7) - 1)) in
        let place : buf + (n + 7) - 1 ≡ buf + (n + 6) = omega arith in
        let place' : buf + (n + 6) + 1 ≡ buf + 7 + n = omega arith in
        record {
          end = n + 6;
          low = omega arith;
          high = omega arith;
          prefix = λ q lo hi. bytes q ∙ ground arith;
          newline = ap m1 (sym place) ∙ ground arith;
          nul = ap m1 place' ∙ bytes (buf + 7 + n) ∙ ground arith;
          kept = λ q out. bytes q ∙ ground arith;
        }

Returns-Message-end :
    (buf : ℕ) (m : Memory) (out : List (ℕ × ℕ)) (r : ℕ × Memory)
    → Snprinted (buf + 7) 153 (panic_prefix buf m) (omega arith) out r
    → Message buf m (
        if not (r.1 (buf + (r.0 + 7) - 1) == b'\n')
        then put_newline (buf + (r.0 + 7) - (if r.0 + 7 == 159 then 1 else 0)) r.1
        else r.1)
Returns-Message-end buf m out r printed =
    let n = min (length out) 152 in
    let count : r.0 ≡ n = omega (arith, printed.count) in
    rw count
      (Message-end buf n m r.1 (λ q. char_at (q - (buf + 7)) out % 256) (omega arith) printed.bytes)

Returns-join :
    {A B : Type 0} {P : B → Type 0} {r : Run A} {r' : Run B}
    → Returns (λ a. Returns P r') r
    → Returns P r'
Returns-join (returns p) = p

-- The message of `kernel_panic` always returns and stays within its buffer: "PANIC: " is its start,
-- a newline and a NUL are its end, at most 160 bytes behind the start, and no byte outside the
-- buffer changes.
pub panic_message-Message :
    (buf : ℕ) (format : List ℕ) (v : VaList) (m : Memory)
    → Returns (Message buf m) (panic_message buf format v m)
unfolding panic_message
panic_message-Message buf format v m = Returns-join (
    Returns-weaken (vsnprintf-Snprinted (buf + 7) 153 (panic_prefix buf m) (omega arith) format v)
      λ out printed. Returns-bind printed λ r p. returns (Returns-Message-end buf m out r p))
