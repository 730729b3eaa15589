-- ===== src/Hardware/Panic.antt =====
-- error_vprintf, kernel_panic and the functions that call it in kernel/k-hardware.c, and
-- check_keyboard.
use memory_management.Base.{ℕ, ◌*◌, ◌%◌, Option, none, some, List, [], ◌∷◌, ◌==◌, if◌then◌else◌}
use memory_management.Base.Run.{Run, ok, ◌>>=◌}
use memory_management.Clib.Format.{VaList}
use memory_management.Clib.Console.{console_vprintf}
use memory_management.Hardware.Parallel.{ParallelPort, log_vprintf}

-- What a message changes: the parallel port and the console.
pub record Terminal : Type 0 where
  pub port : ParallelPort
  pub console : ℕ → ℕ

-- An argument list without arguments.
abbrev pub no_args : VaList
no_args = record { slot = λ i. record { word = 0; text = [] }; next = 0 }

-- `CPOS(23, 0)`
abbrev pub panic_row : ℕ
panic_row = 23 * 80

abbrev panic_title : List ℕ
panic_title = b'P' ∷ b'A' ∷ b'N' ∷ b'I' ∷ b'C' ∷ []

abbrev pub panic_prefix : List ℕ
panic_prefix = b'P' ∷ b'A' ∷ b'N' ∷ b'I' ∷ b'C' ∷ b':' ∷ b' ' ∷ []

-- "%s:%d: assertion '%s' failed\n"
abbrev assert_format : List ℕ
assert_format =
    b'%' ∷ b's' ∷ b':' ∷ b'%' ∷ b'd' ∷ b':' ∷ b' ' ∷ b'a' ∷ b's' ∷ b's' ∷ b'e' ∷ b'r' ∷ b't' ∷ b'i'
    ∷ b'o' ∷ b'n' ∷ b' ' ∷ b'\'' ∷ b'%' ∷ b's' ∷ b'\'' ∷ b' ' ∷ b'f' ∷ b'a' ∷ b'i' ∷ b'l' ∷ b'e'
    ∷ b'd' ∷ b'\n' ∷ []

-- "Unexpected exception %d!\n"
abbrev exception_format : List ℕ
exception_format =
    b'U' ∷ b'n' ∷ b'e' ∷ b'x' ∷ b'p' ∷ b'e' ∷ b'c' ∷ b't' ∷ b'e' ∷ b'd' ∷ b' ' ∷ b'e' ∷ b'x' ∷ b'c'
    ∷ b'e' ∷ b'p' ∷ b't' ∷ b'i' ∷ b'o' ∷ b'n' ∷ b' ' ∷ b'%' ∷ b'd' ∷ b'!' ∷ b'\n' ∷ []

module _ (inb : (read : ℕ) → ℕ) where
  -- `error_vprintf`: the new position, and the terminal.
  unfoldable pub error_vprintf :
      (cpos color : ℕ) → (format : List ℕ) → VaList → Terminal → Run (ℕ × Terminal)
  unfolding log_vprintf console_vprintf
  error_vprintf cpos color format v t = do
    port ← log_vprintf inb format v t.port
    p ← console_vprintf cpos color format v t.console
    ok (p.cursor, record { port = port; console = p.console })

  -- The message of `kernel_panic`, which then waits for Control-C.
  unfoldable pub kernel_panic : Option (List ℕ) → VaList → Terminal → Run Terminal
  unfolding error_vprintf
  kernel_panic none v t = do
    (cpos, t1) ← error_vprintf panic_row 0xC000 panic_title no_args t
    ok t1
  kernel_panic (some format) v t = do
    (cpos, t1) ← error_vprintf panic_row 0xC000 panic_prefix no_args t
    (cpos2, t2) ← error_vprintf cpos 0xC000 format v t1
    if cpos2 % 80 == 0
        then ok t2
        else (do (cpos3, t3) ← error_vprintf cpos2 0xC000 (b'\n' ∷ []) no_args t2; ok t3)

  -- `assert_fail`
  unfoldable assert_fail : (file : List ℕ) → (line : ℕ) → (msg : List ℕ) → Terminal → Run Terminal
  unfolding kernel_panic
  assert_fail file line msg = kernel_panic (some assert_format) (record {
    slot = λ i.
        if i == 0
        then record { word = 0; text = file }
        else if i == 1
        then record { word = line; text = [] }
        else record { word = 0; text = msg };
    next = 0;
  })

  -- `default_exception`, of the number that the process's registers hold
  unfoldable default_exception : (intno : ℕ) → Terminal → Run Terminal
  unfolding kernel_panic
  default_exception intno =
      kernel_panic (some exception_format)
        (record { slot = λ i. record { word = intno; text = [] }; next = 0 })
