-- ===== src/Hardware/Logged.antt =====
-- About the messages of kernel/k-hardware.c: what reaches the log.
use mathlib.Core.List.{append_assoc, append-nil}
use memory_management.Base.{
  ℕ, ◌%◌, ◌≡◌, ◌≤◌, ◌⊎◌, refl, ◌∙◌, ap, sym, some, List, [], ◌∷◌, ◌++◌, ◌==◌, if◌then◌else◌,
  Bool-cases, if-cases, inl, inr, arith,
}
use memory_management.Base.Run.{Run, ok, Returns, returns, Returns-bind, Returns-weaken, ◌>>=◌}
use memory_management.Clib.Format.{VaList}
use memory_management.Clib.Console.{console_size}
use memory_management.Clib.Printer.{print_loop, printer_vprintf}
use memory_management.Clib.Printed.{Alike, alike, printer_vprintf-Alike}
use memory_management.Clib.Printers.{record_putc, console_vprintf-InConsole}
use memory_management.Hardware.Interrupts.{Outb, outb}
use memory_management.Hardware.Parallel.{
  ParallelPort, parallel_data, parallel_control, prepare, parallel_port_putc, log_vprintf,
}
use memory_management.Hardware.Panic.{
  Terminal, no_args, panic_prefix, panic_row, error_vprintf, kernel_panic,
}

-- The bytes that the log gets of the writes to ports.
abbrev logged : List Outb → List ℕ
logged [] = []
logged (o ∷ os) = let rest = logged os in if o.port == parallel_data then o.byte ∷ rest else rest

-- The characters of what a printer has got.
abbrev pub chars : List (ℕ × ℕ) → List ℕ
chars [] = []
chars ((c, color) ∷ out) = c % 256 ∷ chars out

logged-append : (xs ys : List Outb) → logged (xs ++ ys) ≡ logged xs ++ logged ys
logged-append [] ys = refl
logged-append (o ∷ xs) ys = elim (Bool-cases (o.port == parallel_data)) [
  | inl e ↦ rw e (ap (λ zs. o.byte ∷ zs) (logged-append xs ys))
  | inr e ↦ rw e (logged-append xs ys)
]

chars-append : (xs ys : List (ℕ × ℕ)) → chars (xs ++ ys) ≡ chars xs ++ chars ys
chars-append [] ys = refl
chars-append ((c, color) ∷ xs) ys = ap (λ zs. c % 256 ∷ zs) (chars-append xs ys)

logged-prepare : (p : ParallelPort) → logged (prepare p) ≡ logged p.writes
logged-prepare p = elim (Bool-cases p.initialized) [
  | inl e ↦ rw e refl
  | inr e ↦ rw e (logged-append p.writes (outb 0x37A 0 ∷ []) ∙ append-nil (logged p.writes))
]

module _ (inb : (read : ℕ) → ℕ) where
  -- One character more, whatever the port answers.
  logged-putc :
      (p : ParallelPort) (c color : ℕ)
      → logged (parallel_port_putc inb p c color).writes ≡ logged p.writes ++ c % 256 ∷ []
  unfolding parallel_port_putc
  logged-putc p c color =
      let sent : List Outb =
        outb parallel_data (c % 256)
        ∷ outb parallel_control 0x0D
        ∷ outb parallel_control 0x0C
        ∷ [] in
      let byte : c % 256 % 256 ≡ c % 256 = omega arith in
      logged-append (prepare p) sent
      ∙ ap (λ x. logged (prepare p) ++ x ∷ []) byte
      ∙ ap (λ xs. xs ++ c % 256 ∷ []) (logged-prepare p)

  -- A log that has `start` in it and then what a printer that keeps everything has got.
  record Logged (start : List ℕ) (p : ParallelPort) (out : List (ℕ × ℕ)) : Type 0 where
    same : logged p.writes ≡ start ++ chars out

  putc-Logged :
      (start : List ℕ) (p : ParallelPort) (out : List (ℕ × ℕ)) (c color : ℕ)
      → Logged start p out
      → Logged start (parallel_port_putc inb p c color) (record_putc out c color)
  putc-Logged start p out c color l = record {
    same =
        logged-putc p c color
        ∙ ap (λ xs. xs ++ c % 256 ∷ []) l.same
        ∙ append_assoc start (chars out) (c % 256 ∷ [])
        ∙ ap (λ xs. start ++ xs) (sym (chars-append out ((c, color) ∷ [])));
  }

  Alike-Returns :
      {P : ParallelPort → List (ℕ × ℕ) → Type 0} (r : Run ParallelPort) (r' : Run (List (ℕ × ℕ)))
      → Alike P r r'
      → Returns (λ out. Returns (λ p. P p out) r) r'
  Alike-Returns r r' (alike h) = returns (returns h)

  -- `log_vprintf` returns, and appends to the log what a printer that keeps everything gets from
  -- the same format.
  log_vprintf-Logged :
      (format : List ℕ) (v : VaList) (p : ParallelPort)
      → Returns
          (λ out.
            Returns
              (λ p'. logged p'.writes ≡ logged p.writes ++ chars out)
              (log_vprintf inb format v p))
          (printer_vprintf record_putc 0 format v [])
  unfolding log_vprintf
  log_vprintf-Logged format v p =
      Returns-weaken
        (Alike-Returns _ _ (
          printer_vprintf-Alike (Logged (logged p.writes)) (parallel_port_putc inb) record_putc
            (putc-Logged (logged p.writes)) 0 format v p []
            (record { same = sym (append-nil (logged p.writes)) })))
        λ out r. Returns-weaken r λ p' l. l.same

  -- What `error_vprintf` does with the characters `text`.
  record Reported (text : List ℕ) (t : Terminal) (r : ℕ × Terminal) : Type 0 where
    log : logged r.1.port.writes ≡ logged t.port.writes ++ text
    outside : (q : ℕ) → console_size ≤ q → r.1.console q ≡ t.console q

  error_vprintf-Reported :
      (cpos color : ℕ) (format : List ℕ) (v : VaList) (t : Terminal)
      → Returns
          (λ out. Returns (Reported (chars out) t) (error_vprintf inb cpos color format v t))
          (printer_vprintf record_putc 0 format v [])
  unfolding error_vprintf
  error_vprintf-Reported cpos color format v t =
      Returns-weaken (log_vprintf-Logged format v t.port) λ out l. Returns-bind l λ port same.
        Returns-bind (console_vprintf-InConsole cpos color format v t.console)
          λ p inside. returns (record { log = same; outside = inside.outside })

  Returns-ok : {A : Type 0} {P : A → Type 0} {a : A} → Returns P (ok a) → P a
  Returns-ok (returns p) = p

  -- A message without arguments.
  prefix-Reported :
      (t : Terminal)
      → Returns
          (Reported panic_prefix t)
          (error_vprintf inb panic_row 0xC000 panic_prefix no_args t)
  unfolding printer_vprintf print_loop
  prefix-Reported t = Returns-ok (error_vprintf-Reported panic_row 0xC000 panic_prefix no_args t)

  newline-Reported :
      (cpos : ℕ) (t : Terminal)
      → Returns (Reported (b'\n' ∷ []) t) (error_vprintf inb cpos 0xC000 (b'\n' ∷ []) no_args t)
  unfolding printer_vprintf print_loop
  newline-Reported cpos t = Returns-ok (error_vprintf-Reported cpos 0xC000 (b'\n' ∷ []) no_args t)

  -- What a panic with the characters `text` leaves.
  pub record Panicked (text : List ℕ) (t t' : Terminal) : Type 0 where
    pub end : List ℕ
    pub ended : (end ≡ []) ⊎ (end ≡ b'\n' ∷ [])
    pub log : logged t'.port.writes ≡ logged t.port.writes ++ (panic_prefix ++ (text ++ end))
    pub outside : (q : ℕ) → console_size ≤ q → t'.console q ≡ t.console q

  -- The end of a message, behind its text.
  newline-Panicked :
      (text : List ℕ) (t : Terminal) (r : ℕ × Terminal)
      → Reported (panic_prefix ++ text) t r
      → Returns (Panicked text t) (
          if r.0 % 80 == 0
          then ok r.1
          else (error_vprintf inb r.0 0xC000 (b'\n' ∷ []) no_args r.1 >>= λ r'. ok r'.1))
  newline-Panicked text t r both =
      let before = logged t.port.writes in
      if-cases (Returns (Panicked text t)) {x = ok r.1}
        {y = error_vprintf inb r.0 0xC000 (b'\n' ∷ []) no_args r.1 >>= λ r'. ok r'.1}
        (r.0 % 80 == 0)
        (λ whole. returns (record {
          end = [];
          ended = inl refl;
          log = both.log ∙ ap (λ xs. before ++ (panic_prefix ++ xs)) (sym (append-nil text));
          outside = both.outside;
        }))
        λ part. Returns-bind (newline-Reported r.0 r.1) λ r' third. returns (record {
          end = b'\n' ∷ [];
          ended = inr refl;
          log =
              third.log
              ∙ ap (λ xs. xs ++ b'\n' ∷ []) both.log
              ∙ append_assoc before (panic_prefix ++ text) (b'\n' ∷ [])
              ∙ ap (λ xs. before ++ xs) (append_assoc panic_prefix text (b'\n' ∷ []));
          outside = λ q far. third.outside q far ∙ both.outside q far;
        })

  -- The two parts of a message.
  Reported-append :
      (text text' : List ℕ) (t : Terminal) (r r' : ℕ × Terminal)
      → Reported text t r
      → Reported text' r.1 r'
      → Reported (text ++ text') t r'
  Reported-append text text' t r r' first second = record {
    log =
        second.log
        ∙ ap (λ xs. xs ++ text') first.log
        ∙ append_assoc (logged t.port.writes) text text';
    outside = λ q far. second.outside q far ∙ first.outside q far;
  }

  -- A message behind its prefix.
  message-Panicked :
      (format : List ℕ) (v : VaList) (t : Terminal) (first : Run (ℕ × Terminal))
      → Returns (Reported panic_prefix t) first
      → Returns
          (λ out. Returns (Panicked (chars out) t) (
            first >>= λ r1.
            (error_vprintf inb r1.0 0xC000 format v r1.1 >>= λ r2.
            if r2.0 % 80 == 0
            then ok r2.1
            else (error_vprintf inb r2.0 0xC000 (b'\n' ∷ []) no_args r2.1 >>= λ r3. ok r3.1))))
          (printer_vprintf record_putc 0 format v [])
  message-Panicked format v t first (returns {a = r1} prefix) =
      Returns-weaken (error_vprintf-Reported r1.0 0xC000 format v r1.1) λ out reported.
        Returns-bind reported λ r2 second.
          newline-Panicked (chars out) t r2
            (Reported-append panic_prefix (chars out) t r1 r2 prefix second)

  -- `kernel_panic` with a format prints its message and returns from the printing: the log gets
  -- "PANIC: ", every character that a printer that keeps everything gets from the format, and at
  -- most a newline, whatever the parallel port answers; memory behind the console does not change.
  pub kernel_panic-Panicked :
      (format : List ℕ) (v : VaList) (t : Terminal)
      → Returns
          (λ out. Returns (Panicked (chars out) t) (kernel_panic inb (some format) v t))
          (printer_vprintf record_putc 0 format v [])
  unfolding kernel_panic
  kernel_panic-Panicked format v t =
      message-Panicked format v t (error_vprintf inb panic_row 0xC000 panic_prefix no_args t)
        (prefix-Reported t)
