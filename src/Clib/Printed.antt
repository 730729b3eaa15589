-- ===== src/Clib/Printed.antt =====
-- About printer_vprintf of shared/lib.c on every printer.
use memory_management.Base.{
  ℕ, zero, suc, ◌+◌, ◌-◌, ◌*◌, ◌≤◌, inl, inr, Bool, true, false, Option, none, some, List, [], ◌∷◌,
  length, ◌==◌, Bool-cases, arith,
}
use memory_management.Base.Run.{Run, ok}
use memory_management.Clib.Format.{
  Flags, no_flags, set_flag, parse_flags, parse_number, VaList, parse_width, parse_point,
  parse_precision, parse_length,
}
use memory_management.Clib.Printer.{
  Field, parse_conversion, parse_directive, put_many, put_text, Parts, parts_of, put_parts,
  put_directive, print_loop, printer_vprintf,
}

parse_flags-length : (cs : List ℕ) (f : Flags) → length (parse_flags cs f).1 ≤ length cs
unfolding parse_flags
parse_flags-length [] f = omega arith
parse_flags-length (c ∷ cs) f =
    elim (set_flag c f)
      as (λ o.
        length
          (elim o as (λ x. Flags × List ℕ) [ none ↦ (f, c ∷ cs) | some f' ↦ parse_flags cs f' ]).1
        ≤ suc (length cs)) [
          | none ↦ omega arith
          | some f' ↦ omega (arith, parse_flags-length cs f')
        ]

parse_number-length : (cs : List ℕ) (n : ℕ) → length (parse_number cs n).1 ≤ length cs
unfolding parse_number
parse_number-length [] n = omega arith
parse_number-length (c ∷ cs) n = ground (arith, parse_number-length cs (10 * n + (c - 48)))

parse_width-length : (cs : List ℕ) (v : VaList) → length (parse_width cs v).1 ≤ length cs
unfolding parse_width
parse_width-length [] v = omega arith
parse_width-length (c ∷ cs) v = ground (arith, parse_number-length (c ∷ cs) 0)

parse_point-length : (cs : List ℕ) (v : VaList) → length (parse_point cs v).1 ≤ length cs
unfolding parse_point
parse_point-length [] v = omega arith
parse_point-length (c ∷ cs) v = ground (arith, parse_number-length (c ∷ cs) 0)

parse_precision-length : (cs : List ℕ) (v : VaList) → length (parse_precision cs v).1 ≤ length cs
unfolding parse_precision
parse_precision-length [] v = omega arith
parse_precision-length (c ∷ cs) v = ground (arith, parse_point-length cs v)

parse_length-length : (cs : List ℕ) (long : Bool) → length (parse_length cs long).1 ≤ length cs
unfolding parse_length
parse_length-length [] long = omega arith
parse_length-length (c ∷ cs) long = ground (arith, parse_length-length cs true)

parse_conversion-length :
    (cs : List ℕ) (long : Bool) (v : VaList) (color : ℕ) (f : Flags) (width : ℕ) (p : Option ℕ)
    → length (parse_conversion cs long v color f width p).rest ≤ length cs
unfolding parse_conversion
parse_conversion-length [] long v color f width p = omega arith
parse_conversion-length (x ∷ rest) long v color f width p = elim (Bool-cases (x == b'C')) [
  | inl e ↦ rw e (omega arith)
  | inr e ↦ rw e (omega arith)
]

parse_directive-length :
    (cs : List ℕ) (v : VaList) (color : ℕ) → length (parse_directive cs v color).rest ≤ length cs
unfolding parse_directive
parse_directive-length cs v color =
    let (f, cs1) = parse_flags cs no_flags in
    let (width, cs2, v2) = parse_width cs1 v in
    let (p, cs3, v3) = parse_precision cs2 v2 in
    let (long, cs4) = parse_length cs3 false in
    omega (
      arith,
      parse_flags-length cs no_flags,
      parse_width-length cs1 v,
      parse_precision-length cs2 v2,
      parse_length-length cs3 false,
      parse_conversion-length cs4 long v3 color f width p,
    )

-- Both runs return, and their values are related.
pub data Alike {S T : Type 0} (R : S → T → Type 0) : Run S → Run T → Type 0 where
  alike : {s : S} {t : T} → R s t → Alike R (ok s) (ok t)

module _ {S T : Type 0} (R : S → T → Type 0) (putc : S → (c color : ℕ) → S)
    (putc' : T → (c color : ℕ) → T)
    (step : (s : S) (t : T) (c color : ℕ) → R s t → R (putc s c color) (putc' t c color)) where
  put_many-related :
      (n c color : ℕ) (s : S) (t : T)
      → R s t
      → R (put_many putc n c color s) (put_many putc' n c color t)
  unfolding put_many
  put_many-related zero c color s t r = r
  put_many-related (suc n) c color s t r =
      put_many-related n c color (putc s c color) (putc' t c color) (step s t c color r)

  put_text-related :
      (n : ℕ) (text : List ℕ) (color : ℕ) (s : S) (t : T)
      → R s t
      → R (put_text putc n text color s) (put_text putc' n text color t)
  unfolding put_text
  put_text-related zero text color s t r = r
  put_text-related (suc n) [] color s t r = r
  put_text-related (suc n) (c ∷ cs) color s t r =
      put_text-related n cs color (putc s c color) (putc' t c color) (step s t c color r)

  put_parts-related :
      (p : Parts) (color : ℕ) (s : S) (t : T)
      → R s t
      → R (put_parts putc p color s) (put_parts putc' p color t)
  unfolding put_parts
  put_parts-related p color s t r =
      let blanks = put_many-related p.before b' ' color s t r in
      let prefixed = put_text-related (length p.prefix) p.prefix color _ _ blanks in
      let filled = put_many-related p.zeros b'0' color _ _ prefixed in
      put_many-related p.after b' ' color _ _ (put_text-related p.len p.text color _ _ filled)

  put_directive-related :
      (d : Option Field) (s : S) (t : T)
      → R s t
      → R (put_directive putc d s) (put_directive putc' d t)
  unfolding put_directive
  put_directive-related none s t r = r
  put_directive-related (some d) s t r = put_parts-related (parts_of d) d.color s t r

  print_loop-Alike :
      (fuel : ℕ) (cs : List ℕ) (v : VaList) (color : ℕ) (s : S) (t : T)
      → length cs ≤ fuel
      → R s t
      → Alike R (print_loop putc fuel cs v color s) (print_loop putc' fuel cs v color t)
  unfolding print_loop
  print_loop-Alike zero [] v color s t h r = alike r
  print_loop-Alike (suc fuel) [] v color s t h r = alike r
  print_loop-Alike zero (c ∷ cs) v color s t h r = absurd (omega arith)
  print_loop-Alike (suc fuel) (c ∷ cs) v color s t h r =
      let d = parse_directive cs v color in
      elim (Bool-cases (c == b'%')) [
        | inl e ↦ rw e (
            print_loop-Alike fuel d.rest d.args d.color (put_directive putc d.field s)
              (put_directive putc' d.field t) (omega (arith, parse_directive-length cs v color))
              (put_directive-related d.field s t r))
        | inr e ↦ rw e (
            print_loop-Alike fuel cs v color (putc s c color) (putc' t c color) (omega arith)
              (step s t c color r))
      ]

  -- `printer_vprintf` returns on every format, and two printers that stay related when both print
  -- the same character are related after it.
  pub printer_vprintf-Alike :
      (color : ℕ) (format : List ℕ) (v : VaList) (s : S) (t : T)
      → R s t
      → Alike R (printer_vprintf putc color format v s) (printer_vprintf putc' color format v t)
  unfolding printer_vprintf
  printer_vprintf-Alike color format v s t r =
      print_loop-Alike (length format) format v color s t (omega arith) r
