-- ===== src/Clib/Printer.antt =====
-- printer_vprintf of shared/lib.c, over any printer: a state and its `putc`.
use memory_management.Base.{
  ℕ, zero, suc, ◌+◌, ◌-◌, ◌%◌, ◌^◌, Bool, false, not, ◌&&◌, ◌||◌, Option, none, some, List, [], ◌∷◌,
  length, ◌==◌, ltb, if◌then◌else◌,
}
use memory_management.Base.Run.{Run, ok, out_of_fuel}
use memory_management.Clib.Memory.{Memory}
use memory_management.Clib.Numbers.{fill_numbuf}
use memory_management.Clib.Strings.{length_up_to}
use memory_management.Clib.Format.{
  Flags, no_flags, parse_flags, VaList, va_arg, after_arg, parse_width, parse_precision,
  parse_length, Conversion, convert, minus_sixteen,
}

-- The string at `p`, of at most `n` characters.
unfoldable pub string_at : (n p : ℕ) → Memory → List ℕ
string_at zero p m = []
string_at (suc n) p m = let rest = string_at n (p + 1) m in if m p == 0 then [] else m p ∷ rest

-- `data` once `fill_numbuf` has filled the 24 bytes of `numbuf`
unfoldable number_text : Run (ℕ × Memory) → List ℕ
unfolding string_at
number_text (ok r) = string_at 24 r.0 r.1
number_text _ = []

unfoldable data_of : Conversion → List ℕ
unfolding number_text fill_numbuf
data_of c = if c.numeric then number_text (fill_numbuf 24 c.num c.base (λ q. 0)) else c.text

unfoldable prefix_of : Flags → Conversion → List ℕ
prefix_of f c =
    if c.numeric && c.signed
    then if c.negative
      then b'-' ∷ []
      else if f.plus_positive
      then b'+' ∷ []
      else if f.space_positive
      then b' ' ∷ []
      else []
    else if c.numeric
        && (f.alt || c.alt_pointer)
        && ((c.base == 16) || (c.base == minus_sixteen))
        && (not (c.num == 0) || c.alt_pointer)
    then b'0' ∷ (if c.base == minus_sixteen then b'x' else b'X') ∷ []
    else []

-- `len`
unfoldable pub data_length : Conversion → (precision : Option ℕ) → List ℕ → ℕ
data_length c none text = length text
data_length c (some precision) text = if c.numeric then length text else length_up_to precision text

-- `zeros`, after the prefix of `n` characters
unfoldable zeros_of : Flags → Conversion → Option ℕ → (width len n : ℕ) → ℕ
zeros_of f c (some precision) width len n = if c.numeric then precision - len else 0
zeros_of f c none width len n =
    if c.numeric && f.zeros && not f.left_justify && ltb (len + n) width then width - len - n else 0

-- The conversion that a `%` starts.
pub record Field : Type 0 where
  pub flags : Flags
  pub width : ℕ
  pub precision : Option ℕ
  pub conversion : Conversion
  pub color : ℕ

-- What the code for one `%` reads: the format and the arguments that are left, the color behind
-- it, and the conversion, if it prints anything.
pub record Directive : Type 0 where
  pub rest : List ℕ
  pub args : VaList
  pub color : ℕ
  pub field : Option Field

-- The switch, at the conversion character.
unfoldable pub parse_conversion :
    List ℕ → (long : Bool) → VaList → (color : ℕ) → Flags → ℕ → Option ℕ → Directive
unfolding convert
parse_conversion [] long v color f width precision = record {
  rest = [];
  args = v;
  color = color;
  field = some (record {
    flags = f;
    width = width;
    precision = precision;
    conversion = (convert 0 long (va_arg v)).0;
    color = color;
  });
}
parse_conversion (x ∷ rest) long v color f width precision =
    let (c, takes) = convert x long (va_arg v) in
    if x == b'C'
    then record { rest = rest; args = after_arg v; color = (va_arg v).word % 2 ^ 32; field = none }
    else record {
      rest = rest;
      args = if takes then after_arg v else v;
      color = color;
      field = some (record {
        flags = f;
        width = width;
        precision = precision;
        conversion = c;
        color = color;
      });
    }

-- The code behind a `%`, up to the end of the switch.
unfoldable pub parse_directive : List ℕ → VaList → (color : ℕ) → Directive
unfolding parse_flags parse_width parse_precision parse_length parse_conversion
parse_directive format v color =
    let (f, format1) = parse_flags format no_flags in
    let (width, format2, v2) = parse_width format1 v in
    let (precision, format3, v3) = parse_precision format2 v2 in
    let (long, format4) = parse_length format3 false in
    parse_conversion format4 long v3 color f width precision

-- What the loops print: blanks, the prefix, zeros, the first `len` characters of the data, blanks.
pub record Parts : Type 0 where
  pub before : ℕ
  pub prefix : List ℕ
  pub zeros : ℕ
  pub len : ℕ
  pub text : List ℕ
  pub after : ℕ

-- The code between the switch and the loops.
unfoldable pub parts_of : Field → Parts
unfolding data_of prefix_of data_length zeros_of
parts_of d =
    let text = data_of d.conversion in
    let prefix = prefix_of d.flags d.conversion in
    let len = data_length d.conversion d.precision text in
    let zeros = zeros_of d.flags d.conversion d.precision d.width len (length prefix) in
    let left = d.width - (len + zeros + length prefix) in
    let before : ℕ = if d.flags.left_justify then 0 else left in
    record {
      before = before;
      prefix = prefix;
      zeros = zeros;
      len = len;
      text = text;
      after = left - before;
    }

module _ {S : Type 0} (putc : S → (c color : ℕ) → S) where
  -- A loop that prints one character `n` times.
  unfoldable pub put_many : (n c color : ℕ) → S → S
  put_many zero c color s = s
  put_many (suc n) c color s = put_many n c color (putc s c color)

  -- A loop that prints the first `n` characters of a string.
  unfoldable pub put_text : (n : ℕ) → List ℕ → (color : ℕ) → S → S
  put_text zero text color s = s
  put_text (suc n) [] color s = s
  put_text (suc n) (c ∷ cs) color s = put_text n cs color (putc s c color)

  -- The five loops that print a conversion.
  unfoldable pub put_parts : Parts → (color : ℕ) → S → S
  unfolding put_many put_text
  put_parts p color s =
      let s1 = put_text (length p.prefix) p.prefix color (put_many p.before b' ' color s) in
      put_many p.after b' ' color (put_text p.len p.text color (put_many p.zeros b'0' color s1))

  unfoldable pub put_directive : Option Field → S → S
  unfolding put_parts parts_of
  put_directive none s = s
  put_directive (some d) s = put_parts (parts_of d) d.color s

  -- `printer_vprintf`; a round takes at least one character of the format.
  unfoldable pub print_loop : ℕ → List ℕ → VaList → (color : ℕ) → S → Run S
  unfolding put_directive parse_directive
  print_loop zero [] v color s = ok s
  print_loop zero (c ∷ cs) v color s = out_of_fuel
  print_loop (suc fuel) [] v color s = ok s
  print_loop (suc fuel) (c ∷ cs) v color s =
      let d = parse_directive cs v color in
      let plain = print_loop fuel cs v color (putc s c color) in
      let directive = print_loop fuel d.rest d.args d.color (put_directive d.field s) in
      if c == b'%' then directive else plain

  unfoldable pub printer_vprintf : (color : ℕ) → (format : List ℕ) → VaList → S → Run S
  unfolding print_loop
  printer_vprintf color format v s = print_loop (length format) format v color s
