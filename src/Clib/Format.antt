-- ===== src/Clib/Format.antt =====
-- The format parser of printer_vprintf in shared/lib.c. A format is the list of its characters
-- before the NUL, and the pointer into it is the list of those that are left; an argument is its
-- 64-bit slot beside the string that the slot points to, for `%s`.
use memory_management.Base.{
  ℕ, ◌+◌, ◌-◌, ◌*◌, ◌%◌, ◌^◌, Bool, true, false, ◌&&◌, ◌||◌, Option, none, some, List, [], ◌∷◌,
  ◌==◌, ltb, leb, if◌then◌else◌,
}

-- `flags`, the bits that the format sets
pub record Flags : Type 0 where
  pub alt : Bool
  pub zeros : Bool
  pub left_justify : Bool
  pub space_positive : Bool
  pub plus_positive : Bool

abbrev pub no_flags : Flags
no_flags = record {
  alt = false;
  zeros = false;
  left_justify = false;
  space_positive = false;
  plus_positive = false;
}

-- `flags | 1 << (flagc - flag_chars)`, for a character of `flag_chars`
unfoldable pub set_flag : ℕ → Flags → Option Flags
set_flag c f =
    if c == b'#'
    then some (record f { alt = true })
    else if c == b'0'
    then some (record f { zeros = true })
    else if c == b'-'
    then some (record f { left_justify = true })
    else if c == b' '
    then some (record f { space_positive = true })
    else if c == b'+'
    then some (record f { plus_positive = true })
    else none

unfoldable pub parse_flags : List ℕ → Flags → Flags × List ℕ
unfolding set_flag
parse_flags [] f = (f, [])
parse_flags (c ∷ cs) f = elim (set_flag c f) [ none ↦ (f, c ∷ cs) | some f' ↦ parse_flags cs f' ]

abbrev is_digit : ℕ → Bool
is_digit c = leb b'0' c && leb c b'9'

-- `for (n = 0; *format >= '0' && *format <= '9'; ) { n = 10 * n + *format++ - '0'; }`
unfoldable pub parse_number : List ℕ → (n : ℕ) → ℕ × List ℕ
parse_number [] n = (n, [])
parse_number (c ∷ cs) n =
    let rest = parse_number cs (10 * n + (c - b'0')) in if is_digit c then rest else (n, c ∷ cs)

-- An argument of the call.
pub record Arg : Type 0 where
  pub word : ℕ
  pub text : List ℕ

-- `va_list`: every slot, and the number of the next one.
pub record VaList : Type 0 where
  pub slot : ℕ → Arg
  pub next : ℕ

abbrev pub va_arg : VaList → Arg
va_arg v = v.slot v.next

abbrev pub after_arg : VaList → VaList
after_arg v = record v { next = v.next + 1 }

-- The value of an `int` slot where only a positive one matters: 0 for a negative one.
abbrev positive_int : ℕ → ℕ
positive_int w = if ltb (w % 2 ^ 32) (2 ^ 31) then w % 2 ^ 32 else 0

-- `width`. No test tells -1, or any other negative width, from 0.
unfoldable pub parse_width : List ℕ → VaList → ℕ × List ℕ × VaList
unfolding parse_number
parse_width [] v = (0, [], v)
parse_width (c ∷ cs) v =
    let number = parse_number (c ∷ cs) 0 in
    if leb b'1' c && leb c b'9'
    then (number.0, number.1, v)
    else if c == b'*'
    then (positive_int (va_arg v).word, cs, after_arg v)
    else (0, c ∷ cs, v)

-- The number behind the point of a precision; a negative one becomes 0, and so does none.
unfoldable pub parse_point : List ℕ → VaList → ℕ × List ℕ × VaList
unfolding parse_number
parse_point [] v = (0, [], v)
parse_point (c ∷ cs) v =
    let number = parse_number (c ∷ cs) 0 in
    if is_digit c
    then (number.0, number.1, v)
    else if c == b'*'
    then (positive_int (va_arg v).word, cs, after_arg v)
    else (0, c ∷ cs, v)

-- `precision`, `none` for -1
unfoldable pub parse_precision : List ℕ → VaList → Option ℕ × List ℕ × VaList
unfolding parse_point
parse_precision [] v = (none, [], v)
parse_precision (c ∷ cs) v =
    let point = parse_point cs v in
    if c == b'.' then (some point.0, point.1, point.2) else (none, c ∷ cs, v)

-- The cases 'l' and 'z' of the switch: `length`, and the conversion character that follows.
unfoldable pub parse_length : List ℕ → (long : Bool) → Bool × List ℕ
parse_length [] long = (long, [])
parse_length (c ∷ cs) long =
    let rest = parse_length cs true in if (c == b'l') || (c == b'z') then rest else (long, c ∷ cs)

-- What the switch leaves in `num`, `base`, `data` and the other bits of `flags`. The base is the
-- bit pattern of an `int`.
pub record Conversion : Type 0 where
  pub numeric : Bool
  pub signed : Bool
  pub negative : Bool
  pub alt_pointer : Bool
  pub num : ℕ
  pub base : ℕ
  pub text : List ℕ

abbrev unsigned_conversion : (num base : ℕ) → Conversion
unsigned_conversion num base = record {
  numeric = true;
  signed = false;
  negative = false;
  alt_pointer = false;
  num = num;
  base = base;
  text = [];
}

-- 'd' and 'i' of the slot's low `width` bits.
unfoldable pub signed_conversion : (long : Bool) → (w : ℕ) → Conversion
signed_conversion long w =
    let modulus : ℕ = if long then 2 ^ 64 else 2 ^ 32 in
    let half : ℕ = if long then 2 ^ 63 else 2 ^ 31 in
    let x = w % modulus in
    record (unsigned_conversion (if leb half x then modulus - x else x) 10) {
      signed = true;
      negative = leb half x;
    }

abbrev text_conversion : List ℕ → Conversion
text_conversion text = record (unsigned_conversion 0 10) { numeric = false; text = text }

-- A character that `numbuf` holds as a string: none for a NUL.
abbrev char_text : ℕ → List ℕ
char_text c = if c % 256 == 0 then [] else c % 256 ∷ []

abbrev pub minus_sixteen : ℕ
minus_sixteen = 2 ^ 32 - 16

-- The switch on the conversion character, 0 at the end of the format, and whether it takes an
-- argument. 'C' stands apart.
unfoldable pub convert : (c : ℕ) → (long : Bool) → Arg → Conversion × Bool
unfolding signed_conversion
convert c long a =
    let unsigned : ℕ = if long then a.word % 2 ^ 64 else a.word % 2 ^ 32 in
    if (c == b'd') || (c == b'i')
    then (signed_conversion long a.word, true)
    else if c == b'u'
    then (unsigned_conversion unsigned 10, true)
    else if c == b'x'
    then (unsigned_conversion unsigned minus_sixteen, true)
    else if c == b'X'
    then (unsigned_conversion unsigned 16, true)
    else if c == b'p'
    then (record (unsigned_conversion (a.word % 2 ^ 64) minus_sixteen) { alt_pointer = true }, true)
    else if c == b's'
    then (text_conversion a.text, true)
    else if c == b'c'
    then (text_conversion (char_text a.word), true)
    else (text_conversion (char_text (if c == 0 then b'%' else c)), false)
