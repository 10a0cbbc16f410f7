-- ===== src/Format.antt =====
-- The main loop of `sprintf:` in fscript-CLI/StringSprintf.m, with its parser of directives, over the
-- conversions of the module Sprintf.
pub mod Fields
pub mod Interface
use fscript_extensions.Prelude.{
  ℕ, zero, suc, Bool, true, false, not, Option, none, some, List, length, drop, leb, Bytes, codes,
  [], ◌∷◌, ◌++◌, ◌+◌, ◌-◌, ◌*◌, ◌&&◌, ◌||◌, ◌==◌, if◌then◌else◌,
}
use fscript_extensions.Sprintf.{
  Base, IntFormat, convert_int, decimal, hexadecimal, insert_string, octal, print_digits, within,
}
use fscript_extensions.File.{is_empty}
use fscript_extensions.Selector.{until_null}

-- What a directive says in front of its conversion.
pub record Directive : Type 0 where
  pub minus : Bool
  pub plus : Bool
  pub space : Bool
  pub hash : Bool
  pub zeroes : Bool
  pub width : Option ℕ
  pub precision : Option ℕ

-- A value, by what it answers to the messages that it may get, and what the C library's `sprintf`
-- makes of its `doubleValue`.
pub record Value : Type 0 where
  pub text : Bytes
  pub description : Bytes
  pub unichar_string : Bytes
  pub is_negative : Bool
  pub magnitude : ℕ
  pub width_value : ℕ
  pub pointer : ℕ
  pub required_chars : Base → ℕ
  pub float_text : Directive → ℕ → Bytes

-- What `sprintf:` answers, its exceptions, and where it reads or writes outside of its memory: behind
-- the format's final null, past `intBuffer` or `floatBuffer`, or in a `mainBuffer` that nothing was
-- written into.
pub data Formatted : Type 0 where
  formatted : Bytes → Formatted
  not_enough_values too_many_values no_width_value reads_past_end : Formatted
  overruns_buffer uninitialised_text : Formatted

-- `if (*format == c) { ++format; ... }`
abbrev pub flag : ℕ → Bytes → Bool × Bytes
flag c [] = (false, [])
flag c (d ∷ s) = if d == c then (true, s) else (false, d ∷ s)

abbrev pub zero_flags : Bytes → Bool × Bytes
zero_flags [] = (false, [])
zero_flags (c ∷ s) = let rest = zero_flags s in if c == b'0' then (true, rest.1) else (false, c ∷ s)

-- The digits of a number, onto `n`; nothing was overridden before if `n` is nothing.
abbrev pub number_or : Option ℕ → ℕ
number_or none = 0
number_or (some n) = n

abbrev pub read_number : Option ℕ → Bytes → Option ℕ × Bytes
read_number n [] = (n, [])
read_number n (c ∷ s) =
    let rest = read_number (some (number_or n * 10 + (c - b'0'))) s in
    if leb b'0' c && leb c b'9' then rest else (n, c ∷ s)

abbrev pub read_precision : Bytes → Option ℕ × Bytes
read_precision s = let dot = flag b'.' s in if dot.0 then read_number (some 0) dot.1 else (none, s)

-- What the directive says from the width on, with the flags in front and the width of a `*`.
abbrev pub from_width : Bool → Bool → Bool → Bool → Option ℕ → Bytes → Directive × Bytes
from_width minus plus space hash star s =
    let zeroes = zero_flags s in
    let width = read_number star zeroes.1 in
    let precision = read_precision width.1 in
    (
      record {
        minus = minus;
        plus = plus;
        space = space;
        hash = hash;
        zeroes = zeroes.0;
        width = width.0;
        precision = precision.0;
      },
      precision.1,
    )

-- A directive up to its conversion, the rest of the format, and the values that are left; nothing if a
-- `*` finds no value. The width of a `*` is not negative.
abbrev pub directive : Bytes → List Value → Option (Directive × Bytes × List Value)
directive s values =
    let minus = flag b'-' s in
    let plus = flag b'+' minus.1 in
    let space = flag b' ' plus.1 in
    let hash = flag b'#' space.1 in
    let star = flag b'*' hash.1 in
    if star.0
    then elim values [
      | [] ↦ none
      | v ∷ rest ↦
          let d = from_width minus.0 plus.0 space.0 hash.0 (some v.width_value) star.1 in
          some (d.0, d.1, rest)
    ]
    else let d = from_width minus.0 plus.0 space.0 hash.0 none hash.1 in some (d.0, d.1, values)

-- An integer conversion; the sign flags hold for the base 10 alone.
abbrev pub int_format : Directive → Base → Bool → Bytes → IntFormat
int_format d base upper number_prefix =
    let signed : Bool = elim base [ decimal ↦ true | _ ↦ false ] in
    record {
      base = base;
      upper = upper;
      print_prefix = d.hash;
      number_prefix = number_prefix;
      plus_sign = signed && d.plus;
      plus_space = signed && d.space;
      pad_left = not d.minus;
      pad_right = d.minus;
      pad_with_zeroes = d.zeroes;
      precision = d.precision;
      width = d.width;
    }

abbrev pub int_of : Directive → Value → Base → Bool → Bytes → Option Bytes
int_of d v base upper number_prefix =
    convert_int (int_format d base upper number_prefix) (v.required_chars base) v.is_negative
      v.magnitude

abbrev pub pointer_of : Directive → Value → Bool → Bytes → Option Bytes
pointer_of d v upper number_prefix =
    convert_int (int_format d hexadecimal upper number_prefix) (v.required_chars hexadecimal) false
      v.pointer

abbrev pub string_of : Directive → Bytes → Bytes
string_of d s =
    insert_string (not d.minus) d.minus (if d.zeroes then b'0' else b' ') d.width d.precision s

-- What a conversion adds to `mainBuffer`; the invalid one adds nothing.
pub data Converted : Type 0 where
  adds : Bytes → Converted
  adds_nothing overruns : Converted

abbrev pub in_buffer : Option Bytes → Converted
in_buffer none = overruns
in_buffer (some s) = adds s

-- The 50 bytes of `floatBuffer` and `expBuffer` hold a null, too.
abbrev pub float_buffer_length : ℕ
float_buffer_length = 49

-- What the directive takes of the 20 bytes of `formatBuffer`, where it is written anew for the C library:
-- `%`, the flags, the width, a point, the precision, the conversion and a null.
abbrev pub flag_count : Bool → ℕ
flag_count set = if set then 1 else 0

abbrev pub printed_length : ℕ → ℕ
printed_length n = if n == 0 then 1 else length (print_digits n decimal false n [])

unfoldable pub format_buffer_used : Directive → ℕ
unfolding print_digits
format_buffer_used d =
    let flags =
      flag_count d.minus
      + flag_count d.plus
      + flag_count d.space
      + flag_count d.hash
      + flag_count d.zeroes in
    let width : ℕ = elim d.width [ none ↦ 0 | some w ↦ printed_length w ] in
    let precision : ℕ = elim d.precision [ none ↦ 1 | some p ↦ printed_length p ] in
    flags + width + precision + 4

-- A floating-point conversion.
abbrev pub float_of : ℕ → Directive → Value → Converted
float_of c d v =
    if leb (format_buffer_used d) 20
    then in_buffer (within float_buffer_length (v.float_text d c))
    else overruns

-- The `switch` and the conversions.
unfoldable pub convert : ℕ → Directive → Value → Converted
unfolding insert_string convert_int until_null format_buffer_used
convert c d v =
    if c == b's'
    then adds (string_of d v.text)
    else if c == b'@'
    then adds (string_of d v.description)
    else if c == b'c'
    then adds (until_null v.unichar_string)
    else if c == b'd' || c == b'i'
    then in_buffer (int_of d v decimal false [])
    else if c == b'o'
    then in_buffer (int_of d v octal false (codes "0"))
    else if c == b'x'
    then in_buffer (int_of d v hexadecimal false (codes "0x"))
    else if c == b'X'
    then in_buffer (int_of d v hexadecimal true (codes "0X"))
    else if c == b'p'
    then in_buffer (pointer_of d v false (codes "0x"))
    else if c == b'P'
    then in_buffer (pointer_of d v true (codes "0X"))
    else if c == b'e' || c == b'E' || c == b'f'
    then float_of c d v
    else adds_nothing

-- `mainBuffer`, which holds no text until something is written into it.
abbrev pub added : Option Bytes → Bytes → Option Bytes
added none s = some s
added (some out) s = some (out ++ s)

-- The end of `sprintf:`
abbrev pub finish : List Value → Option Bytes → Formatted
finish [] none = uninitialised_text
finish [] (some out) = formatted out
finish (v ∷ values) out = too_many_values

-- The loop over the format. Each round takes a character or more, so that the format's length is
-- enough fuel. A directive whose conversion is missing makes the loop run on behind the final null.
unfoldable pub format_loop : ℕ → Bytes → List Value → Option Bytes → Formatted
unfolding convert
format_loop zero format values out = finish values out
format_loop (suc fuel) [] values out = finish values out
format_loop (suc fuel) (c ∷ format) values out =
    let plain = format_loop fuel format values (added out (c ∷ [])) in
    let percent = format_loop fuel (drop 1 format) values (added out (b'%' ∷ [])) in
    if not (c == b'%')
    then plain
    else if is_empty format
    then finish values out
    else if (flag b'%' format).0
    then percent
    else elim (directive format values) [
      | none ↦ no_width_value
      | some (d, rest, left) ↦ elim left [
        | [] ↦ not_enough_values
        | v ∷ later ↦ elim rest [
          | [] ↦ reads_past_end
          | conversion ∷ behind_it ↦ elim (convert conversion d v) [
            | adds s ↦ format_loop fuel behind_it later (added out s)
            | adds_nothing ↦ format_loop fuel behind_it later out
            | overruns ↦ overruns_buffer
          ]
        ]
      ]
    ]

-- `sprintf:`, whose format is a C string.
unfoldable pub sprintf : Bytes → List Value → Formatted
unfolding format_loop until_null
sprintf format values = let text = until_null format in format_loop (length text) text values none
