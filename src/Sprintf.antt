-- ===== src/Sprintf.antt =====
-- The conversions of `sprintf:` in fscript-CLI/StringSprintf.m: its growing buffer, the insertion of
-- strings, and the conversion of integers. A text is ASCII, so that its length in characters and in
-- bytes agree.
pub mod Buffers
pub mod Integers
use fscript_extensions.Prelude.{
  ℕ, zero, suc, Bool, true, not, leb, Option, none, some, length, take, replicate, ltb, Bytes, [],
  ◌∷◌, ◌++◌, ◌+◌, ◌-◌, ◌*◌, ◌/◌, ◌%◌, ◌&&◌, ◌==◌, if◌then◌else◌,
}
use fscript_extensions.Selector.{until_null}

-- A buffer by its length variable, its position, and the size of its allocation. `int` does not
-- overflow at the sizes that memory allows.
pub record Buffer : Type 0 where
  pub buffer_length : ℕ
  pub pos : ℕ
  pub allocated : ℕ

-- `mainBuffer` at the beginning; `INITIAL_STRING_CAPACITY` is 80.
abbrev pub initial_buffer : Buffer
initial_buffer = record { buffer_length = 80; pos = 0; allocated = 81 }

-- Each macro gives the buffer after it, and the first index behind the bytes that it writes.
unfoldable pub add_char : Buffer → Buffer × ℕ
add_char b =
    if b.pos == b.buffer_length - 1
    then (
      record {
        buffer_length = b.buffer_length * 2;
        pos = suc b.pos;
        allocated = b.buffer_length * 2 + 1;
      },
      b.pos + 2,
    )
    else (record b { pos = suc b.pos }, b.pos + 2)

-- `ADD_STRING` of `n` characters; `memcpy` copies the null too.
unfoldable pub add_string : ℕ → Buffer → Buffer × ℕ
add_string n b =
    if ltb (b.buffer_length - 1) (b.pos + n)
    then (
      record {
        buffer_length = (b.buffer_length + n) * 2;
        pos = b.pos + n;
        allocated = (b.buffer_length + n) * 2 + 1;
      },
      b.pos + n + 1,
    )
    else (record b { pos = b.pos + n }, b.pos + n + 1)

-- `PAD_BUFFER` with a count that is not negative.
unfoldable pub pad_buffer : ℕ → Buffer → Buffer × ℕ
pad_buffer count b =
    if ltb (b.buffer_length - 1) (b.buffer_length + count)
    then (
      record {
        buffer_length = (b.buffer_length + count) * 2;
        pos = b.pos + count;
        allocated = (b.buffer_length + count) * 2 + 1;
      },
      b.pos + count + 1,
    )
    else (record b { pos = b.pos + count }, b.pos + count + 1)

-- Padding, which a count below zero leaves out.
abbrev pub padding : ℕ → ℕ → ℕ → Bytes
padding pad_char total used = replicate (total - used) pad_char

-- The insertion of a string, with what the width and the precision override, if anything.
-- `strlen` counts what is copied of it, and so cuts it at a null.
unfoldable pub insert_string : Bool → Bool → ℕ → Option ℕ → Option ℕ → Bytes → Bytes
unfolding until_null
insert_string pad_left pad_right pad_char width precision s =
    let total_width : ℕ = elim width [
      | some w ↦ w
      | none ↦ elim precision [ some p ↦ p | none ↦ length s ]
    ] in
    let wanted : ℕ = elim precision [
      | some p ↦ p
      | none ↦ elim width [ some w ↦ w | none ↦ length s ]
    ] in
    let max_chars = if ltb (length s) wanted then length s else wanted in
    (if pad_left then padding pad_char total_width max_chars else [])
    ++ (until_null (take max_chars s)
        ++ (if pad_right then padding pad_char total_width max_chars else []))

pub data Base : Type 0 where
  octal decimal hexadecimal : Base

abbrev pub base_of : Base → ℕ
base_of octal = 8
base_of decimal = 10
base_of hexadecimal = 16

-- `lowercaseDigits` and `uppercaseDigits`
abbrev pub digit : Bool → ℕ → ℕ
digit upper d = if ltb d 10 then b'0' + d else if upper then b'A' + (d - 10) else b'a' + (d - 10)

-- The `while` loop over `unsignedValue`, in front of what is in `intBuffer`.
unfoldable pub print_digits : ℕ → Base → Bool → ℕ → Bytes → Bytes
print_digits zero base upper n s = s
print_digits (suc fuel) base upper n s =
    let rest =
      print_digits fuel base upper (n / base_of base) (digit upper (n % base_of base) ∷ s) in
    if n == 0 then s else rest

-- `INT_BUFFER_LENGTH`
abbrev pub int_buffer_length : ℕ
int_buffer_length = 25

-- A text that is written into a buffer of the size; nothing where it would be written past it, which
-- nothing in the code prevents.
abbrev pub within : ℕ → Bytes → Option Bytes
within size s = if leb (length s) size then some s else none

-- The numbers of `intBuffer`, filled with zeroes to `min_numbers`; nothing if they overrun it.
unfoldable pub numbers : Base → Bool → ℕ → ℕ → Option Bytes
unfolding print_digits
numbers base upper n min_numbers =
    let printed = if n == 0 then b'0' ∷ [] else print_digits n base upper n [] in
    within int_buffer_length (padding b'0' min_numbers (length printed) ++ printed)

-- The flags of an integer conversion.
pub record IntFormat : Type 0 where
  pub base : Base
  pub upper : Bool
  pub print_prefix : Bool
  pub number_prefix : Bytes
  pub plus_sign : Bool
  pub plus_space : Bool
  pub pad_left : Bool
  pub pad_right : Bool
  pub pad_with_zeroes : Bool
  pub precision : Option ℕ
  pub width : Option ℕ

abbrev pub max_of : ℕ → ℕ → ℕ
max_of a b = if ltb b a then a else b

abbrev pub sign_of : IntFormat → Bool → Bytes
sign_of f negative =
    if negative
    then b'-' ∷ []
    else if f.plus_sign
    then b'+' ∷ []
    else if f.plus_space
    then b' ' ∷ []
    else []

-- The prefix, which zero has not.
abbrev pub prefix_of : IntFormat → ℕ → Bytes
prefix_of f n = if f.print_prefix && not (n == 0) then f.number_prefix else []

-- `precision` and `requiredIntChars` give the least count of numbers.
abbrev pub min_numbers_of : IntFormat → ℕ → ℕ
min_numbers_of f required_chars = max_of (elim f.precision [ some p ↦ p | none ↦ 1 ]) required_chars

-- `requiredWidth`
abbrev pub required_width : IntFormat → ℕ → Bool → ℕ → ℕ
required_width f required_chars negative n =
    length (prefix_of f n) + length (sign_of f negative) + min_numbers_of f required_chars

-- What stands in `intBuffer`. Expanding the precision for zeroes assigns `minNumbers` what it holds.
-- Nothing if it overruns that.
unfoldable pub int_text : IntFormat → ℕ → Bool → ℕ → Option Bytes
unfolding numbers
int_text f required_chars negative n =
    elim (numbers f.base f.upper n (min_numbers_of f required_chars)) [
      | none ↦ none
      | some digits ↦ within int_buffer_length (sign_of f negative ++ (prefix_of f n ++ digits))
    ]

-- The conversion of an integer by its sign and its absolute value. `required_chars` is what `ceil` and
-- `log10` give. An overriding width switches the left padding on.
-- Nothing if `intBuffer` is overrun.
unfoldable pub convert_int : IntFormat → ℕ → Bool → ℕ → Option Bytes
unfolding int_text
convert_int f required_chars negative n =
    let required = required_width f required_chars negative n in
    let width : ℕ = elim f.width [ some w ↦ max_of w required | none ↦ required ] in
    let left : Bool = elim f.width [ some _ ↦ true | none ↦ f.pad_left ] in
    elim (int_text f required_chars negative n) [
      | none ↦ none
      | some s ↦ some (
          (if left then padding b' ' width (length s) else [])
          ++ (s ++ (if f.pad_right then padding b' ' width (length s) else [])))
    ]
