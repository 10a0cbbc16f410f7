-- ===== src/Tests/Formats.antt =====
-- Formatting at concrete inputs.
use fscript_extensions.Prelude.{
  refl, true, false, none, some, arith, length, replicate, Bytes, codes, [], ◌∷◌, ◌≤◌, ◌<◌, ◌≡◌,
  ◌⊎◌,
}
use fscript_extensions.Sprintf.{
  IntFormat, convert_int, decimal, hexadecimal, initial_buffer, int_text, numbers, print_digits,
}
use fscript_extensions.Format.{Value, format_loop, reads_past_end, sprintf, uninitialised_text}
use fscript_extensions.Selector.{until_null}
use fscript_extensions.Sprintf.Buffers.{
  added_chars, after_all, one_char, padded, string, writes_fit, writes_stay_inside,
}
use fscript_extensions.Nestings.Balanced.{char, find_nestings-balanced, group, nothing, paren}
use fscript_extensions.Sprintf.Integers.{power, value-numbers, value_of}
use fscript_extensions.Nestings.{
  buffer, c_string_in, find_nestings, nesting_round, nesting_rounds, null_pointer, start,
}

writes_stay_inside_example :
    (writes_fit (one_char ∷ string 200 ∷ padded 7 ∷ []) initial_buffer ≡ true)
    × ((after_all (one_char ∷ string 200 ∷ padded 7 ∷ []) initial_buffer).pos
        ≡ added_chars (one_char ∷ string 200 ∷ padded 7 ∷ []))
writes_stay_inside_example = writes_stay_inside (one_char ∷ string 200 ∷ padded 7 ∷ [])

value-numbers_example :
    ((s : Bytes) × (numbers hexadecimal true 255 4 ≡ some s)
      × (value_of hexadecimal s 0 ≡ 255)
      × (4 ≤ length s)
      × (length s ≤ 25))
    ⊎ ((numbers hexadecimal true 255 4 ≡ none) × ((25 < 4) ⊎ (power hexadecimal 25 ≤ 255)))
value-numbers_example = value-numbers hexadecimal true 255 4

abbrev minus_five : IntFormat
minus_five = record {
  base = decimal;
  upper = false;
  print_prefix = false;
  number_prefix = [];
  plus_sign = false;
  plus_space = false;
  pad_left = false;
  pad_right = true;
  pad_with_zeroes = false;
  precision = none;
  width = some 5;
}

-- `%-5d` of 42.
padded_twice : convert_int minus_five 2 false 42 ≡ some (codes "   42   ")
unfolding convert_int int_text numbers print_digits
padded_twice = refl

-- A precision of 26.
too_precise : convert_int (record minus_five { precision = some 26 }) 2 false 42 ≡ none
unfolding convert_int int_text numbers print_digits
too_precise = refl

-- The memory of a program that has written nothing yet.
abbrev zeroes : Bytes
zeroes = replicate 80 0

find_nestings-balanced_example : find_nestings zeroes null_pointer (codes "(a)") ≡ null_pointer
find_nestings-balanced_example =
    find_nestings-balanced (group paren (char b'a' nothing) nothing) zeroes ((refl, tt), tt) refl
      (omega arith, tt, tt)

-- A complete comment that holds an open bracket leaves the mark of the comment open, and the bracket in
-- memory behind it.
bracket_in_comment :
    find_nestings zeroes null_pointer (codes "\"(\"") ≡ buffer (b'"' ∷ b'(' ∷ replicate 78 0)
unfolding find_nestings nesting_rounds nesting_round start
bracket_in_comment = refl

-- The bracket that the second line closes is the one that the first line has closed already.
popped_again :
    find_nestings zeroes (find_nestings zeroes null_pointer (codes "(()")) (codes ")")
    ≡ buffer (b'(' ∷ b'(' ∷ replicate 78 0)
unfolding find_nestings nesting_rounds nesting_round start c_string_in
popped_again = refl

abbrev word : Value
word = record {
  text = codes "x";
  description = [];
  unichar_string = [];
  is_negative = false;
  magnitude = 0;
  width_value = 0;
  pointer = 0;
  required_chars = λ b. 0;
  float_text = λ d c. [];
}

-- Nothing is written for the empty format.
nothing_written : sprintf [] [] ≡ uninitialised_text
unfolding sprintf format_loop until_null
nothing_written = refl

-- A width at the end of the format.
cut_directive : sprintf (codes "%5") (word ∷ []) ≡ reads_past_end
unfolding sprintf format_loop until_null
cut_directive = refl
