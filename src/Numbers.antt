-- ===== src/Numbers.antt =====
-- The operators that fscript-CLI/FSNSNumberMod.m adds to numbers and fscript-CLI/StringNumberConversion.m
-- to strings. The numbers of Foundation and the arithmetic of `double` are a parameter.
pub mod Remainder
use fscript_extensions.Prelude.{
  ℕ, zero, suc, Bool, false, Option, none, some, ◌%◌, ◌&&◌, ◌||◌, ◌==◌, if◌then◌else◌,
}

pub data ℤ : Type 0 where
  pos : ℕ → ℤ
  negsuc : ℕ → ℤ

abbrev pub abs : ℤ → ℕ
abs (pos n) = n
abs (negsuc n) = suc n

-- The number of an absolute value with the sign of another.
abbrev pub with_sign : ℤ → ℕ → ℤ
with_sign (pos _) n = pos n
with_sign (negsuc _) zero = pos 0
with_sign (negsuc _) (suc n) = negsuc n

abbrev pub int_min : ℤ
int_min = negsuc 2147483647

abbrev pub is_int_min : ℤ → Bool
is_int_min (pos n) = false
is_int_min (negsuc n) = n == 2147483647

abbrev pub is_minus_one : ℤ → Bool
is_minus_one (pos n) = false
is_minus_one (negsuc n) = n == 0

-- `a % b` of two `int`: the remainder of the division that cuts off. Nothing stands for what C leaves
-- undefined: a divisor of zero, and a quotient that is no `int`.
unfoldable pub int_rem : ℤ → ℤ → Option ℤ
int_rem a b =
    if abs b == 0 || (is_int_min a && is_minus_one b)
    then none
    else some (with_sign a (abs a % abs b))

-- What Foundation and C give: numbers, texts, and `double`.
pub record Foundation : Type 1 where
  pub Number : Type 0
  pub Text : Type 0
  pub Double : Type 0
  pub int_value : Number → ℤ
  pub number_with_int : ℤ → Number
  pub number_with_double : Double → Number
  pub text_double_value : Text → Double
  pub text_int_value : Text → ℤ
  pub double_of_int : ℤ → Double
  pub add : Double → Double → Double
  pub sub : Double → Double → Double
  pub mul : Double → Double → Double
  pub div : Double → Double → Double

-- An operand that answers to `doubleValue` and to `intValue`.
pub record Operand (F : Foundation) : Type 0 where
  pub double_value : F.Double
  pub int_value : ℤ

module _ (F : Foundation) where
  abbrev pub number_if : (ℤ → F.Number) → Option ℤ → Option F.Number
  number_if number none = none
  number_if number (some z) = some (number z)

  unfoldable pub operator_percent : F.Number → F.Number → Option F.Number
  unfolding int_rem
  operator_percent self operand =
      number_if F.number_with_int (int_rem (F.int_value self) (F.int_value operand))

  unfoldable pub operator_plus : F.Text → Operand F → F.Number
  operator_plus self operand =
      F.number_with_double (F.add (F.text_double_value self) operand.double_value)

  unfoldable pub operator_hyphen : F.Text → Operand F → F.Number
  operator_hyphen self operand =
      F.number_with_double (F.sub (F.text_double_value self) operand.double_value)

  unfoldable pub operator_asterisk : F.Text → Operand F → F.Number
  operator_asterisk self operand =
      F.number_with_double (F.mul (F.text_double_value self) operand.double_value)

  unfoldable pub operator_slash : F.Text → Operand F → F.Number
  operator_slash self operand =
      F.number_with_double (F.div (F.text_double_value self) operand.double_value)

  unfoldable pub operator_mod : F.Text → Operand F → Option F.Number
  unfolding int_rem
  operator_mod self operand =
      number_if (λ z. F.number_with_double (F.double_of_int z))
        (int_rem (F.text_int_value self) operand.int_value)

-- What fscript-CLI/FSNSNumberMod.h adds to the class of numbers.
pub record NumberMod (Number : Type 0) : Type 0 where
  pub operator_percent : Number → Number → Option Number

-- What fscript-CLI/StringNumberConversion.h adds to the class of strings.
pub record StringNumberConversion (Text Any Number : Type 0) : Type 0 where
  pub operator_plus : Text → Any → Number
  pub operator_hyphen : Text → Any → Number
  pub operator_asterisk : Text → Any → Number
  pub operator_slash : Text → Any → Number
  pub operator_mod : Text → Any → Option Number
