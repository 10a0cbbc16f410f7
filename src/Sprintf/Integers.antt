-- ===== src/Sprintf/Integers.antt =====
-- Integers as fscript-CLI/StringSprintf.m prints them.
use fscript_extensions.Prelude.{
  ◌⊎◌, ℕ, zero, suc, refl, ap, subst, Bool, true, false, none, some, arith, inl, inr, Bool-cases,
  length, replicate, leb, Bytes, length-append, length-replicate, [], ◌∷◌, ◌++◌, ◌+◌, ◌-◌, ◌*◌, ◌/◌,
  ◌%◌, ◌≤◌, ◌<◌, ◌≡◌, ◌∙◌, ◌≢◌, ◌==◌, if◌then◌else◌,
}
use fscript_extensions.Sprintf.{
  Base, base_of, decimal, digit, hexadecimal, numbers, octal, padding, print_digits,
}

-- The value of a text of digits, read from the left onto what is there.
abbrev pub digit_value : ℕ → ℕ
digit_value c = if leb c b'9' then c - b'0' else if leb c b'F' then c - b'A' + 10 else c - b'a' + 10

unfoldable pub value_of : Base → Bytes → ℕ → ℕ
value_of base [] v = v
value_of base (c ∷ s) v = value_of base s (v * base_of base + digit_value c)

digit_value-digit : (upper : Bool) (d : ℕ) → d < 16 → digit_value (digit upper d) ≡ d
digit_value-digit true d h = ground (arith, h)
digit_value-digit false d h = ground (arith, h)

one_step :
    (base : Base) (upper : Bool) (n : ℕ)
    → n / base_of base * base_of base + digit_value (digit upper (n % base_of base)) ≡ n
one_step octal upper n = rw (digit_value-digit upper (n % 8) (omega arith)) (omega arith)
one_step decimal upper n = rw (digit_value-digit upper (n % 10) (omega arith)) (omega arith)
one_step hexadecimal upper n = rw (digit_value-digit upper (n % 16) (omega arith)) (omega arith)

smaller : (base : Base) (n fuel : ℕ) → n ≢ 0 → n ≤ suc fuel → n / base_of base ≤ fuel
smaller octal n fuel h k = omega arith
smaller decimal n fuel h k = omega arith
smaller hexadecimal n fuel h k = omega arith

print_more :
    (fuel : ℕ) (base : Base) (upper : Bool) (n : ℕ) (s : Bytes)
    → print_digits (suc fuel) base upper (suc n) s
      ≡ print_digits fuel base upper (suc n / base_of base) (digit upper (suc n % base_of base) ∷ s)
unfolding print_digits
print_more fuel base upper n s = ground arith

pub value-print_digits :
    (fuel : ℕ) (base : Base) (upper : Bool) (n : ℕ) (s : Bytes)
    → n ≤ fuel
    → value_of base (print_digits fuel base upper n s) 0 ≡ value_of base s n
unfolding print_digits value_of
value-print_digits zero base upper n s h = ground (arith, h)
value-print_digits (suc fuel) base upper zero s h = refl
value-print_digits (suc fuel) base upper (suc n) s h =
    let m = suc n in
    ap (λ t. value_of base t 0) (print_more fuel base upper n s)
    ∙ value-print_digits fuel base upper (m / base_of base) (digit upper (m % base_of base) ∷ s)
        (smaller base m fuel (omega arith) h)
    ∙ ap (λ v. value_of base s v) (one_step base upper m)

value-zeroes :
    (k : ℕ) (base : Base) (s : Bytes) → value_of base (replicate k b'0' ++ s) 0 ≡ value_of base s 0
unfolding value_of
value-zeroes zero base s = refl
value-zeroes (suc k) octal s = value-zeroes k octal s
value-zeroes (suc k) decimal s = value-zeroes k decimal s
value-zeroes (suc k) hexadecimal s = value-zeroes k hexadecimal s

printed_nonzero :
    (base : Base) (upper : Bool) (n : ℕ)
    → (if suc n == 0 then b'0' ∷ [] else print_digits (suc n) base upper (suc n) [])
      ≡ print_digits (suc n) base upper (suc n) []
printed_nonzero base upper n = ground arith

value-printed :
    (base : Base) (upper : Bool) (n : ℕ)
    → value_of base (if n == 0 then b'0' ∷ [] else print_digits n base upper n []) 0 ≡ n
unfolding value_of
value-printed octal upper zero = refl
value-printed decimal upper zero = refl
value-printed hexadecimal upper zero = refl
value-printed base upper (suc n) =
    ap (λ t. value_of base t 0) (printed_nonzero base upper n)
    ∙ value-print_digits (suc n) base upper (suc n) [] (omega arith)

abbrev pub digits_of : Base → Bool → ℕ → Bytes
digits_of base upper n = if n == 0 then b'0' ∷ [] else print_digits n base upper n []

-- The powers of the base.
abbrev pub power : Base → ℕ → ℕ
power base zero = 1
power base (suc k) = base_of base * power base k

shift : (base : Base) (n k : ℕ) → n < power base (suc k) → n / base_of base < power base k
shift octal n k h = omega arith
shift decimal n k h = omega arith
shift hexadecimal n k h = omega arith

-- A number below the power `k` has no more than `k` digits.
print_digits-short :
    (fuel k : ℕ) (base : Base) (upper : Bool) (n : ℕ) (s : Bytes)
    → n < power base k
    → length (print_digits fuel base upper n s) ≤ k + length s
unfolding print_digits
print_digits-short zero k base upper n s h = omega arith
print_digits-short (suc fuel) k base upper zero s h = omega arith
print_digits-short (suc fuel) zero base upper (suc n) s h = absurd (omega arith)
print_digits-short (suc fuel) (suc k) base upper (suc n) s h =
    let shorter =
      print_digits-short fuel k base upper (suc n / base_of base)
        (digit upper (suc n % base_of base) ∷ s) (shift base (suc n) k h) in
    rw (print_more fuel base upper n s) (omega (arith, shorter))

digits-short :
    (k : ℕ) (base : Base) (upper : Bool) (n : ℕ)
    → 1 ≤ k
    → n < power base k
    → length (digits_of base upper n) ≤ k
digits-short k base upper zero one h = one
digits-short k base upper (suc n) one h =
    rw (printed_nonzero base upper n)
      (omega (arith, print_digits-short (suc n) k base upper (suc n) [] h))

filled-length :
    (min_numbers : ℕ) (s : Bytes)
    → length (padding b'0' min_numbers (length s) ++ s) ≡ min_numbers - length s + length s
filled-length min_numbers s =
    length-append (replicate (min_numbers - length s) b'0') s
    ∙ ap (λ k. k + length s) (length-replicate {A = ℕ} (min_numbers - length s) b'0')

below_or_not : (m n : ℕ) → (m < n) ⊎ (n ≤ m)
below_or_not m n = elim (Bool-cases (leb n m)) [
  | inl above ↦ inr (ground (arith, above))
  | inr below ↦ inl (ground (arith, below))
]

-- Too many digits for the buffer are too many wanted, or too large a number.
overrun-cause :
    (base : Base) (upper : Bool) (n min_numbers : ℕ)
    → 25 < min_numbers - length (digits_of base upper n) + length (digits_of base upper n)
    → (25 < min_numbers) ⊎ (power base 25 ≤ n)
overrun-cause base upper n min_numbers long = elim (below_or_not 25 min_numbers) [
  | inl many ↦ inl many
  | inr few ↦ elim (below_or_not n (power base 25)) [
    | inl small ↦
        let short = digits-short 25 base upper n (omega arith) small in
        absurd (omega (arith, long, short, few))
    | inr large ↦ inr large
  ]
]

not-within : (size : ℕ) (s : Bytes) → leb (length s) size ≡ false → size < length s
not-within size s h = ground (arith, h)

-- The digits that are printed for a number in base 8, 10 or 16, in lower and upper case, read as that
-- number; with the zeroes that fill them up they are at least as many as wanted, and no more than the 25
-- bytes of their buffer. There is no result, where they would be written in front of it, only if more
-- than 25 digits are wanted, or the number is not below the base to the power 25.
pub value-numbers :
    (base : Base) (upper : Bool) (n min_numbers : ℕ)
    → ((s : Bytes) × (numbers base upper n min_numbers ≡ some s)
        × (value_of base s 0 ≡ n)
        × (min_numbers ≤ length s)
        × (length s ≤ 25))
      ⊎ ((numbers base upper n min_numbers ≡ none) × ((25 < min_numbers) ⊎ (power base 25 ≤ n)))
unfolding numbers
value-numbers base upper n min_numbers =
    let printed = digits_of base upper n in
    let whole = padding b'0' min_numbers (length printed) ++ printed in
    let long = filled-length min_numbers printed in
    elim (Bool-cases (leb (length whole) 25)) [
      | inl fits ↦ inl (
        whole,
        rw fits refl,
        value-zeroes (min_numbers - length printed) base printed ∙ value-printed base upper n,
        omega (arith, long),
        ground (arith, fits),
      )
      | inr overrun ↦ inr (
        rw overrun refl,
        overrun-cause base upper n min_numbers
            (subst (λ k. 25 < k) long (not-within 25 whole overrun)),
      )
    ]
