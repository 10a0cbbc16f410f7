-- ===== src/Numbers/Remainder.antt =====
-- The operator % of numbers (fscript-CLI/FSNSNumberMod.m) and of strings
-- (fscript-CLI/StringNumberConversion.m).
use fscript_extensions.Prelude.{
  ℕ, zero, suc, refl, sym, ap, subst, Option, none, some, arith, inl, inr, Option-cases, ◌+◌, ◌*◌,
  ◌/◌, ◌%◌, ◌≤◌, ◌<◌, ◌≡◌, ◌∙◌, ◌≢◌, ◌⊎◌,
}
use fscript_extensions.Numbers.{
  Foundation, NumberMod, Operand, StringNumberConversion, abs, int_min, int_rem, negsuc,
  operator_asterisk, operator_hyphen, operator_mod, operator_percent, operator_plus, operator_slash,
  pos, with_sign, ℤ,
}
use native.Mathlib.Nat.{mod-le}

module _ (F : Foundation) where
  unfoldable pub number_class : NumberMod F.Number
  unfolding operator_percent
  number_class = record { operator_percent = operator_percent F }

  unfoldable pub string_class : StringNumberConversion F.Text (Operand F) F.Number
  unfolding operator_plus operator_hyphen operator_asterisk operator_slash operator_mod
  string_class = record {
    operator_plus = operator_plus F;
    operator_hyphen = operator_hyphen F;
    operator_asterisk = operator_asterisk F;
    operator_slash = operator_slash F;
    operator_mod = operator_mod F;
  }

-- The remainder has the sign of the dividend or is zero, and its absolute value.
abs-with_sign : (z : ℤ) (n : ℕ) → abs (with_sign z n) ≡ n
abs-with_sign (pos m) n = refl
abs-with_sign (negsuc m) zero = refl
abs-with_sign (negsuc m) (suc n) = refl

-- What a remainder of `a` by `b` is.
abbrev pub IsRemainder : ℤ → ℤ → ℤ → Type 0
IsRemainder a b r =
    (abs r < abs b)
    × ((quotient : ℕ) × (abs a ≡ quotient * abs b + abs r))
    × (r ≡ with_sign a (abs r))

int_rem-some : (a b r : ℤ) → int_rem a b ≡ some r → (abs b ≢ 0) × (r ≡ with_sign a (abs a % abs b))
unfolding int_rem
int_rem-some a b r e = (λ z. ground (arith, z, e), ground (arith, e))

int_rem-IsRemainder : (a b r : ℤ) → int_rem a b ≡ some r → IsRemainder a b r
int_rem-IsRemainder a b r e =
    let (divisor, value) = int_rem-some a b r e in
    let size : abs r ≡ abs a % abs b = ap abs value ∙ abs-with_sign a (abs a % abs b) in
    (
      grind (arith, size, divisor),
      (abs a / abs b, grind (arith, size, divisor)),
      value ∙ ap (with_sign a) (sym size),
    )

-- The values of `int`.
abbrev pub IsInt : ℤ → Type 0
IsInt (pos n) = n < 2147483648
IsInt (negsuc n) = n < 2147483648

sign-IsInt : (m n : ℕ) → m < 2147483648 → n ≤ suc m → IsInt (with_sign (negsuc m) n)
sign-IsInt m zero h k = omega arith
sign-IsInt m (suc n) h k = omega (arith, h, k)

rem-IsInt : (a b r : ℤ) → IsInt a → int_rem a b ≡ some r → IsInt r
rem-IsInt (pos n) b r h e =
    let (_, value) = int_rem-some (pos n) b r e in
    subst IsInt (sym value) (omega (arith, h, mod-le n (abs b)))
rem-IsInt (negsuc n) b r h e =
    let (_, value) = int_rem-some (negsuc n) b r e in
    subst IsInt (sym value) (sign-IsInt n (suc n % abs b) h (mod-le (suc n) (abs b)))

-- What `operator_percent:` may answer: a remainder, or nothing for what C leaves undefined.
abbrev pub AnswersRemainder : (F : Foundation) → F.Number → F.Number → Option F.Number → Type 0
AnswersRemainder F a b none =
    (abs (F.int_value b) ≡ 0) ⊎ ((F.int_value a ≡ int_min) × (F.int_value b ≡ negsuc 0))
AnswersRemainder F a b (some r) = IsRemainder (F.int_value a) (F.int_value b) (F.int_value r)

undefined-cases : (a b : ℤ) → int_rem a b ≡ none → (abs b ≡ 0) ⊎ ((a ≡ int_min) × (b ≡ negsuc 0))
unfolding int_rem
undefined-cases a (pos zero) e = inl refl
undefined-cases (pos m) (pos (suc n)) e = absurd (ground (arith, e))
undefined-cases (negsuc m) (pos (suc n)) e = absurd (ground (arith, e))
undefined-cases (pos m) (negsuc n) e = absurd (ground (arith, e))
undefined-cases (negsuc m) (negsuc n) e = inr (ground (arith, e), ground (arith, e))

operator_percent-some :
    (F : Foundation) (a b : F.Number) (r : ℤ)
    → int_rem (F.int_value a) (F.int_value b) ≡ some r
    → operator_percent F a b ≡ some (F.number_with_int r)
unfolding operator_percent
operator_percent-some F a b r e = rw e refl

operator_percent-none :
    (F : Foundation) (a b : F.Number)
    → int_rem (F.int_value a) (F.int_value b) ≡ none
    → operator_percent F a b ≡ none
unfolding operator_percent
operator_percent-none F a b e = rw e refl

-- If the value of a number is an `int`, and a number made from an `int` has it for its value,
-- `operator_percent:` answers a number whose value is smaller than the divisor's without their signs, is
-- what is left of the dividend's after some multiple of the divisor's, and has the dividend's sign. Only a
-- divisor of zero, and the least `int` divided by -1, are left undefined.
pub operator_percent-AnswersRemainder :
    (F : Foundation)
    → ((n : F.Number) → IsInt (F.int_value n))
    → ((z : ℤ) → IsInt z → F.int_value (F.number_with_int z) ≡ z)
    → (a b : F.Number) → AnswersRemainder F a b (operator_percent F a b)
operator_percent-AnswersRemainder F values made a b =
    elim (Option-cases (int_rem (F.int_value a) (F.int_value b))) [
      | inl e ↦
          subst (AnswersRemainder F a b) (sym (operator_percent-none F a b e))
            (undefined-cases (F.int_value a) (F.int_value b) e)
      | inr (r, e) ↦
          let same = made r (rem-IsInt (F.int_value a) (F.int_value b) r (values a) e) in
          subst (AnswersRemainder F a b) (sym (operator_percent-some F a b r e)) (
            subst (IsRemainder (F.int_value a) (F.int_value b)) (sym same)
              (int_rem-IsRemainder (F.int_value a) (F.int_value b) r e))
    ]
