-- ===== src/Nestings/Balanced.antt =====
-- Lines whose brackets match (fscript-CLI/interpreter.m).
use fscript_extensions.Prelude.{
  ℕ, suc, refl, sym, ap, subst, Bool, true, false, not, none, some, arith, length, Bytes, [], ◌∷◌,
  ◌-◌, ◌≤◌, ◌≡◌, ◌∙◌, ◌||◌, ◌==◌,
}
use fscript_extensions.Nestings.{
  Nesting, find_nestings, nesting_round, nesting_rounds, misused, null_pointer, returned, start,
}

pub data Bracket : Type 0 where
  paren brace square : Bracket

abbrev pub opening : Bracket → ℕ
opening paren = b'('
opening brace = b'{'
opening square = b'['

abbrev pub closing : Bracket → ℕ
closing paren = b')'
closing brace = b'}'
closing square = b']'

-- Code without comments and strings whose brackets match.
pub data Code : Type 0 where
  nothing : Code
  char : ℕ → Code → Code
  group : Bracket → Code → Code → Code

abbrev pub is_plain : ℕ → Bool
is_plain c = not (
    c == b'('
    || c == b'{'
    || c == b'['
    || c == b')'
    || c == b'}'
    || c == b']'
    || c == b'"'
    || c == b'\'')

abbrev pub IsCode : Code → Type 0
IsCode nothing = Unit
IsCode (char c code) = (is_plain c ≡ true) × IsCode code
IsCode (group b inner code) = IsCode inner × IsCode code

abbrev pub render_before : Code → Bytes → Bytes
render_before nothing s = s
render_before (char c code) s = c ∷ render_before code s
render_before (group b inner code) s =
    opening b ∷ render_before inner (closing b ∷ render_before code s)

-- No more than `k` brackets are open at once.
abbrev pub IsNested : Code → ℕ → Type 0
IsNested nothing k = Unit
IsNested (char c code) k = IsNested code k
IsNested (group b inner code) k = (1 ≤ k) × IsNested inner (k - 1) × IsNested code k

abbrev pub quiet : Bytes → Bytes → Nesting
quiet stack above = record { stack = stack; above = above; in_string = false; in_comment = false }

plain-round :
    (previous c : ℕ) (stack above : Bytes)
    → is_plain c ≡ true
    → nesting_round previous c (quiet stack above) ≡ some (quiet stack above)
unfolding nesting_round
plain-round previous c stack above h = ground (arith, h)

open-round :
    (previous : ℕ) (b : Bracket) (stack : Bytes) (x : ℕ) (above : Bytes)
    → nesting_round previous (opening b) (quiet stack (x ∷ above))
      ≡ some (quiet (opening b ∷ stack) above)
unfolding nesting_round
open-round previous paren stack x above = refl
open-round previous brace stack x above = refl
open-round previous square stack x above = refl

close-round :
    (previous : ℕ) (b : Bracket) (stack above : Bytes)
    → nesting_round previous (closing b) (quiet (opening b ∷ stack) above)
      ≡ some (quiet stack (opening b ∷ above))
unfolding nesting_round
close-round previous paren stack above = refl
close-round previous brace stack above = refl
close-round previous square stack above = refl

-- The last character of a text that follows another one.
abbrev last_of : Code → ℕ → ℕ
last_of nothing previous = previous
last_of (char c code) previous = last_of code c
last_of (group b inner code) previous = last_of code (closing b)

rounds-cons :
    (previous c : ℕ) (line : Bytes) (n m : Nesting)
    → nesting_round previous c n ≡ some m
    → nesting_rounds previous (c ∷ line) n ≡ nesting_rounds c line m
unfolding nesting_rounds
rounds-cons previous c line n m h =
    ap (λ r. elim r [ none ↦ none | some k ↦ nesting_rounds c line k ]) h

-- Code leaves the open brackets as they are, and something in the memory behind them.
code-rounds :
    (code : Code) (previous : ℕ) (stack above s : Bytes)
    → IsCode code
    → IsNested code (length above)
    → (later : Bytes) × (length later ≡ length above)
      × (nesting_rounds previous (render_before code s) (quiet stack above)
          ≡ nesting_rounds (last_of code previous) s (quiet stack later))
code-rounds nothing previous stack above s h k = (above, refl, refl)
code-rounds (char c code) previous stack above s h k =
    let (later, same, e) = code-rounds code c stack above s h.1 k in
    (
      later,
      same,
      rounds-cons previous c (render_before code s) (quiet stack above) (quiet stack above)
            (plain-round previous c stack above h.0)
          ∙ e,
    )
code-rounds (group b inner code) previous stack [] s h k = absurd (omega (arith, k.0))
code-rounds (group b inner code) previous stack (x ∷ above) s h k =
    let behind_group = render_before code s in
    let opened = opening b ∷ stack in
    let less : suc (length above) - 1 ≡ length above = omega arith in
    let (within_it, same, e) =
      code-rounds inner (opening b) opened above (closing b ∷ behind_group) h.0
        (subst (IsNested inner) less k.1) in
    let enough : IsNested code (length (opening b ∷ within_it)) =
      subst (IsNested code) (ap suc (sym same)) k.2 in
    let (later, same_later, e_later) =
      code-rounds code (closing b) stack (opening b ∷ within_it) s h.1 enough in
    (
      later,
      same_later ∙ ap suc same,
      rounds-cons previous (opening b) (render_before inner (closing b ∷ behind_group))
            (quiet stack (x ∷ above)) (quiet opened above) (open-round previous b stack x above)
          ∙ e
          ∙ rounds-cons (last_of inner (opening b)) (closing b) behind_group
              (quiet opened within_it) (quiet stack (opening b ∷ within_it))
              (close-round (last_of inner (opening b)) b stack within_it)
          ∙ e_later,
    )

-- A first line of code whose brackets match, with no comment or string in it, is complete, whatever the
-- memory holds that `malloc` gives, if no more than the buffer's 80 brackets are open at once.
pub find_nestings-balanced :
    (code : Code) (fresh : Bytes)
    → IsCode code
    → length fresh ≡ 80
    → IsNested code 80
    → find_nestings fresh null_pointer (render_before code []) ≡ null_pointer
unfolding find_nestings nesting_rounds start
find_nestings-balanced code [] h size k = absurd (omega (arith, size))
find_nestings-balanced code (x ∷ fresh) h size k =
    let above = 0 ∷ fresh in
    let (later, _, e) = code-rounds code 0 [] above [] h (subst (IsNested code) (sym size) k) in
    ap (λ r. elim r [ none ↦ misused | some n ↦ returned n ]) e
