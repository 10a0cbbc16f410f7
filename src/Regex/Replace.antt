-- ===== src/Regex/Replace.antt =====
-- `replaceWithString:inString:limit:` of fscript-CLI/FSRegex.m. Texts are ASCII, so that a change of
-- case keeps their length.
pub mod Plain
pub mod Whole
pub mod Modified
use fscript_extensions.Prelude.{
  ℕ, zero, suc, Bool, true, false, Option, none, some, List, map, length, get_elem?, take, drop,
  ltb, leb, Bytes, [], ◌∷◌, ◌++◌, ◌+◌, ◌-◌, ◌*◌, ◌/◌, ◌&&◌, ◌||◌, ◌==◌, if◌then◌else◌,
}
use fscript_extensions.Regex.{Match, behind_match, find_all, limited, substring}
use fscript_extensions.SystemUtility.Commands.{exec}
use fscript_extensions.PropertyName.{to_lower, to_upper}

-- A match of `BACKREF_PATTERN` by its groups: a reference by number or by name, with or without braces,
-- a case modifier, or an escaped character.
pub data Token : Type 0 where
  number_reference : Bool → ℕ → Token
  name_reference : Bool → Bytes → Token
  case_modifier : ℕ → Token
  literal_escape : Bytes → Token

-- `intValue` of digits, the greatest `int` for more; of any other text, 0.
abbrev pub digits_value : ℕ → Bytes → ℕ
digits_value n [] = n
digits_value n (x ∷ s) =
    if leb b'0' x && leb x b'9' then digits_value (n * 10 + (x - b'0')) s else n

abbrev pub int_value : Bytes → ℕ
int_value s = let n = digits_value 0 s in if ltb n 2147483647 then n else 2147483647

abbrev pub is_some : Option Bytes → Bool
is_some none = false
is_some (some s) = true

abbrev pub first_byte : Bytes → ℕ
first_byte [] = 0
first_byte (x ∷ s) = x

-- Nothing where the assertion fails that it is one of the four.
unfoldable pub token_of : List (Option Bytes) → Option Token
token_of (brace ∷ some index ∷ rest) = some (number_reference (is_some brace) (int_value index))
token_of (brace ∷ none ∷ some name ∷ rest) = some (name_reference (is_some brace) name)
token_of (brace ∷ none ∷ none ∷ some modifier ∷ rest) = some (case_modifier (first_byte modifier))
token_of (brace ∷ none ∷ none ∷ none ∷ some escape ∷ rest) = some (literal_escape escape)
token_of _ = none

-- The answer, or what goes wrong: no such reference, a group out of range, a failed assertion, or a
-- read in front of the vector, for a name in braces that the pattern has not got.
pub data Replaced {ℓ} (A : Type ℓ) : Type ℓ where
  replaced : A → Replaced A
  no_such_backreference group_out_of_range failed_assertion reads_out_of_bounds : Replaced A

infixl 5 ◌>>=◌
abbrev pub ◌>>=◌ {ℓ κ} : {A : Type ℓ} {B : Type κ} → Replaced A → (A → Replaced B) → Replaced B
replaced a >>= f = f a
no_such_backreference >>= f = no_such_backreference
group_out_of_range >>= f = group_out_of_range
failed_assertion >>= f = failed_assertion
reads_out_of_bounds >>= f = reads_out_of_bounds

-- `count` of a match.
abbrev pub group_count : Match → ℕ
group_count m = suc (length m.groups)

-- `groupAtIndex:`; a group that took no part is `nil`.
unfoldable pub group_at_index : Bytes → Match → ℕ → Replaced (Option Bytes)
group_at_index s m zero = replaced (some (substring s m.location m.size))
group_at_index s m (suc i) = elim (get_elem? m.groups i) [
  | none ↦ group_out_of_range
  | some group ↦ replaced group
]

-- The loop that cuts digits off a number without braces, with the length of the reference.
unfoldable pub chop_index : ℕ → Bool → ℕ → ℕ → Replaced (ℕ × ℕ)
chop_index count braces index zero =
    if ltb index count || braces then replaced (index, 0) else no_such_backreference
chop_index count braces index (suc size) =
    let rest = chop_index count braces (index / 10) size in
    if ltb index count || braces
    then replaced (index, suc size)
    else if ltb (suc size) 3
    then no_such_backreference
    else rest

-- The loop that cuts characters off a name without braces; the number of a name is what PCRE knows.
unfoldable pub chop_name : (Bytes → Option ℕ) → Bool → Bytes → ℕ → Replaced (ℕ × ℕ)
chop_name string_number braces name zero = elim (string_number name) [
  | some index ↦ replaced (index, 0)
  | none ↦ if braces then reads_out_of_bounds else no_such_backreference
]
chop_name string_number braces name (suc size) =
    let rest = chop_name string_number braces (take (length name - 1) name) size in
    elim (string_number name) [
      | some index ↦ replaced (index, suc size)
      | none ↦
          if braces
          then reads_out_of_bounds
          else if ltb (suc size) 3
          then no_such_backreference
          else rest
    ]

-- `repBuffer`, `caseModVector`, and the location behind what of the replacement string is used.
pub record Building : Type 0 where
  pub buffer : Bytes
  pub modifiers : List (ℕ × ℕ)
  pub used : ℕ

abbrev pub text_or_empty : Option Bytes → Bytes
text_or_empty none = []
text_or_empty (some s) = s

-- A reference's group, appended, and the reference's length.
abbrev pub append_group : Bytes → Match → Bytes → ℕ → ℕ × ℕ → List (ℕ × ℕ) → Replaced Building
append_group s m buffer location (index, size) modifiers = do
  group ← group_at_index s m index
  replaced (record {
    buffer = buffer ++ text_or_empty group;
    modifiers = modifiers;
    used = location + size;
  })

-- The body of the loop over the references.
unfoldable pub build_token :
    (Bytes → Option ℕ) → Bytes → Match → Bytes → Match → Building → Replaced Building
unfolding token_of group_at_index chop_index chop_name
build_token string_number s m rep reference b =
    let buffer = b.buffer ++ substring rep b.used (reference.location - b.used) in
    elim (token_of reference.groups) [
      | none ↦ failed_assertion
      | some (number_reference braces index) ↦ do
        chopped ← chop_index (group_count m) braces index reference.size
        append_group s m buffer reference.location chopped b.modifiers
      | some (name_reference braces name) ↦ do
        chopped ← chop_name string_number braces name reference.size
        append_group s m buffer reference.location chopped b.modifiers
      | some (case_modifier type) ↦ replaced (record {
        buffer = buffer;
        modifiers = b.modifiers ++ (length buffer, type) ∷ [];
        used = behind_match reference;
      })
      | some (literal_escape escape) ↦ replaced (record {
        buffer = buffer ++ escape;
        modifiers = b.modifiers;
        used = behind_match reference;
      })
    ]

unfoldable pub build_tokens :
    (Bytes → Option ℕ) → Bytes → Match → Bytes → List Match → Building → Replaced Building
unfolding build_token
build_tokens string_number s m rep [] b = replaced b
build_tokens string_number s m rep (reference ∷ references) b = do
  next_b ← build_token string_number s m rep reference b
  build_tokens string_number s m rep references next_b

-- The location of the first terminator among the later modifiers.
abbrev pub terminator : List (ℕ × ℕ) → Option ℕ
terminator [] = none
terminator ((location, type) ∷ later) = if type == b'E' then some location else terminator later

-- `caseModRange.length`; a terminator has no range of its own.
abbrev pub modified_length : ℕ → ℕ → List (ℕ × ℕ) → Bytes → ℕ
modified_length location type later buffer =
    if type == b'u' || type == b'l'
    then 1
    else if type == b'U' || type == b'L'
    then elim (terminator later) [ some e ↦ e - location | none ↦ length buffer - location ]
    else 0

abbrev pub change_case : ℕ → Bytes → Bytes
change_case type s =
    if type == b'u' || type == b'U'
    then map to_upper s
    else if type == b'l' || type == b'L'
    then map to_lower s
    else s

-- `replaceCharactersInRange:withString:`
abbrev pub replace_range : ℕ → ℕ → Bytes → Bytes → Bytes
replace_range location size text s = take location s ++ (text ++ drop (location + size) s)

abbrev pub apply_modifier : ℕ → ℕ → List (ℕ × ℕ) → Bytes → Bytes
apply_modifier location type later buffer =
    let size = modified_length location type later buffer in
    if ltb (length buffer) (location + size)
    then buffer
    else replace_range location size (change_case type (substring buffer location size)) buffer

-- The loop that interprets the case modifiers.
unfoldable pub apply_modifiers : List (ℕ × ℕ) → Bytes → Bytes
unfolding to_upper to_lower
apply_modifiers [] buffer = buffer
apply_modifiers ((location, type) ∷ later) buffer =
    apply_modifiers later (apply_modifier location type later buffer)

-- `repBuffer` for a match.
unfoldable pub replacement :
    (Bytes → Option ℕ) → Bytes → Bytes → List Match → Match → Replaced Bytes
unfolding build_tokens apply_modifiers
replacement string_number s rep references m = do
  b ←
      build_tokens string_number s m rep references
        (record { buffer = []; modifiers = []; used = 0 })
  replaced (apply_modifiers b.modifiers (b.buffer ++ substring rep b.used (length rep - b.used)))

-- The loop over the matches, over what a match is replaced by, and what follows it.
unfoldable pub replace_rounds : (Match → Replaced Bytes) → Bytes → ℕ → List Match → Replaced Bytes
replace_rounds by s remain [] = replaced (substring s remain (length s - remain))
replace_rounds by s remain (m ∷ matches) = do
  text ← by m
  rest ← replace_rounds by s (behind_match m) matches
  replaced (substring s remain (m.location - remain) ++ (text ++ rest))

-- `replaceWithString:inString:limit:`; `find_references` is `backrefPattern`. The limit 0 stands for any
-- below 1.
unfoldable pub replace_with_string :
    (ℕ → ℕ → Option Match)
    → (Bytes → Option ℕ)
    → (Bytes → List Match)
    → Bytes
    → Bytes
    → ℕ
    → Replaced Bytes
unfolding find_all replacement replace_rounds
replace_with_string exec string_number find_references rep s limit =
    replace_rounds (replacement string_number s rep (find_references rep)) s 0
      (limited limit (find_all exec 0 (length s)))
