-- ===== src/PropertyName/Accessors.antt =====
-- The selectors of a property's accessors, and the key that its mutator computes from its selector
-- (`makePropertyNameFromSetSelector` of FSClass/Functions.m, `setInstanceProperty` of
-- FSClass/Callbacks.m).
use mathlib.Core.List.{cons-ne-nil}
use fscript_extensions.Prelude.{
  ℕ, zero, suc, ◌+◌, ◌-◌, ◌≡◌, ◌≢◌, ◌≤◌, refl, arith, true, false, ◌&&◌, none, some, ◌↔◌, [], ◌∷◌,
  ◌++◌, Bytes, codes, length, length-append, leb, inl, inr, take, drop, ap, if◌then◌else◌, ltb,
}
use fscript_extensions.Selector.{
  is_start, all_ascii, until_null, is_legit_selector, get_selector_parameter_count,
}
use fscript_extensions.Selector.Grammar.{
  AllWord, IsIdentifier, is_word, is_start-is_word, spell, is_legit_selector_iff,
}
use fscript_extensions.Selector.Parameters.{parameter_count}
use fscript_extensions.PropertyName.{
  to_lower, to_upper, lowercase_first, uppercase_first, set_selector,
  make_property_name_from_set_selector, key_of_set_selector,
}

-- Fast and regular classes compute the same key from a mutator's selector, and fail alike.
pub make_property_name-eq-key :
    (selector : Bytes)
    → make_property_name_from_set_selector selector ≡ key_of_set_selector selector
unfolding make_property_name_from_set_selector key_of_set_selector
make_property_name-eq-key selector =
    ap (λ r. if ltb (length selector) 4 then none else some r)
      (commutes (length selector - 4) (drop 3 selector))
  where
    commutes : (k : ℕ) (s : Bytes) → take k (lowercase_first s) ≡ lowercase_first (take k s)
    commutes zero s = refl
    commutes (suc k) [] = refl
    commutes (suc k) (c ∷ s) = refl

take-length-append : (s t : Bytes) → take (length s) (s ++ t) ≡ s
take-length-append [] t = refl
take-length-append (c ∷ s) t = ap (λ r. c ∷ r) (take-length-append s t)

lower-upper : (c : ℕ) → to_lower (to_upper c) ≡ to_lower c
unfolding to_lower to_upper
lower-upper c = ground arith

length-set_selector : (c : ℕ) (s : Bytes) → length (set_selector (c ∷ s)) ≡ length s + 5
unfolding set_selector
length-set_selector c s = omega (arith, length-append {0} s (b':' ∷ []))

key_of_long :
    (s : Bytes)
    → 4 ≤ length s
    → key_of_set_selector s ≡ some (lowercase_first (take (length s - 4) (drop 3 s)))
unfolding key_of_set_selector
key_of_long s h = ground arith

drop-set_selector :
    (c : ℕ) (s : Bytes) → drop 3 (set_selector (c ∷ s)) ≡ to_upper c ∷ (s ++ b':' ∷ [])
unfolding set_selector
drop-set_selector c s = refl

lowercase_cons : (c : ℕ) (s : Bytes) → lowercase_first (c ∷ s) ≡ to_lower c ∷ s
unfolding lowercase_first
lowercase_cons c s = refl

key_of_setter :
    (c : ℕ) (s : Bytes)
    → key_of_set_selector (set_selector (c ∷ s)) ≡ some (lowercase_first (c ∷ s))
key_of_setter c s =
    let e : length (set_selector (c ∷ s)) - 4 ≡ suc (length s) =
      omega (arith, length-set_selector c s) in
    rw
      (
        key_of_long (set_selector (c ∷ s)) (omega (arith, length-set_selector c s)),
        e,
        drop-set_selector c s,
        take-length-append s (b':' ∷ []),
        lowercase_cons,
        lower-upper c,
      )
      (rw lowercase_cons)

-- The mutator of a property writes under the name with its first letter in lower case, so under the
-- property's own name exactly if that does not begin with a capital letter.
pub key-set_selector :
    (c : ℕ) (s : Bytes)
    → (key_of_set_selector (set_selector (c ∷ s)) ≡ some (lowercase_first (c ∷ s)))
      × ((lowercase_first (c ∷ s) ≡ c ∷ s) ↔ ((leb b'A' c && leb c b'Z') ≡ false))
key-set_selector c s = (
  key_of_setter c s,
  (
    unfold lowercase_first to_lower in λ h. ground arith,
    unfold lowercase_first to_lower in λ h. ground arith,
  ),
)

word_is_plain : (c : ℕ) → is_word c ≡ true → (ltb c 128 ≡ true) × (c ≢ 0)
unfolding is_word
word_is_plain c h = ground arith

until_null-word : (s : Bytes) → AllWord s → until_null s ≡ s
unfolding until_null
until_null-word [] h = refl
until_null-word (c ∷ s) h = ground (arith, word_is_plain c h.0, until_null-word s h.1)

all_ascii-word : (s : Bytes) → AllWord s → all_ascii s ≡ true
unfolding all_ascii
all_ascii-word [] h = refl
all_ascii-word (c ∷ s) h = ground (arith, word_is_plain c h.0, all_ascii-word s h.1)

identifier_is_word : (s : Bytes) → IsIdentifier s → AllWord s
identifier_is_word [] h = absurd h
identifier_is_word (c ∷ s) h = (is_start-is_word c h.0, h.1)

until_null-keyword : (s : Bytes) → AllWord s → until_null (s ++ b':' ∷ []) ≡ s ++ b':' ∷ []
unfolding until_null
until_null-keyword [] h = refl
until_null-keyword (c ∷ s) h = ground (arith, word_is_plain c h.0, until_null-keyword s h.1)

all_ascii-keyword : (s : Bytes) → AllWord s → all_ascii (s ++ b':' ∷ []) ≡ true
unfolding all_ascii
all_ascii-keyword [] h = refl
all_ascii-keyword (c ∷ s) h = ground (arith, word_is_plain c h.0, all_ascii-keyword s h.1)

upper_is_word : (c : ℕ) → is_start c ≡ true → is_word (to_upper c) ≡ true
unfolding is_word to_upper
upper_is_word c h = ground arith

-- The one part of a mutator's selector.
abbrev setter_part : Bytes → Bytes
setter_part name = codes "set" ++ uppercase_first name

setter_part-IsIdentifier : (name : Bytes) → IsIdentifier name → IsIdentifier (setter_part name)
unfolding is_word is_start uppercase_first
setter_part-IsIdentifier [] h = absurd h
setter_part-IsIdentifier (c ∷ s) h = (refl, (refl, (refl, (upper_is_word c h.0, h.1))))

set_selector-spell : (name : Bytes) → set_selector name ≡ spell (setter_part name ∷ [])
unfolding set_selector spell
set_selector-spell name = refl

spell-one : (w : Bytes) → spell (w ∷ []) ≡ w ++ b':' ∷ []
unfolding spell
spell-one w = refl

legit-identifier : (s : Bytes) → IsIdentifier s → is_legit_selector s ≡ true
legit-identifier s h =
    let a = identifier_is_word s h in
    (is_legit_selector_iff s).1 (all_ascii-word s a, rw (until_null-word s a) (inl h))

legit-keyword : (s : Bytes) → IsIdentifier s → is_legit_selector (spell (s ∷ [])) ≡ true
legit-keyword s h =
    let a = identifier_is_word s h in
    rw (spell-one s) (
      (is_legit_selector_iff (s ++ b':' ∷ [])).1 (
        all_ascii-keyword s a,
        inr (s ∷ [], cons-ne-nil s [], (h, tt), rw (until_null-keyword s a, spell-one s)),
      ))

-- The accessors of a property whose name is an identifier have legitimate selectors: the name
-- itself, which has no parameter, and the mutator's, which has one.
pub accessors-IsSelector :
    (name : Bytes)
    → IsIdentifier name
    → (is_legit_selector name ≡ true)
      × (get_selector_parameter_count name ≡ 0)
      × (is_legit_selector (set_selector name) ≡ true)
      × (get_selector_parameter_count (set_selector name) ≡ 1)
accessors-IsSelector name h =
    let part = setter_part-IsIdentifier name h in
    let counts = parameter_count name (setter_part name ∷ []) h (part, tt) in
    rw (set_selector-spell name)
      (legit-identifier name h, counts.0, legit-keyword (setter_part name) part, counts.1)
