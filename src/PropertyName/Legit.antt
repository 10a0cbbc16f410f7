-- ===== src/PropertyName/Legit.antt =====
-- Which names `_isLegitPropertyName` (FSClass/Functions.m) accepts.
use fscript_extensions.Prelude.{
  ℕ, ◌≡◌, refl, arith, Bool, true, false, none, some, ◌↔◌, [], ◌∷◌, Bytes, bytes_eq,
}
use fscript_extensions.Selector.{is_start}
use fscript_extensions.Selector.Grammar.{AllWord, IsIdentifier, is_word}
use fscript_extensions.PropertyName.{
  lowercase_first, uppercase_first, ivar_fs_class, ivar_prop_dictionary, has_illegal_character,
  check_property_name,
}

AllWord-sound : (s : Bytes) → has_illegal_character s ≡ false → AllWord s
unfolding has_illegal_character is_word
AllWord-sound [] h = tt
AllWord-sound (c ∷ s) h = ground (arith, AllWord-sound s)

AllWord-complete : (s : Bytes) → AllWord s → has_illegal_character s ≡ false
unfolding has_illegal_character is_word
AllWord-complete [] h = refl
AllWord-complete (c ∷ s) h = ground (arith, AllWord-complete s h.1)

start_is_legal :
    (c : ℕ) (s : Bytes) → is_start c ≡ true → AllWord s → has_illegal_character (c ∷ s) ≡ false
unfolding has_illegal_character
start_is_legal c s h a = ground (arith, AllWord-complete s a)

tail_is_word : (c : ℕ) (s : Bytes) → has_illegal_character (c ∷ s) ≡ false → AllWord s
tail_is_word c s h = (AllWord-sound (c ∷ s) h).1

-- `_isLegitPropertyName` accepts exactly the strings that are identifiers, are neither a reserved
-- name nor a key of the dictionary, and do not become one when the case of the first letter changes.
pub check_property_name_iff :
    (name : Bytes) (existing : Bytes → Bool)
    → (check_property_name (some name) existing ≡ none) ↔ (
        IsIdentifier name
        × (existing name ≡ false)
        × (existing (lowercase_first name) ≡ false)
        × (existing (uppercase_first name) ≡ false)
        × (bytes_eq name ivar_fs_class ≡ false)
        × (bytes_eq name ivar_prop_dictionary ≡ false))
unfolding check_property_name
check_property_name_iff [] existing = (λ h. ground arith, λ h. absurd h.0)
check_property_name_iff (c ∷ s) existing =
    (λ h. ground (arith, tail_is_word c s), λ h. ground (arith, start_is_legal c s))
