-- ===== src/PropertyName.antt =====
-- Names of properties and of their accessors: FSClass/FSClassStringUtil.m, and
-- `_isLegitPropertyName` and `makePropertyNameFromSetSelector` of FSClass/Functions.m.
pub mod Legit
pub mod Accessors
use fscript_extensions.Prelude.{
  ℕ, zero, suc, ◌+◌, ◌-◌, Bool, true, false, not, ◌&&◌, ◌||◌, Option, none, some, [], ◌∷◌, ◌++◌,
  Bytes, codes, leb, ltb, ◌==◌, if◌then◌else◌, bytes_eq, length, take, drop,
}
use fscript_extensions.Selector.{is_alpha, is_numeric, is_start}

-- `tolower` and `toupper` of the C locale.
unfoldable pub to_lower : ℕ → ℕ
to_lower c = if leb b'A' c && leb c b'Z' then c + 32 else c

unfoldable pub to_upper : ℕ → ℕ
to_upper c = if leb b'a' c && leb c b'z' then c - 32 else c

-- `lowercaseFirst` and `uppercaseFirst`. Of an empty string they write before the end of a block of
-- size 0; the string that they return is empty.
unfoldable pub lowercase_first : Bytes → Bytes
unfolding to_lower
lowercase_first [] = []
lowercase_first (c ∷ s) = to_lower c ∷ s

unfoldable pub uppercase_first : Bytes → Bytes
unfolding to_upper
uppercase_first [] = []
uppercase_first (c ∷ s) = to_upper c ∷ s

-- `IVAR_FS_CLASS_STRING` and `IVAR_PROP_DICTIONARY_STRING`
abbrev pub ivar_fs_class : Bytes
ivar_fs_class = codes "__fsclass_class"

abbrev pub ivar_prop_dictionary : Bytes
ivar_prop_dictionary = codes "__fsclass_properties"

-- The reasons that `_isLegitPropertyName` gives.
pub data Reason : Type 0 where
  non_string already_existing bad_start illegal_characters conflicts : Reason

-- The characters outside `alphaNumericString`.
unfoldable pub has_illegal_character : Bytes → Bool
unfolding is_start is_numeric
has_illegal_character [] = false
has_illegal_character (c ∷ s) = not (is_start c || is_numeric c) || has_illegal_character s

abbrev pub starts_alphabetic : Bytes → Bool
starts_alphabetic [] = false
starts_alphabetic (c ∷ s) = is_start c

-- `_isLegitPropertyName`: nothing for a legitimate name, else the reason. `name` is nothing for an
-- object that is no string; `existing` says which keys the dictionary holds, none if it is `nil`.
unfoldable pub check_property_name : Option Bytes → (Bytes → Bool) → Option Reason
unfolding has_illegal_character is_start lowercase_first uppercase_first
check_property_name none existing = some non_string
check_property_name (some name) existing =
    if existing name
    then some already_existing
    else if not (ltb 0 (length name)) || not (starts_alphabetic name)
    then some bad_start
    else if has_illegal_character name
    then some illegal_characters
    else if existing (lowercase_first name)
    then some conflicts
    else if existing (uppercase_first name)
    then some conflicts
    else if bytes_eq name ivar_fs_class || bytes_eq name ivar_prop_dictionary
    then some conflicts
    else none

-- `[NSString stringWithFormat:@"set%@:", [name uppercaseFirst]]`, the name of the mutator.
unfoldable pub set_selector : Bytes → Bytes
unfolding uppercase_first
set_selector name = codes "set" ++ uppercase_first name ++ codes ":"

-- `makePropertyNameFromSetSelector`: the bytes up to the null that it writes. A selector of fewer
-- than four characters makes it write before the buffer, or read behind the name: `none`.
unfoldable pub make_property_name_from_set_selector : Bytes → Option Bytes
unfolding lowercase_first
make_property_name_from_set_selector selector =
    if ltb (length selector) 4
    then none
    else some (take (length selector - 4) (lowercase_first (drop 3 selector)))

-- The key that `setInstanceProperty` of FSClass/Callbacks.m computes; `substringWithRange:` raises
-- an exception for a range outside the string.
unfoldable pub key_of_set_selector : Bytes → Option Bytes
unfolding lowercase_first
key_of_set_selector selector =
    if ltb (length selector) 4
    then none
    else some (lowercase_first (take (length selector - 4) (drop 3 selector)))
