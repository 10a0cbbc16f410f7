-- ===== src/Tests/Selectors.antt =====
-- Selectors and names of properties at concrete strings.
use fscript_extensions.Prelude.{
  Bool, bytes_eq, ◌≡◌, ◌↔◌, refl, true, false, none, some, List, [], ◌∷◌, Bytes, codes,
}
use fscript_extensions.Selector.{is_start, is_legit_selector, all_ascii, until_null}
use fscript_extensions.Selector.Grammar.{
  All, IsIdentifier, is_word, IsSelector, is_legit_selector_iff,
}
use fscript_extensions.PropertyName.{
  check_property_name, lowercase_first, uppercase_first, ivar_fs_class, ivar_prop_dictionary,
  key_of_set_selector,
}
use fscript_extensions.PropertyName.Legit.{check_property_name_iff}

abbrev two_parts : List Bytes
two_parts = codes "at" ∷ codes "put" ∷ []

size-IsIdentifier : IsIdentifier (codes "size")
unfolding is_start is_word
size-IsIdentifier = (refl, (refl, (refl, (refl, tt))))

two_parts-IsIdentifier : All IsIdentifier two_parts
unfolding is_start is_word
two_parts-IsIdentifier = ((refl, (refl, tt)), ((refl, (refl, (refl, tt))), tt))

is_legit_selector_iff_example :
    (is_legit_selector (codes "at:put:") ≡ true)
    ↔ ((all_ascii (codes "at:put:") ≡ true) × IsSelector (until_null (codes "at:put:")))
is_legit_selector_iff_example = is_legit_selector_iff (codes "at:put:")

abbrev no_keys : Bytes → Bool
no_keys k = false

check_property_name_iff_example : (check_property_name (some (codes "size")) no_keys ≡ none) ↔ (
    IsIdentifier (codes "size")
    × (no_keys (codes "size") ≡ false)
    × (no_keys (lowercase_first (codes "size")) ≡ false)
    × (no_keys (uppercase_first (codes "size")) ≡ false)
    × (bytes_eq (codes "size") ivar_fs_class ≡ false)
    × (bytes_eq (codes "size") ivar_prop_dictionary ≡ false))
check_property_name_iff_example = check_property_name_iff (codes "size") no_keys

is_legit_selector_runs :
    (is_legit_selector (codes "at:put:") ≡ true)
    × (is_legit_selector (codes "at:put") ≡ false)
    × (is_legit_selector (codes "at::") ≡ false)
    × (is_legit_selector [] ≡ false)
unfolding is_legit_selector
is_legit_selector_runs = (refl, refl, refl, refl)

key_of_capital : key_of_set_selector (codes "setURL:") ≡ some (codes "uRL")
unfolding key_of_set_selector
key_of_capital = refl
