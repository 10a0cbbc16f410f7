-- ===== src/ClassModel/Properties.antt =====
-- Instance properties and their defaults: `_hasProperty:`, `defaultValueForProperty:` and
-- `setDefaultValue:forProperty:` of FSClass/FSClass.m.
use fscript_extensions.Prelude.{
  ℕ, Bool, true, false, Option, none, some, List, get_elem?, Bytes, [], ◌∷◌,
}
use fscript_extensions.ClassModel.{
  Exception, FsClass, Outcome, Slot, done, raised, slot_of, slot_value, update_at,
}
use fscript_extensions.Dictionary.{object_for, set_object, string_key, pointer_key}

-- `[properties objectForKey:]` of the shadow `i`.
abbrev pub property_slot : List FsClass → ℕ → Bytes → Option Slot
property_slot cs i name = elim (get_elem? cs i) [
  | none ↦ none
  | some c ↦ object_for name c.properties
]

abbrev pub write_property_slot : ℕ → Bytes → Slot → List FsClass → List FsClass
write_property_slot i name slot cs =
    update_at i (λ c. record c { properties = set_object name slot c.properties }) cs

unfoldable pub has_property : List FsClass → List ℕ → Bytes → Bool
has_property cs [] name = false
has_property cs (i ∷ parents) name = elim (property_slot cs i name) [
  | some _ ↦ true
  | none ↦ has_property cs parents name
]

unfoldable pub default_value_for_property : List FsClass → List ℕ → Bytes → Outcome (Option ℕ)
default_value_for_property cs [] name = raised Exception.no_such_property
default_value_for_property cs (i ∷ parents) name = elim (property_slot cs i name) [
  | some slot ↦ done (slot_value slot)
  | none ↦ default_value_for_property cs parents name
]

-- Unlike reading, this considers the receiver alone.
unfoldable pub set_default_value : List FsClass → ℕ → Option ℕ → Bytes → Outcome (List FsClass)
set_default_value cs i new_default name = elim (property_slot cs i name) [
  | none ↦ raised Exception.no_such_property
  | some _ ↦ done (write_property_slot i name (slot_of new_default) cs)
]
