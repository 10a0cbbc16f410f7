-- ===== src/ClassModel/ClassProperties.antt =====
-- Class properties: `_getClassProperty:`, `_setClassProperty:toValue:` and `_hasClassProperty:` of
-- FSClass/FSClass.m. Each is given the shadow objects and the receiver's chain of parents.
pub mod Laws
pub mod Inheritance
use fscript_extensions.Prelude.{
  ℕ, Bool, true, false, Option, none, some, List, get_elem?, Bytes, [], ◌∷◌,
}
use fscript_extensions.ClassModel.{
  Exception, FsClass, Outcome, Slot, done, raised, slot_of, slot_value, update_at,
}
use fscript_extensions.Dictionary.{object_for, set_object, string_key, pointer_key}

-- `[classProperties objectForKey:]` of the shadow `i`.
abbrev pub class_slot : List FsClass → ℕ → Bytes → Option Slot
class_slot cs i name = elim (get_elem? cs i) [
  | none ↦ none
  | some c ↦ object_for name c.class_properties
]

-- `[classProperties setObject:forKey:]` of the shadow `i`.
abbrev pub write_class_slot : ℕ → Bytes → Slot → List FsClass → List FsClass
write_class_slot i name slot cs =
    update_at i (λ c. record c { class_properties = set_object name slot c.class_properties }) cs

unfoldable pub has_class_property : List FsClass → List ℕ → Bytes → Bool
has_class_property cs [] name = false
has_class_property cs (i ∷ parents) name = elim (class_slot cs i name) [
  | some _ ↦ true
  | none ↦ has_class_property cs parents name
]

unfoldable pub get_class_property : List FsClass → List ℕ → Bytes → Outcome (Option ℕ)
get_class_property cs [] name = raised Exception.no_such_class_property
get_class_property cs (i ∷ parents) name = elim (class_slot cs i name) [
  | some slot ↦ done (slot_value slot)
  | none ↦ get_class_property cs parents name
]

unfoldable pub set_class_property :
    List FsClass → List ℕ → Bytes → Option ℕ → Outcome (List FsClass)
set_class_property cs [] name value = raised Exception.no_such_class_property
set_class_property cs (i ∷ parents) name value = elim (class_slot cs i name) [
  | some slot ↦ done (write_class_slot i name (slot_of value) cs)
  | none ↦ set_class_property cs parents name value
]
