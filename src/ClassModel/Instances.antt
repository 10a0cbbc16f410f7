-- ===== src/ClassModel/Instances.antt =====
-- Objects of F-Script classes: `allocator` and the accessors and mutators of FSClass/Callbacks.m.
pub mod Values
pub mod Allocation
use fscript_extensions.Prelude.{ℕ, Bool, Option, none, some, List, Bytes, [], ◌∷◌, if◌then◌else◌}
use fscript_extensions.Dictionary.{Dict, object_for, set_object, string_key, pointer_key}
use fscript_extensions.ClassModel.{
  Exception, FsClass, Outcome, Slot, World, chain_of, done, null, object, raised, slot_of,
  slot_value, ◌>>=◌,
}
use fscript_extensions.ClassModel.Creation.{class_for_pointer}
use fscript_extensions.ClassModel.Properties.{default_value_for_property}
use fscript_extensions.ClassModel.ClassProperties.{get_class_property, set_class_property}
use fscript_extensions.PropertyName.{
  key_of_set_selector, make_property_name_from_set_selector, set_selector,
}

-- An object: its class, the dictionary of properties, if the class has one, and its instance
-- variables with their values.
pub record Instance : Type 0 where
  pub isa : ℕ
  pub dictionary : Option (Dict Bytes Slot)
  pub ivars : Dict Bytes (Option ℕ)

-- A message to `nil` does nothing.
abbrev pub store_property : Bytes → Slot → Option (Dict Bytes Slot) → Option (Dict Bytes Slot)
store_property name slot none = none
store_property name slot (some table) = some (set_object name slot table)

abbrev pub stored : Bytes → Option (Dict Bytes Slot) → Option Slot
stored name none = none
stored name (some table) = object_for name table

-- What `defaultValueForProperty:` of the object's class answers; the class is `nil` if it is not
-- registered.
abbrev pub class_default : World → ℕ → Bytes → Outcome (Option ℕ)
class_default w isa name = elim (class_for_pointer w isa) [
  | none ↦ done none
  | some i ↦ default_value_for_property w.shadows (chain_of w.shadows i) name
]

-- `getInstanceProperty` stores the default value in the object when it is first read.
unfoldable pub get_instance_property : World → Instance → Bytes → Outcome (Instance × Option ℕ)
unfolding default_value_for_property
get_instance_property w o selector = elim (stored selector o.dictionary) [
  | some slot ↦ done (o, slot_value slot)
  | none ↦ class_default w o.isa selector >>= λ value.
      done (record o { dictionary = store_property selector (slot_of value) o.dictionary }, value)
]

unfoldable pub set_instance_property : Instance → Bytes → Option ℕ → Outcome Instance
unfolding key_of_set_selector
set_instance_property o selector value = elim (key_of_set_selector selector) [
  | none ↦ raised Exception.range_error
  | some key ↦ done (record o { dictionary = store_property key (slot_of value) o.dictionary })
]

unfoldable pub get_instance_property_fast : Instance → Bytes → Outcome (Option ℕ)
get_instance_property_fast o selector = elim (object_for selector o.ivars) [
  | none ↦ raised Exception.no_such_property
  | some value ↦ done value
]

-- `object_setInstanceVariable` does nothing if there is no such variable.
abbrev pub set_ivar : Bytes → Option ℕ → Dict Bytes (Option ℕ) → Dict Bytes (Option ℕ)
set_ivar name value table = elim (object_for name table) [
  | none ↦ table
  | some _ ↦ set_object name value table
]

unfoldable pub set_instance_property_fast : Instance → Bytes → Option ℕ → Outcome Instance
unfolding make_property_name_from_set_selector
set_instance_property_fast o selector value = elim (make_property_name_from_set_selector selector) [
  | none ↦ raised Exception.range_error
  | some name ↦ done (record o { ivars = set_ivar name value o.ivars })
]

-- `setValue:forKey:` calls the mutator of the property.
abbrev pub set_value : Bool → Instance → Bytes → ℕ → Outcome Instance
set_value fast o key value =
    if fast
    then set_instance_property_fast o (set_selector key) (some value)
    else set_instance_property o (set_selector key) (some value)

-- The inner loop of `allocator`, which skips properties whose default is `nil`.
unfoldable pub copy_defaults : Bool → Dict Bytes Slot → Instance → Outcome Instance
unfolding set_instance_property set_instance_property_fast
copy_defaults fast [] o = done o
copy_defaults fast ((key, null) ∷ rest) o = copy_defaults fast rest o
copy_defaults fast ((key, object v) ∷ rest) o = set_value fast o key v >>= copy_defaults fast rest

-- The outer loop, with a round for the class and for each of its parents. Every round reads the
-- properties of the class itself.
unfoldable pub copy_all_defaults : Bool → Dict Bytes Slot → List ℕ → Instance → Outcome Instance
unfolding copy_defaults
copy_all_defaults fast properties [] o = done o
copy_all_defaults fast properties (i ∷ parents) o =
    copy_defaults fast properties o >>= copy_all_defaults fast properties parents

-- `allocator`, for the class of the shadow `i`, which is `c`. The parent's `alloc` returns an object
-- whose instance variables, `ivars`, are `nil`.
abbrev pub nil_ivars : List Bytes → Dict Bytes (Option ℕ)
nil_ivars [] = []
nil_ivars (name ∷ names) = (name, none) ∷ nil_ivars names

abbrev pub fresh_object : FsClass → List Bytes → Instance
fresh_object c ivars = record {
  isa = c.class_object;
  dictionary = if c.has_ivar_dictionary then some [] else none;
  ivars = nil_ivars ivars;
}

unfoldable pub allocator : World → ℕ → FsClass → List Bytes → Outcome Instance
unfolding copy_all_defaults
allocator w i c ivars =
    copy_all_defaults c.use_fast_ivars c.properties (chain_of w.shadows i) (fresh_object c ivars)

-- `getClassProperty` and `setClassProperty` of a registered class.
unfoldable pub get_class_property_imp : World → ℕ → Bytes → Outcome (Option ℕ)
unfolding get_class_property
get_class_property_imp w p selector = elim (class_for_pointer w p) [
  | none ↦ done none
  | some i ↦ get_class_property w.shadows (chain_of w.shadows i) selector
]

unfoldable pub set_class_property_imp : World → ℕ → Bytes → Option ℕ → Outcome World
unfolding set_class_property make_property_name_from_set_selector
set_class_property_imp w p selector value = elim (make_property_name_from_set_selector selector) [
  | none ↦ raised Exception.range_error
  | some name ↦ elim (class_for_pointer w p) [
    | none ↦ done w
    | some i ↦ set_class_property w.shadows (chain_of w.shadows i) name value >>= λ cs.
        done (record w { shadows = cs })
  ]
]
