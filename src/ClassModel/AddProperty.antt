-- ===== src/ClassModel/AddProperty.antt =====
-- Adding properties to classes: `addProperty:withDefault:`, `addClassProperty:withValue:`,
-- `addPropertiesWithDefaults:` and `addPropertiesFromDictionary:` of FSClass/FSClass.m. The name is
-- nothing for an object that is no string.
pub mod Defaults
use fscript_extensions.Prelude.{
  ℕ, Bool, true, false, Option, none, some, List, get_elem?, Bytes, [], ◌∷◌, if◌then◌else◌,
}
use fscript_extensions.Dictionary.{Dict, object_for, string_key, pointer_key}
use fscript_extensions.ClassModel.{
  Exception, FsClass, Imp, Outcome, Slot, World, chain_of, done, raised, slot_of, slot_value,
}
use fscript_extensions.PropertyName.{check_property_name, set_selector}
use fscript_extensions.Trampoline.I386.{getter}
use fscript_extensions.ClassModel.ClassProperties.{has_class_property, write_class_slot}
use fscript_extensions.ClassModel.Properties.{has_property, write_property_slot}
use fscript_extensions.ClassModel.Methods.{install_method}

abbrev pub has_slot : Dict Bytes Slot → Bytes → Bool
has_slot table name = elim (object_for name table) [ some _ ↦ true | none ↦ false ]

-- The accessor and the mutator of a property.
abbrev pub install_accessors : World → ℕ → FsClass → Imp → Imp → Bool → Bytes → World
install_accessors w i c getter setter instance_method name =
    install_method (install_method w i c getter instance_method name false) i c setter
      instance_method (set_selector name) false

-- `addProperty:withDefault:` of the shadow `i`, which is `c`.
unfoldable pub add_property : World → ℕ → FsClass → Option Bytes → Option ℕ → Outcome World
unfolding check_property_name has_property install_method set_selector
add_property w i c name value =
    if c.is_objective_c
    then raised Exception.objective_c_class
    else if c.use_fast_ivars
    then raised Exception.fast_ivars_class
    else elim (check_property_name name (has_slot c.properties)) [
      | some _ ↦ raised Exception.bad_property_name
      | none ↦ elim name [
        | none ↦ raised Exception.bad_property_name
        | some s ↦
            if has_property w.shadows (chain_of w.shadows i) s
            then raised Exception.property_in_use
            else done (
                install_accessors
                  (record w { shadows = write_property_slot i s (slot_of value) w.shadows }) i c
                  Imp.get_instance_property Imp.set_instance_property true s)
      ]
    ]

-- `addClassProperty:withValue:` of the shadow `i`, which is `c`.
unfoldable pub add_class_property : World → ℕ → FsClass → Option Bytes → Option ℕ → Outcome World
unfolding check_property_name has_class_property install_method set_selector
add_class_property w i c name value =
    elim (check_property_name name (has_slot c.class_properties)) [
      | some _ ↦ raised Exception.bad_class_property_name
      | none ↦ elim name [
        | none ↦ raised Exception.bad_class_property_name
        | some s ↦
            if has_class_property w.shadows (chain_of w.shadows i) s
            then raised Exception.property_in_use
            else done (
                install_accessors
                  (record w { shadows = write_class_slot i s (slot_of value) w.shadows }) i c
                  Imp.get_class_property Imp.set_class_property false s)
      ]
    ]

-- A loop that may be ended by an exception: the state that it leaves, and the exception.
abbrev pub Progress : Type 0
Progress = World × Option Exception

abbrev pub add_one : World → ℕ → Option Bytes → Option ℕ → Outcome World
add_one w i name value = elim (get_elem? w.shadows i) [
  | none ↦ done w
  | some c ↦ add_property w i c name value
]

-- `addPropertiesWithDefaults:`; an element is a name, if it is a string, and a value.
unfoldable pub add_properties_with_defaults : World → ℕ → List (Option Bytes × Option ℕ) → Progress
unfolding add_property
add_properties_with_defaults w i [] = (w, none)
add_properties_with_defaults w i (a ∷ []) = (w, some Exception.range_error)
add_properties_with_defaults w i (a ∷ b ∷ rest) = elim (add_one w i a.0 b.1) [
  | raised e ↦ (w, some e)
  | done new ↦ add_properties_with_defaults new i rest
]

-- `addPropertiesFromDictionary:`
unfoldable pub add_properties_from_dictionary : World → ℕ → Dict Bytes Slot → Progress
unfolding add_property
add_properties_from_dictionary w i [] = (w, none)
add_properties_from_dictionary w i ((name, slot) ∷ rest) =
    elim (add_one w i (some name) (slot_value slot)) [
      | raised e ↦ (w, some e)
      | done new ↦ add_properties_from_dictionary new i rest
    ]
