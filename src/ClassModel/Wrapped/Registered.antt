-- ===== src/ClassModel/Wrapped/Registered.antt =====
-- The functions of FSClass/MethodImplementations.h, and the methods that `initialize` of
-- FSClass/FSClassCreation.m makes of them.
use fscript_extensions.Prelude.{
  refl, Bool, true, false, none, some, List, Bytes, codes, [], ◌∷◌, ◌≡◌, if◌then◌else◌,
}
use fscript_extensions.Dictionary.{Dict, object_for, set_object, string_key, pointer_key}

-- The functions that are declared, in this order, with `_fn` in place of the underscore.
pub data Declared : Type 0 where
  subclass_fn subclass_with_name_fn add_class_property_fn add_class_property_with_value_fn
        add_property_fn add_property_with_default_fn add_properties_with_defaults_fn
        add_properties_from_dictionary_fn default_value_for_property_fn
        set_default_value_for_property_fn on_message_do_fn on_message_name_do_fn
        on_class_message_do_fn methods_fn all_methods_fn method_names_fn all_method_names_fn
        property_names_fn all_property_names_fn block_for_selector_fn responds_to_selector_fn
        method_implementor_fn class_methods_fn class_method_names_fn all_class_methods_fn
        all_class_method_names_fn class_property_names_fn all_class_property_names_fn
        block_for_class_selector_fn responds_to_class_selector_fn class_method_implementor_fn :
      Declared

-- The selector that goes with a function's name.
abbrev pub selector_of : Declared → Bytes
selector_of subclass_fn = codes "subclass"
selector_of subclass_with_name_fn = codes "subclass:"
selector_of add_class_property_fn = codes "addClassProperty:"
selector_of add_class_property_with_value_fn = codes "addClassProperty:withValue:"
selector_of add_property_fn = codes "addProperty:"
selector_of add_property_with_default_fn = codes "addProperty:withDefault:"
selector_of add_properties_with_defaults_fn = codes "addPropertiesWithDefaults:"
selector_of add_properties_from_dictionary_fn = codes "addPropertiesFromDictionary:"
selector_of default_value_for_property_fn = codes "defaultValueForProperty:"
selector_of set_default_value_for_property_fn = codes "setDefaultValue:forProperty:"
selector_of on_message_do_fn = codes "onMessage:do:"
selector_of on_message_name_do_fn = codes "onMessageName:do:"
selector_of on_class_message_do_fn = codes "onClassMessage:do:"
selector_of methods_fn = codes "methods"
selector_of all_methods_fn = codes "allMethods"
selector_of method_names_fn = codes "methodNames"
selector_of all_method_names_fn = codes "allMethodNames"
selector_of property_names_fn = codes "propertyNames"
selector_of all_property_names_fn = codes "allPropertyNames"
selector_of block_for_selector_fn = codes "blockForSelector:"
selector_of responds_to_selector_fn = codes "respondsToSelector:"
selector_of method_implementor_fn = codes "methodImplementor:"
selector_of class_methods_fn = codes "classMethods"
selector_of class_method_names_fn = codes "classMethodNames"
selector_of all_class_methods_fn = codes "allClassMethods"
selector_of all_class_method_names_fn = codes "allClassMethodNames"
selector_of class_property_names_fn = codes "classPropertyNames"
selector_of all_class_property_names_fn = codes "allClassPropertyNames"
selector_of block_for_class_selector_fn = codes "blockForClassSelector:"
selector_of responds_to_class_selector_fn = codes "respondsToClassSelector:"
selector_of class_method_implementor_fn = codes "classMethodImplementor:"

-- The methods that `initialize` adds, in this order.
abbrev pub registrations : List (Bytes × Declared)
registrations =
    (codes "subclass", subclass_fn)
    ∷ (codes "subclass:", subclass_with_name_fn)
    ∷ (codes "addClassProperty:", add_class_property_fn)
    ∷ (codes "addClassProperty:withValue:", add_class_property_with_value_fn)
    ∷ (codes "addProperty:", add_property_fn)
    ∷ (codes "addProperty:withDefault:", add_property_with_default_fn)
    ∷ (codes "addPropertiesFromDictionary:", add_properties_from_dictionary_fn)
    ∷ (codes "addPropertiesWithDefaults:", add_properties_with_defaults_fn)
    ∷ (codes "setDefaultValue:forProperty:", set_default_value_for_property_fn)
    ∷ (codes "defaultValueForProperty:", default_value_for_property_fn)
    ∷ (codes "methods", methods_fn)
    ∷ (codes "allMethods", all_methods_fn)
    ∷ (codes "methodNames", method_names_fn)
    ∷ (codes "allMethodNames", all_method_names_fn)
    ∷ (codes "propertyNames", property_names_fn)
    ∷ (codes "allPropertyNames", all_property_names_fn)
    ∷ (codes "propertyNames", class_property_names_fn)
    ∷ (codes "blockForSelector:", block_for_selector_fn)
    ∷ (codes "methodImplementor:", method_implementor_fn)
    ∷ (codes "classMethods", class_methods_fn)
    ∷ (codes "allClassMethods", all_class_methods_fn)
    ∷ (codes "classMethodNames", class_method_names_fn)
    ∷ (codes "allClassMethodNames", all_class_method_names_fn)
    ∷ (codes "blockForClassSelector:", block_for_class_selector_fn)
    ∷ (codes "classMethodImplementor:", class_method_implementor_fn)
    ∷ (codes "onMessage:do:", on_message_do_fn)
    ∷ (codes "onMessageName:do:", on_message_name_do_fn)
    ∷ (codes "onClassMessage:do:", on_class_message_do_fn)
    ∷ []

-- `class_addMethod` of each: a method that the class already has stays.
unfoldable pub add_methods : List (Bytes × Declared) → Dict Bytes Declared → Dict Bytes Declared
add_methods [] table = table
add_methods ((selector, f) ∷ rest) table = elim (object_for selector table) [
  | none ↦ add_methods rest (set_object selector f table)
  | some _ ↦ add_methods rest table
]

-- `initialize`, as to the methods of `NSObject` itself; `table` are those that it has.
unfoldable pub initialize : Dict Bytes Declared → Dict Bytes Declared
unfolding add_methods
initialize table = add_methods registrations table

-- The functions that `initialize` makes a method of.
abbrev pub is_added : Declared → Bool
is_added class_property_names_fn = false
is_added all_class_property_names_fn = false
is_added responds_to_selector_fn = false
is_added responds_to_class_selector_fn = false
is_added f = true

-- Every function is found under its selector, but for those of the properties of classes, of which one
-- is added under the selector of another, and the two that are declared and not defined.
pub initialize-selector_of :
    (f : Declared)
    → object_for (selector_of f) (initialize []) ≡ (if is_added f then some f else none)
unfolding initialize add_methods
initialize-selector_of subclass_fn = refl
initialize-selector_of subclass_with_name_fn = refl
initialize-selector_of add_class_property_fn = refl
initialize-selector_of add_class_property_with_value_fn = refl
initialize-selector_of add_property_fn = refl
initialize-selector_of add_property_with_default_fn = refl
initialize-selector_of add_properties_with_defaults_fn = refl
initialize-selector_of add_properties_from_dictionary_fn = refl
initialize-selector_of default_value_for_property_fn = refl
initialize-selector_of set_default_value_for_property_fn = refl
initialize-selector_of on_message_do_fn = refl
initialize-selector_of on_message_name_do_fn = refl
initialize-selector_of on_class_message_do_fn = refl
initialize-selector_of methods_fn = refl
initialize-selector_of all_methods_fn = refl
initialize-selector_of method_names_fn = refl
initialize-selector_of all_method_names_fn = refl
initialize-selector_of property_names_fn = refl
initialize-selector_of all_property_names_fn = refl
initialize-selector_of block_for_selector_fn = refl
initialize-selector_of responds_to_selector_fn = refl
initialize-selector_of method_implementor_fn = refl
initialize-selector_of class_methods_fn = refl
initialize-selector_of class_method_names_fn = refl
initialize-selector_of all_class_methods_fn = refl
initialize-selector_of all_class_method_names_fn = refl
initialize-selector_of class_property_names_fn = refl
initialize-selector_of all_class_property_names_fn = refl
initialize-selector_of block_for_class_selector_fn = refl
initialize-selector_of responds_to_class_selector_fn = refl
initialize-selector_of class_method_implementor_fn = refl
