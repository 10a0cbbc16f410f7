-- ===== src/ClassModel/Wrapped.antt =====
-- The functions of FSClass/MethodImplementations.m, which `initialize` of FSClass/FSClassCreation.m adds
-- to the class `NSObject`: each sends its message to the shadow of the receiver, which is made on demand.
pub mod Reflected
pub mod Again
pub mod Added
pub mod Registered
pub mod Interface
use fscript_extensions.Prelude.{ℕ, true, false, Option, none, some, List, get_elem?, Bytes}
use fscript_extensions.ClassModel.Methods.{Block, on_message, on_message_name}
use fscript_extensions.Dictionary.{Dict}
use fscript_extensions.ClassModel.{FsClass, Outcome, Slot, World, chain_of, done, raised, ◌>>=◌}
use fscript_extensions.ClassModel.AddProperty.{
  Progress, add_class_property, add_properties_from_dictionary, add_properties_with_defaults,
  add_property,
}
use fscript_extensions.ClassModel.Properties.{default_value_for_property, set_default_value}
use fscript_extensions.ClassModel.Creation.{shadow_for_class}
use fscript_extensions.ClassModel.Creation.Subclass.{subclass, subclass_named}

-- What a message answers, with the state behind it, also behind an exception.
abbrev pub Reply {ℓ} : Type ℓ → Type ℓ
Reply A = World × Outcome A

-- The answer of a method without a result.
pub data Ended : Type 0 where
  ended : Ended

-- `[[FSClass shadowForClass:thisClass] …]`; `nil` answers `idle` to every message.
unfoldable pub to_shadow {ℓ} :
    {A : Type ℓ} → World → ℕ → A → (World → ℕ → FsClass → Reply A) → Reply A
unfolding shadow_for_class
to_shadow w p idle message = elim (shadow_for_class w p) [
  | raised e ↦ (w, raised e)
  | done r ↦ elim r.1 [
    | none ↦ (r.0, done idle)
    | some i ↦ elim (get_elem? r.0.shadows i) [ none ↦ (r.0, done idle) | some c ↦ message r.0 i c ]
  ]
]

-- The replies of methods that change nothing, that raise an exception before they change anything,
-- and that may be ended in a loop.
abbrev pub reading {ℓ} : {A : Type ℓ} → (World → ℕ → FsClass → A) → World → ℕ → FsClass → Reply A
reading f w i c = (w, done (f w i c))

abbrev pub changed : World → Outcome World → Reply Ended
changed w (raised e) = (w, raised e)
changed w (done new) = (new, done ended)

abbrev pub with_answer {ℓ} : {A : Type ℓ} → World → Outcome (World × A) → Reply A
with_answer w (raised e) = (w, raised e)
with_answer w (done r) = (r.0, done r.1)

abbrev pub progressed : Progress → Reply Ended
progressed (w, none) = (w, done ended)
progressed (w, some e) = (w, raised e)

-- `_subclass` and `_subclassWithName`; `fs_class` is the number of the class `FSClass`.
unfoldable pub subclass_imp : ℕ → World → ℕ → Reply (Option ℕ)
unfolding to_shadow subclass
subclass_imp fs_class w p = to_shadow w p none (λ v i c. with_answer v (subclass v fs_class))

unfoldable pub subclass_with_name_imp : ℕ → World → ℕ → Option Bytes → Reply (Option ℕ)
unfolding to_shadow subclass_named
subclass_with_name_imp fs_class w p name =
    to_shadow w p none (λ v i c. with_answer v (subclass_named v fs_class name))

-- `_addClassPropertyWithValue` and `_addClassProperty`, as `addClassProperty:` passes `nil`.
unfoldable pub add_class_property_with_value_imp : World → ℕ → Option Bytes → Option ℕ → Reply Ended
unfolding to_shadow add_class_property
add_class_property_with_value_imp w p name value =
    to_shadow w p ended (λ v i c. changed v (add_class_property v i c name value))

unfoldable pub add_class_property_imp : World → ℕ → Option Bytes → Reply Ended
unfolding add_class_property_with_value_imp
add_class_property_imp w p name = add_class_property_with_value_imp w p name none

-- `_addPropertyWithDefault` and `_addProperty`
unfoldable pub add_property_with_default_imp : World → ℕ → Option Bytes → Option ℕ → Reply Ended
unfolding to_shadow add_property
add_property_with_default_imp w p name value =
    to_shadow w p ended (λ v i c. changed v (add_property v i c name value))

unfoldable pub add_property_imp : World → ℕ → Option Bytes → Reply Ended
unfolding add_property_with_default_imp
add_property_imp w p name = add_property_with_default_imp w p name none

-- `_addPropertiesWithDefaults` and `_addPropertiesFromDictionary`
unfoldable pub add_properties_with_defaults_imp :
    World → ℕ → List (Option Bytes × Option ℕ) → Reply Ended
unfolding to_shadow add_properties_with_defaults
add_properties_with_defaults_imp w p pairs =
    to_shadow w p ended (λ v i c. progressed (add_properties_with_defaults v i pairs))

unfoldable pub add_properties_from_dictionary_imp : World → ℕ → Dict Bytes Slot → Reply Ended
unfolding to_shadow add_properties_from_dictionary
add_properties_from_dictionary_imp w p table =
    to_shadow w p ended (λ v i c. progressed (add_properties_from_dictionary v i table))

-- `_defaultValueForProperty` and `_setDefaultValueForProperty`
unfoldable pub default_value_for_property_imp : World → ℕ → Bytes → Reply (Option ℕ)
unfolding to_shadow default_value_for_property
default_value_for_property_imp w p name =
    to_shadow w p none
      (λ v i c. (v, default_value_for_property v.shadows (chain_of v.shadows i) name))

unfoldable pub set_default_value_for_property_imp : World → ℕ → Option ℕ → Bytes → Reply Ended
unfolding to_shadow set_default_value
set_default_value_for_property_imp w p new_default name = to_shadow w p ended (λ v i c.
    changed v
      (set_default_value v.shadows i new_default name >>= λ cs. done (record v { shadows = cs })))

-- `_onMessageDo`, `_onMessageNameDo` and `_onClassMessageDo`
unfoldable pub on_message_do_imp : ℕ → World → ℕ → Bytes → Option Block → Reply Ended
unfolding to_shadow on_message
on_message_do_imp max_args w p message block =
    to_shadow w p ended (λ v i c. changed v (on_message max_args v i c message block true))

unfoldable pub on_message_name_do_imp : ℕ → World → ℕ → Bytes → Option Block → Reply Ended
unfolding to_shadow on_message_name
on_message_name_do_imp max_args w p name block =
    to_shadow w p ended (λ v i c. changed v (on_message_name max_args v i c name block))

unfoldable pub on_class_message_do_imp : ℕ → World → ℕ → Bytes → Option Block → Reply Ended
unfolding to_shadow on_message
on_class_message_do_imp max_args w p message block =
    to_shadow w p ended (λ v i c. changed v (on_message max_args v i c message block false))
