-- ===== src/ClassModel/Wrapped/Interface.antt =====
-- What FSClass/MethodImplementations.h declares, and the functions of FSClass/MethodImplementations.m
-- as those. The header declares `_respondsToSelector` and `_respondsToClassSelector` too, which no file
-- defines.
use fscript_extensions.Prelude.{ℕ, Option, List, Bytes}
use fscript_extensions.ClassModel.Methods.{Block}
use fscript_extensions.Dictionary.{Dict}
use fscript_extensions.ClassModel.Wrapped.{
  Ended, add_class_property_imp, add_class_property_with_value_imp,
  add_properties_from_dictionary_imp, add_properties_with_defaults_imp, add_property_imp,
  add_property_with_default_imp, default_value_for_property_imp, on_class_message_do_imp,
  on_message_do_imp, on_message_name_do_imp, set_default_value_for_property_imp, subclass_imp,
  subclass_with_name_imp,
}
use fscript_extensions.ClassModel.{Outcome, Slot, World}
use fscript_extensions.ClassModel.Wrapped.Reflected.{
  all_class_method_names_imp, all_class_methods_imp, all_class_property_names_imp,
  all_method_names_imp, all_methods_imp, all_property_names_imp, block_for_class_selector_imp,
  block_for_selector_imp, class_method_implementor_imp, class_method_names_imp, class_methods_imp,
  class_property_names_imp, method_implementor_imp, method_names_imp, methods_imp,
  property_names_imp,
}

-- The functions over a state `W`, by the class that receives the message.
pub record NsObjectMethods (W : Type 0) : Type 0 where
  pub subclass : W → ℕ → W × Outcome (Option ℕ)
  pub subclass_with_name : W → ℕ → Option Bytes → W × Outcome (Option ℕ)
  pub add_class_property : W → ℕ → Option Bytes → W × Outcome Ended
  pub add_class_property_with_value : W → ℕ → Option Bytes → Option ℕ → W × Outcome Ended
  pub add_property : W → ℕ → Option Bytes → W × Outcome Ended
  pub add_property_with_default : W → ℕ → Option Bytes → Option ℕ → W × Outcome Ended
  pub add_properties_with_defaults : W → ℕ → List (Option Bytes × Option ℕ) → W × Outcome Ended
  pub add_properties_from_dictionary : W → ℕ → Dict Bytes Slot → W × Outcome Ended
  pub default_value_for_property : W → ℕ → Bytes → W × Outcome (Option ℕ)
  pub set_default_value_for_property : W → ℕ → Option ℕ → Bytes → W × Outcome Ended
  pub on_message_do : W → ℕ → Bytes → Option Block → W × Outcome Ended
  pub on_message_name_do : W → ℕ → Bytes → Option Block → W × Outcome Ended
  pub on_class_message_do : W → ℕ → Bytes → Option Block → W × Outcome Ended

-- The reflection functions for instances and for classes.
pub record NsObjectReflection (W : Type 0) : Type 0 where
  pub methods : W → ℕ → W × Outcome (Option (List Bytes))
  pub all_methods : W → ℕ → W × Outcome (Option (List Bytes))
  pub method_names : W → ℕ → W × Outcome (Option (List Bytes))
  pub all_method_names : W → ℕ → W × Outcome (Option (List Bytes))
  pub property_names : W → ℕ → W × Outcome (Option (List Bytes))
  pub all_property_names : W → ℕ → W × Outcome (Option (List Bytes))
  pub block_for_selector : W → ℕ → Bytes → W × Outcome (Option ℕ)
  pub method_implementor : W → ℕ → Bytes → W × Outcome (Option ℕ)
  pub class_methods : W → ℕ → W × Outcome (Option (List Bytes))
  pub class_method_names : W → ℕ → W × Outcome (Option (List Bytes))
  pub all_class_methods : W → ℕ → W × Outcome (Option (List Bytes))
  pub all_class_method_names : W → ℕ → W × Outcome (Option (List Bytes))
  pub class_property_names : W → ℕ → W × Outcome (Option (List Bytes))
  pub all_class_property_names : W → ℕ → W × Outcome (Option (List Bytes))
  pub block_for_class_selector : W → ℕ → Bytes → W × Outcome (Option ℕ)
  pub class_method_implementor : W → ℕ → Bytes → W × Outcome (Option ℕ)

-- `fs_class` is the number of the class `FSClass`, and `max_args` is `TRAMPOLINE_MAX_ARG_COUNT`.
unfoldable pub ns_object_methods : ℕ → ℕ → NsObjectMethods World
ns_object_methods fs_class max_args = record {
  subclass = subclass_imp fs_class;
  subclass_with_name = subclass_with_name_imp fs_class;
  add_class_property = add_class_property_imp;
  add_class_property_with_value = add_class_property_with_value_imp;
  add_property = add_property_imp;
  add_property_with_default = add_property_with_default_imp;
  add_properties_with_defaults = add_properties_with_defaults_imp;
  add_properties_from_dictionary = add_properties_from_dictionary_imp;
  default_value_for_property = default_value_for_property_imp;
  set_default_value_for_property = set_default_value_for_property_imp;
  on_message_do = on_message_do_imp max_args;
  on_message_name_do = on_message_name_do_imp max_args;
  on_class_message_do = on_class_message_do_imp max_args;
}

unfoldable pub ns_object_reflection : NsObjectReflection World
ns_object_reflection = record {
  methods = methods_imp;
  all_methods = all_methods_imp;
  method_names = method_names_imp;
  all_method_names = all_method_names_imp;
  property_names = property_names_imp;
  all_property_names = all_property_names_imp;
  block_for_selector = block_for_selector_imp;
  method_implementor = method_implementor_imp;
  class_methods = class_methods_imp;
  class_method_names = class_method_names_imp;
  all_class_methods = all_class_methods_imp;
  all_class_method_names = all_class_method_names_imp;
  class_property_names = class_property_names_imp;
  all_class_property_names = all_class_property_names_imp;
  block_for_class_selector = block_for_class_selector_imp;
  class_method_implementor = class_method_implementor_imp;
}
