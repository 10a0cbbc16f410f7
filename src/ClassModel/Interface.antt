-- ===== src/ClassModel/Interface.antt =====
-- What the headers of the class model declare: FSClass/FSClass.h, FSClass/FSClassCreation.h,
-- FSClass/Callbacks.h, FSClass/Functions.h and FSClass/FSClassStringUtil.h. The states are `W`, and
-- shadows and classes have numbers.
pub mod Filled
use fscript_extensions.Prelude.{ℕ, Bool, Option, List, Bytes}
use fscript_extensions.ClassModel.Creation.{AnyObject}
use fscript_extensions.ClassModel.Methods.{Block}
use fscript_extensions.ClassModel.Super.{Call}
use fscript_extensions.Dictionary.{Dict}
use fscript_extensions.ClassModel.{Exception, Imp, Outcome, Slot}
use fscript_extensions.PropertyName.{Reason}

-- The initialisers of FSClass/FSClass.h. `C` is a shadow that is not registered.
pub record Initializers (W C : Type 0) : Type 0 where
  pub init : Bytes → C
  pub init_new_class : W → Option Bytes → AnyObject → List Bytes → Outcome (W × ℕ)
  pub init_fast_ivars_class :
      W → Option Bytes → AnyObject → Option (Dict Bytes Slot) → Outcome (W × ℕ)
  pub init_regular_ivars_class : W → Option Bytes → AnyObject → Outcome (W × ℕ)
  pub init_proxy_class : W → AnyObject → Outcome (W × ℕ)

-- The methods of a shadow that add methods and properties, and make subclasses; the shadow is given by
-- its number.
pub record Additions (W : Type 0) : Type 0 where
  pub on_message_do : W → ℕ → Bytes → Option Block → Outcome W
  pub on_message_name_do : W → ℕ → Bytes → Option Block → Outcome W
  pub add_property : W → ℕ → Option Bytes → Outcome W
  pub add_property_with_default : W → ℕ → Option Bytes → Option ℕ → Outcome W
  pub add_properties_with_defaults : W → ℕ → List (Option Bytes × Option ℕ) → W × Option Exception
  pub add_properties_from_dictionary : W → ℕ → Dict Bytes Slot → W × Option Exception
  pub default_value_for_property : W → ℕ → Bytes → Outcome (Option ℕ)
  pub set_default_value_for_property : W → ℕ → Option ℕ → Bytes → Outcome W
  pub on_class_message_do : W → ℕ → Bytes → Option Block → Outcome W
  pub add_class_property_with_value : W → ℕ → Option Bytes → Option ℕ → Outcome W
  pub add_class_property : W → ℕ → Option Bytes → Outcome W
  pub subclass : W → ℕ → Outcome (W × Option ℕ)
  pub subclass_named : W → ℕ → Option Bytes → Outcome (W × Option ℕ)

-- The reflection methods of a shadow.
pub record Reflection (W : Type 0) : Type 0 where
  pub methods : W → ℕ → List Bytes
  pub all_methods : W → ℕ → List Bytes
  pub method_names : W → ℕ → List Bytes
  pub all_method_names : W → ℕ → List Bytes
  pub property_names : W → ℕ → List Bytes
  pub all_property_names : W → ℕ → List Bytes
  pub method_implementor : W → ℕ → Bytes → Option ℕ
  pub block_for_selector : W → ℕ → Bytes → Option ℕ
  pub class_methods : W → ℕ → List Bytes
  pub all_class_methods : W → ℕ → List Bytes
  pub class_method_names : W → ℕ → List Bytes
  pub all_class_method_names : W → ℕ → List Bytes
  pub class_property_names : W → ℕ → List Bytes
  pub all_class_property_names : W → ℕ → List Bytes
  pub class_method_implementor : W → ℕ → Bytes → Option ℕ
  pub block_for_class_selector : W → ℕ → Bytes → Option ℕ

-- The private methods of a shadow.
pub record PrivateMethods (W : Type 0) : Type 0 where
  pub install_method : W → ℕ → Imp → Bool → Bytes → Bool → W
  pub has_property : W → ℕ → Bytes → Bool
  pub has_class_property : W → ℕ → Bytes → Bool
  pub get_class_property : W → ℕ → Bytes → Outcome (Option ℕ)
  pub set_class_property : W → ℕ → Bytes → Option ℕ → Outcome W

-- The methods of the class `FSClass` that make classes, convert selectors and look shadows up.
pub record ClassCreation (W C : Type 0) : Type 0 where
  pub new_class : W → W × Outcome (Option ℕ)
  pub new_class_named : W → Option Bytes → Outcome (W × Option ℕ)
  pub new_class_with_parent : W → AnyObject → W × Outcome (Option ℕ)
  pub new_class_parent : W → Option Bytes → AnyObject → Outcome (W × Option ℕ)
  pub new_class_properties : W → Option Bytes → Option (List Bytes) → Outcome (W × Option ℕ)
  pub new_class_parent_properties :
      W → Option Bytes → AnyObject → Option (List Bytes) → Outcome (W × Option ℕ)
  pub new_class_defaults : W → Option Bytes → Option (Dict Bytes Slot) → Outcome (W × Option ℕ)
  pub new_class_parent_defaults :
      W → Option Bytes → AnyObject → Option (Dict Bytes Slot) → Outcome (W × Option ℕ)
  pub string_from_selector : Bytes → Bytes
  pub selector_from_string : Bytes → Outcome Bytes
  pub get_class : W → Bytes → Option ℕ
  pub register_class : C → W → W
  pub definition_for_class : W → Bytes → Option ℕ
  pub shadow_for_class : W → ℕ → Outcome (W × Option ℕ)
  pub class_for_name : W → Bytes → Outcome (W × Option ℕ)
  pub class_for_pointer : W → ℕ → Option ℕ
  pub get_anonymous_class_name : W → W × Bytes
  pub create_new_class : W → Bytes → ℕ → Bool → List Bytes → Outcome (W × ℕ)

-- The functions of FSClass/Callbacks.h for properties, on objects `O`. `allocator` is given the
-- variables of an object that the parent's `alloc` returns; it is nothing where it calls a null pointer.
pub record PropertyCallbacks (W O : Type 0) : Type 0 where
  pub allocator : W → ℕ → List Bytes → Option (Outcome O)
  pub get_instance_property : W → O → Bytes → Outcome (O × Option ℕ)
  pub set_instance_property : O → Bytes → Option ℕ → Outcome O
  pub get_instance_property_fast : O → Bytes → Outcome (Option ℕ)
  pub set_instance_property_fast : O → Bytes → Option ℕ → Outcome O
  pub get_class_property : W → ℕ → Bytes → Outcome (Option ℕ)
  pub set_class_property : W → ℕ → Bytes → Option ℕ → Outcome W

-- The functions of FSClass/Callbacks.h that run methods, `runInstanceMethodArgs0` and so on, and
-- `runClassMethodArgs0` and so on, each as one function of its list of arguments.
pub record MethodCallbacks (W : Type 0) : Type 0 where
  pub run_instance_method : W → ℕ → ℕ → Bytes → List ℕ → Call
  pub run_class_method : W → ℕ → ℕ → Bytes → List ℕ → Call

-- Those for calls of superclasses' methods, `superMethod0` to `classSuperMethodMulti`.
pub record SuperCallbacks (W : Type 0) : Type 0 where
  pub super_method : W → ℕ → ℕ → Bytes → List ℕ → Outcome Call
  pub class_super_method : W → ℕ → ℕ → Bytes → List ℕ → Outcome Call
  pub super_method_multi : W → ℕ → ℕ → ℕ → Bytes → List ℕ → Outcome Call
  pub class_super_method_multi : W → ℕ → ℕ → ℕ → Bytes → List ℕ → Outcome Call

-- The functions of FSClass/Functions.h on selectors and names, and `NSString (FSClassStringUtil)`.
pub record SelectorFunctions : Type 0 where
  pub create_method_signature : ℕ → Option (Bytes × Bool)
  pub is_legit_selector : Bytes → Bool
  pub is_legit_property_name : Option Bytes → (Bytes → Bool) → Option Reason
  pub get_selector_parameter_count : Bytes → ℕ

pub record SetSelectorFunction : Type 0 where
  pub make_property_name_from_set_selector : Bytes → Option Bytes

pub record StringUtil : Type 0 where
  pub uppercase_first : Bytes → Bytes
  pub lowercase_first : Bytes → Bytes
