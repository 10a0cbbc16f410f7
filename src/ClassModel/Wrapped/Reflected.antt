-- ===== src/ClassModel/Wrapped/Reflected.antt =====
-- The reflection functions of FSClass/MethodImplementations.m. An answer that is nothing is `nil`; a
-- block made by `blockWithSelector:` is given by its selector.
use fscript_extensions.Prelude.{ℕ, Option, none, some, List, Bytes}
use fscript_extensions.ClassModel.{FsClass, World, chain_of}
use fscript_extensions.ClassModel.Wrapped.{Reply, reading, to_shadow}
use fscript_extensions.ClassModel.Introspection.{
  all_class_method_names, all_class_property_names, all_method_names, all_property_names,
  block_for_class_selector, block_for_selector, class_method_implementor, class_method_names,
  class_methods, class_property_names, method_implementor, method_names, property_names,
}

-- An answer of the shadow alone, and one that follows its parents.
abbrev pub own {ℓ} : {A : Type ℓ} → (List FsClass → ℕ → A) → World → ℕ → FsClass → Reply (Option A)
own f = reading (λ v i c. some (f v.shadows i))

abbrev pub inherited {ℓ} :
    {A : Type ℓ} → (List FsClass → List ℕ → A) → World → ℕ → FsClass → Reply (Option A)
inherited f = reading (λ v i c. some (f v.shadows (chain_of v.shadows i)))

abbrev pub Names : Type 0
Names = Reply (Option (List Bytes))

-- `_methods`, `_allMethods`, `_methodNames`, `_allMethodNames`
unfoldable pub methods_imp : World → ℕ → Names
unfolding to_shadow method_names
methods_imp w p = to_shadow w p none (own method_names)

unfoldable pub all_methods_imp : World → ℕ → Names
unfolding to_shadow all_method_names
all_methods_imp w p = to_shadow w p none (inherited all_method_names)

unfoldable pub method_names_imp : World → ℕ → Names
unfolding to_shadow method_names
method_names_imp w p = to_shadow w p none (own method_names)

unfoldable pub all_method_names_imp : World → ℕ → Names
unfolding to_shadow all_method_names
all_method_names_imp w p = to_shadow w p none (inherited all_method_names)

-- `_propertyNames`, `_allPropertyNames`
unfoldable pub property_names_imp : World → ℕ → Names
unfolding to_shadow property_names
property_names_imp w p = to_shadow w p none (own property_names)

unfoldable pub all_property_names_imp : World → ℕ → Names
unfolding to_shadow all_property_names
all_property_names_imp w p = to_shadow w p none (inherited all_property_names)

-- `_blockForSelector`, `_methodImplementor`
unfoldable pub block_for_selector_imp : World → ℕ → Bytes → Reply (Option ℕ)
unfolding to_shadow block_for_selector
block_for_selector_imp w p message =
    to_shadow w p none
      (reading (λ v i c. block_for_selector v.shadows (chain_of v.shadows i) message))

unfoldable pub method_implementor_imp : World → ℕ → Bytes → Reply (Option ℕ)
unfolding to_shadow method_implementor
method_implementor_imp w p message =
    to_shadow w p none
      (reading (λ v i c. method_implementor v.shadows (chain_of v.shadows i) message))

-- `_classMethods`, `_classMethodNames`, `_allClassMethods`, `_allClassMethodNames`
unfoldable pub class_methods_imp : World → ℕ → Names
unfolding to_shadow class_methods
class_methods_imp w p = to_shadow w p none (own class_methods)

unfoldable pub class_method_names_imp : World → ℕ → Names
unfolding to_shadow class_method_names
class_method_names_imp w p = to_shadow w p none (own class_method_names)

unfoldable pub all_class_methods_imp : World → ℕ → Names
unfolding to_shadow all_class_method_names
all_class_methods_imp w p = to_shadow w p none (inherited all_class_method_names)

unfoldable pub all_class_method_names_imp : World → ℕ → Names
unfolding to_shadow all_class_method_names
all_class_method_names_imp w p = to_shadow w p none (inherited all_class_method_names)

-- `_classPropertyNames`, `_allClassPropertyNames`
unfoldable pub class_property_names_imp : World → ℕ → Names
unfolding to_shadow class_property_names
class_property_names_imp w p = to_shadow w p none (own class_property_names)

unfoldable pub all_class_property_names_imp : World → ℕ → Names
unfolding to_shadow all_class_property_names
all_class_property_names_imp w p = to_shadow w p none (inherited all_class_property_names)

-- `_blockForClassSelector`, `_classMethodImplementor`
unfoldable pub block_for_class_selector_imp : World → ℕ → Bytes → Reply (Option ℕ)
unfolding to_shadow block_for_class_selector
block_for_class_selector_imp w p message =
    to_shadow w p none (reading (λ v i c. block_for_class_selector v.shadows i message))

unfoldable pub class_method_implementor_imp : World → ℕ → Bytes → Reply (Option ℕ)
unfolding to_shadow class_method_implementor
class_method_implementor_imp w p message =
    to_shadow w p none
      (reading (λ v i c. class_method_implementor v.shadows (chain_of v.shadows i) message))
