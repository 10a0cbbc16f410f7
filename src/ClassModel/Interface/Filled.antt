-- ===== src/ClassModel/Interface/Filled.antt =====
-- The class model as what its headers declare. `fs_class` and `ns_object` are the numbers of the classes
-- `FSClass` and `NSObject`, and `max_args` is `TRAMPOLINE_MAX_ARG_COUNT`.
use fscript_extensions.Prelude.{ℕ, true, false, none, some, get_elem?}
use fscript_extensions.ClassModel.Interface.{
  Additions, ClassCreation, Initializers, MethodCallbacks, PrivateMethods, PropertyCallbacks,
  Reflection, SelectorFunctions, SetSelectorFunction, StringUtil, SuperCallbacks,
}
use fscript_extensions.ClassModel.{FsClass, World, chain_of, done, ◌>>=◌}
use fscript_extensions.ClassModel.Instances.{
  Instance, allocator, get_class_property_imp, get_instance_property, get_instance_property_fast,
  set_class_property_imp, set_instance_property, set_instance_property_fast,
}
use fscript_extensions.ClassModel.AddProperty.{
  add_class_property, add_properties_from_dictionary, add_properties_with_defaults, add_property,
}
use fscript_extensions.ClassModel.Introspection.{
  all_class_method_names, all_class_property_names, all_method_names, all_property_names,
  block_for_class_selector, block_for_selector, class_method_implementor, class_method_names,
  class_methods, class_property_names, method_implementor, method_names, property_names,
}
use fscript_extensions.PropertyName.{
  check_property_name, lowercase_first, make_property_name_from_set_selector, uppercase_first,
}
use fscript_extensions.ClassModel.Creation.{
  class_for_name, class_for_pointer, class_id, create_new_class, init, init_new_class,
  init_proxy_class, init_regular_ivars_class, new_class, register_class, shadow_for_class,
}
use fscript_extensions.Selector.{
  create_method_signature, get_selector_parameter_count, is_legit_selector,
}
use fscript_extensions.ClassModel.Properties.{
  default_value_for_property, has_property, set_default_value,
}
use fscript_extensions.ClassModel.Anonymous.{
  get_anonymous_class_name, get_class, new_anonymous_class, new_class_with_parent,
  selector_from_string, string_from_selector,
}
use fscript_extensions.ClassModel.ClassProperties.{
  get_class_property, has_class_property, set_class_property,
}
use fscript_extensions.ClassModel.FastClasses.{
  init_fast_ivars_class, new_class_with_defaults, new_class_with_properties,
}
use fscript_extensions.ClassModel.Methods.{install_method, on_message, on_message_name}
use fscript_extensions.Dictionary.{object_for, string_key, pointer_key}
use fscript_extensions.ClassModel.Super.{
  run_class_method, run_instance_method, super_method, super_method_multi,
}
use fscript_extensions.ClassModel.Creation.Subclass.{subclass, subclass_named}

unfoldable pub initializers : Initializers World FsClass
unfolding init init_new_class init_fast_ivars_class init_regular_ivars_class init_proxy_class
initializers = record {
  init = init;
  init_new_class = init_new_class;
  init_fast_ivars_class = init_fast_ivars_class;
  init_regular_ivars_class = init_regular_ivars_class;
  init_proxy_class = init_proxy_class;
}

-- A message to a shadow; none is sent to a number that is no shadow.
abbrev pub at_shadow {ℓ} : {A : Type ℓ} → A → World → ℕ → (FsClass → A) → A
at_shadow idle w i message = elim (get_elem? w.shadows i) [ none ↦ idle | some c ↦ message c ]

unfoldable pub additions : ℕ → ℕ → Additions World
unfolding on_message on_message_name add_properties_with_defaults add_properties_from_dictionary
    default_value_for_property set_default_value add_class_property add_property subclass
    subclass_named
additions fs_class max_args = record {
  on_message_do = λ w i message block.
      at_shadow (done w) w i (λ c. on_message max_args w i c message block true);
  on_message_name_do =
      λ w i name block. at_shadow (done w) w i (λ c. on_message_name max_args w i c name block);
  add_property = λ w i name. at_shadow (done w) w i (λ c. add_property w i c name none);
  add_property_with_default =
      λ w i name value. at_shadow (done w) w i (λ c. add_property w i c name value);
  add_properties_with_defaults = add_properties_with_defaults;
  add_properties_from_dictionary = add_properties_from_dictionary;
  default_value_for_property =
      λ w i name. default_value_for_property w.shadows (chain_of w.shadows i) name;
  set_default_value_for_property = λ w i value name.
      set_default_value w.shadows i value name >>= λ cs. done (record w { shadows = cs });
  on_class_message_do = λ w i message block.
      at_shadow (done w) w i (λ c. on_message max_args w i c message block false);
  add_class_property_with_value =
      λ w i name value. at_shadow (done w) w i (λ c. add_class_property w i c name value);
  add_class_property = λ w i name. at_shadow (done w) w i (λ c. add_class_property w i c name none);
  subclass = λ w i. subclass w fs_class;
  subclass_named = λ w i name. subclass_named w fs_class name;
}

unfoldable pub reflection : Reflection World
unfolding method_names all_method_names property_names all_property_names method_implementor
    block_for_selector class_methods class_method_names all_class_method_names class_property_names
    all_class_property_names class_method_implementor block_for_class_selector
reflection = record {
  methods = λ w i. method_names w.shadows i;
  all_methods = λ w i. all_method_names w.shadows (chain_of w.shadows i);
  method_names = λ w i. method_names w.shadows i;
  all_method_names = λ w i. all_method_names w.shadows (chain_of w.shadows i);
  property_names = λ w i. property_names w.shadows i;
  all_property_names = λ w i. all_property_names w.shadows (chain_of w.shadows i);
  method_implementor = λ w i s. method_implementor w.shadows (chain_of w.shadows i) s;
  block_for_selector = λ w i s. block_for_selector w.shadows (chain_of w.shadows i) s;
  class_methods = λ w i. class_methods w.shadows i;
  all_class_methods = λ w i. all_class_method_names w.shadows (chain_of w.shadows i);
  class_method_names = λ w i. class_method_names w.shadows i;
  all_class_method_names = λ w i. all_class_method_names w.shadows (chain_of w.shadows i);
  class_property_names = λ w i. class_property_names w.shadows i;
  all_class_property_names = λ w i. all_class_property_names w.shadows (chain_of w.shadows i);
  class_method_implementor = λ w i s. class_method_implementor w.shadows (chain_of w.shadows i) s;
  block_for_class_selector = λ w i s. block_for_class_selector w.shadows i s;
}

unfoldable pub private_methods : PrivateMethods World
unfolding install_method has_property has_class_property get_class_property set_class_property
private_methods = record {
  install_method = λ w i imp instance_method selector uses_trampoline.
      at_shadow w w i (λ c. install_method w i c imp instance_method selector uses_trampoline);
  has_property = λ w i name. has_property w.shadows (chain_of w.shadows i) name;
  has_class_property = λ w i name. has_class_property w.shadows (chain_of w.shadows i) name;
  get_class_property = λ w i name. get_class_property w.shadows (chain_of w.shadows i) name;
  set_class_property = λ w i name value.
      set_class_property w.shadows (chain_of w.shadows i) name value >>= λ cs.
      done (record w { shadows = cs });
}

unfoldable pub class_creation : ℕ → ClassCreation World FsClass
unfolding new_anonymous_class new_class new_class_with_parent new_class_with_properties
    new_class_with_defaults string_from_selector selector_from_string get_class register_class
    shadow_for_class class_for_name get_anonymous_class_name create_new_class
class_creation ns_object = record {
  new_class = λ w. new_anonymous_class w ns_object;
  new_class_named = λ w name. new_class w name (class_id ns_object);
  new_class_with_parent = new_class_with_parent;
  new_class_parent = new_class;
  new_class_properties =
      λ w name ivars. new_class_with_properties w name (class_id ns_object) ivars;
  new_class_parent_properties = new_class_with_properties;
  new_class_defaults = λ w name ivars. new_class_with_defaults w name (class_id ns_object) ivars;
  new_class_parent_defaults = new_class_with_defaults;
  string_from_selector = string_from_selector;
  selector_from_string = selector_from_string;
  get_class = get_class;
  register_class = register_class;
  definition_for_class = λ w name. object_for name w.class_definitions;
  shadow_for_class = shadow_for_class;
  class_for_name = class_for_name;
  class_for_pointer = class_for_pointer;
  get_anonymous_class_name = get_anonymous_class_name;
  create_new_class = create_new_class;
}

-- A class that is not registered has no shadow to give its parent's `alloc`.
unfoldable pub property_callbacks : PropertyCallbacks World Instance
unfolding allocator get_instance_property set_instance_property get_instance_property_fast
    set_instance_property_fast get_class_property_imp set_class_property_imp
property_callbacks = record {
  allocator = λ w p ivars. elim (class_for_pointer w p) [
    | none ↦ none
    | some i ↦ at_shadow none w i (λ c. some (allocator w i c ivars))
  ];
  get_instance_property = get_instance_property;
  set_instance_property = set_instance_property;
  get_instance_property_fast = get_instance_property_fast;
  set_instance_property_fast = set_instance_property_fast;
  get_class_property = get_class_property_imp;
  set_class_property = set_class_property_imp;
}

unfoldable pub method_callbacks : MethodCallbacks World
unfolding run_instance_method run_class_method
method_callbacks = record {
  run_instance_method = run_instance_method;
  run_class_method = run_class_method;
}

unfoldable pub super_callbacks : ℕ → SuperCallbacks World
unfolding super_method super_method_multi
super_callbacks max_args = record {
  super_method = super_method;
  class_super_method = super_method;
  super_method_multi = super_method_multi max_args true;
  class_super_method_multi = super_method_multi max_args false;
}

unfoldable pub selector_functions : SelectorFunctions
unfolding create_method_signature is_legit_selector check_property_name get_selector_parameter_count
selector_functions = record {
  create_method_signature = create_method_signature;
  is_legit_selector = is_legit_selector;
  is_legit_property_name = check_property_name;
  get_selector_parameter_count = get_selector_parameter_count;
}

unfoldable pub set_selector_function : SetSelectorFunction
unfolding make_property_name_from_set_selector
set_selector_function = record {
  make_property_name_from_set_selector = make_property_name_from_set_selector;
}

unfoldable pub string_util : StringUtil
unfolding uppercase_first lowercase_first
string_util = record { uppercase_first = uppercase_first; lowercase_first = lowercase_first }
