-- ===== src/Tests/Objects.antt =====
-- Methods, properties and objects of classes at concrete inputs.
use fscript_extensions.Prelude.{
  ℕ, suc, refl, ap, true, false, none, some, arith, inr, length, get_elem?, codes, [], ◌∷◌, ◌≤◌,
  ◌≡◌, ◌≢◌, ◌⊎◌,
}
use fscript_extensions.ClassModel.Methods.{Block, blocks_of, on_message, own_imp, table_of}
use fscript_extensions.ClassModel.{FsClass, Imp, RuntimeClass, World, chain, chain_of, done, object}
use fscript_extensions.ClassModel.Instances.{
  Instance, class_default, get_instance_property, set_instance_property,
}
use fscript_extensions.ClassModel.Introspection.Implementors.{IsTakenFrom, implementor-block}
use fscript_extensions.ClassModel.Instances.Allocation.{Misses}
use fscript_extensions.ClassModel.AddProperty.{add_property, has_slot}
use fscript_extensions.ClassModel.AddProperty.Defaults.{add_property-default}
use fscript_extensions.ClassModel.Methods.Answer.{answer, on_message-answer}
use fscript_extensions.ClassModel.Introspection.{
  block_at, block_for_class_selector, block_for_selector, class_block_at, class_method_implementor,
  class_object_at, method_implementor,
}
use fscript_extensions.PropertyName.{
  check_property_name, key_of_set_selector, lowercase_first, set_selector, to_lower, to_upper,
  uppercase_first,
}
use fscript_extensions.Selector.{count_colons, get_selector_parameter_count}
use fscript_extensions.ClassModel.Properties.{
  default_value_for_property, has_property, property_slot,
}
use fscript_extensions.ClassModel.Instances.Values.{get-set_instance_property}
use fscript_extensions.Dictionary.{object_for, string_key, pointer_key}

abbrev base : FsClass
base = record {
  class_name = codes "Base";
  class_object = 0;
  is_objective_c = false;
  use_fast_ivars = false;
  has_ivar_dictionary = true;
  parent_class = none;
  properties = (codes "age", object 7) ∷ [];
  class_properties = [];
  methods = (codes "size", 9) ∷ [];
  class_methods = [];
  tramped_methods = [];
}

abbrev fast_child : FsClass
fast_child = record {
  class_name = codes "Fast";
  class_object = 1;
  is_objective_c = false;
  use_fast_ivars = true;
  has_ivar_dictionary = false;
  parent_class = some 0;
  properties = (codes "tail", object 3) ∷ [];
  class_properties = [];
  methods = [];
  class_methods = [];
  tramped_methods = [];
}

abbrev base_class : RuntimeClass
base_class = record {
  name = codes "Base";
  superclass = none;
  ivars = [];
  imps = (codes "size", Imp.trampoline 0 9) ∷ [];
  meta_imps = [];
}

abbrev two_classes : World
two_classes = record {
  shadows = base ∷ fast_child ∷ [];
  runtime = base_class ∷ [];
  class_definitions = (codes "Base", 0) ∷ [];
  class_names_by_pointer = (0, codes "Base") ∷ [];
  class_counter = 0;
}

abbrev new_block : Block
new_block = record { id = 11; argument_count = 1 }

size_parameters : get_selector_parameter_count (codes "size") ≡ 0
unfolding get_selector_parameter_count
size_parameters = refl

size_counted : suc (get_selector_parameter_count (codes "size")) ≡ 1
size_counted = ap suc size_parameters

size_fits : get_selector_parameter_count (codes "size") ≤ 3
size_fits = omega (arith, size_parameters)

on_message-answer_example :
    (new : World) × (d : FsClass) × (on_message 3 two_classes 0 base
        (codes "size")
        (some new_block)
        true
      ≡ done new)
    × (get_elem? new.shadows 0 ≡ some d)
    × (object_for (codes "size") (blocks_of true d) ≡ some 11)
    × (own_imp true new 0 (codes "size")
        ≡ some (
            answer
              (object_for (codes "size") (blocks_of true base))
              (object_for (codes "size") (table_of true base_class))
              (Imp.trampoline (get_selector_parameter_count (codes "size")) 11)))
on_message-answer_example =
    on_message-answer 3 two_classes 0 base base_class (codes "size") new_block true refl refl
      size_counted size_fits (inr (λ h. ground (arith, h)))

implementor-block_example :
    (((i : ℕ) × IsTakenFrom (λ j. block_at (base ∷ []) j (codes "size")) (0 ∷ []) i
        × (block_for_selector (base ∷ []) (0 ∷ []) (codes "size")
            ≡ block_at (base ∷ []) i (codes "size"))
        × (method_implementor (base ∷ []) (0 ∷ []) (codes "size") ≡ class_object_at (base ∷ []) i))
      ⊎ ((block_for_selector (base ∷ []) (0 ∷ []) (codes "size") ≡ none)
          × (method_implementor (base ∷ []) (0 ∷ []) (codes "size") ≡ none)))
    × (((block_for_class_selector (base ∷ []) 0 (codes "size") ≢ none)
          × (class_method_implementor (base ∷ []) (0 ∷ []) (codes "size")
              ≡ class_object_at (base ∷ []) 0))
        ⊎ (((i : ℕ) × IsTakenFrom (λ j. class_block_at (base ∷ []) j (codes "size")) [] i
              × (block_for_class_selector (base ∷ []) 0 (codes "size") ≡ none)
              × (class_method_implementor (base ∷ []) (0 ∷ []) (codes "size")
                  ≡ class_object_at (base ∷ []) i))
            ⊎ ((block_for_class_selector (base ∷ []) 0 (codes "size") ≡ none)
                × (class_method_implementor (base ∷ []) (0 ∷ []) (codes "size") ≡ none))))
implementor-block_example = implementor-block (base ∷ []) 0 [] (codes "size")

name-free : has_property two_classes.shadows (chain_of two_classes.shadows 0) (codes "name") ≡ false
unfolding chain has_property
name-free = refl

name-legit : check_property_name (some (codes "name")) (has_slot base.properties) ≡ none
unfolding check_property_name
name-legit = refl

name-ne : codes "age" ≢ codes "name"
name-ne h = ground (arith, ap length h)

add_property-default_example :
    (new : World) × (add_property two_classes 0 base (some (codes "name")) (some 8) ≡ done new)
    × (default_value_for_property new.shadows (chain_of new.shadows 0) (codes "name")
        ≡ done (some 8))
    × (default_value_for_property new.shadows (chain_of new.shadows 1) (codes "age")
        ≡ default_value_for_property two_classes.shadows
            (chain_of two_classes.shadows 1)
            (codes "age"))
    × (property_slot new.shadows 1 (codes "name")
        ≡ property_slot two_classes.shadows 1 (codes "name"))
add_property-default_example =
    add_property-default two_classes 0 base (codes "name") (some 8) 1 (codes "age") 1 refl refl refl
      name-legit name-free name-ne (omega arith)

abbrev thing : Instance
thing = record { isa = 0; dictionary = some []; ivars = [] }

get-set_instance_property_example :
    (new : Instance) × (set_instance_property thing (set_selector (codes "age")) (some 4)
      ≡ done new)
    × (get_instance_property two_classes new (codes "age") ≡ done (new, some 4))
get-set_instance_property_example =
    get-set_instance_property two_classes thing [] b'a' (codes "ge") (some 4) refl refl

age-default : class_default two_classes 0 (codes "age") ≡ done (some 7)
unfolding chain default_value_for_property
age-default = refl

tail-Misses : Misses (codes "age") fast_child.properties
unfolding key_of_set_selector set_selector uppercase_first lowercase_first to_upper to_lower
tail-Misses = (λ h. ground (arith, h), tt)

five_parameters : get_selector_parameter_count (codes "a:b:c:d:e:") ≡ 5
unfolding get_selector_parameter_count count_colons
five_parameters = refl
