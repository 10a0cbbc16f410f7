-- ===== src/Tests/Wrappers.antt =====
-- Messages to classes through `NSObject`, and anonymous classes, at concrete inputs.
use fscript_extensions.Prelude.{ℕ, refl, false, none, some, get_elem?, codes, ◌≡◌, ◌≢◌}
use fscript_extensions.ClassModel.{FsClass, World, chain, chain_of, done}
use fscript_extensions.ClassModel.Creation.Registry.{IsRegistered, NamesDiffer}
use fscript_extensions.ClassModel.Wrapped.{
  add_class_property_with_value_imp, ended, reading, to_shadow,
}
use fscript_extensions.ClassModel.Wrapped.Added.{add_class_property_with_value_imp-read}
use fscript_extensions.PropertyName.{
  check_property_name, has_illegal_character, lowercase_first, to_lower, to_upper, uppercase_first,
}
use fscript_extensions.ClassModel.Creation.{
  class_id, init, init_proxy_class, objc_look_up_class, register_class, shadow_for_class,
}
use fscript_extensions.ClassModel.Anonymous.{get_anonymous_class_name, new_class_with_parent}
use fscript_extensions.ClassModel.Instances.{get_class_property_imp}
use fscript_extensions.ClassModel.ClassProperties.{has_class_property}
use fscript_extensions.ClassModel.AddProperty.{has_slot}
use fscript_extensions.Selector.{is_alpha, is_numeric, is_start}
use fscript_extensions.ClassModel.Anonymous.Names.{new_class_with_parent-anew}
use fscript_extensions.Sprintf.{print_digits}
use fscript_extensions.ClassModel.Creation.Shadows.{proxy_of}
use fscript_extensions.ClassModel.Wrapped.Again.{to_shadow-again}
use fscript_extensions.Tests.Classes.{
  empty_world, empty_world-IsRegistered, empty_world-NamesDiffer,
}

to_shadow-again_example :
    (new : World) × (i : ℕ) × (c : FsClass) × (get_elem? new.shadows i ≡ some c)
    × (c.class_object ≡ 0)
    × (to_shadow empty_world 0 0 (reading (λ v j d. d.class_object)) ≡ (new, done c.class_object))
    × IsRegistered new
    × (to_shadow new 0 0 (reading (λ v j d. d.class_object))
        ≡ to_shadow empty_world 0 0 (reading (λ v j d. d.class_object)))
to_shadow-again_example =
    to_shadow-again empty_world 0 (codes "NSObject") 0 (λ v j d. d.class_object)
      empty_world-IsRegistered empty_world-NamesDiffer refl

-- The state once `NSObject` has a shadow.
abbrev root_shadow : FsClass
root_shadow = proxy_of 0 (codes "NSObject")

abbrev root_world : World
root_world = register_class root_shadow empty_world

root-found : shadow_for_class empty_world 0 ≡ done (root_world, some 0)
unfolding shadow_for_class init_proxy_class
root-found = refl

root-there : get_elem? root_world.shadows 0 ≡ some root_shadow
unfolding register_class
root-there = refl

size-legit :
    check_property_name (some (codes "size")) (has_slot root_shadow.class_properties) ≡ none
unfolding check_property_name has_illegal_character is_start is_numeric is_alpha lowercase_first
    uppercase_first to_lower to_upper init
size-legit = refl

size-free :
    has_class_property root_world.shadows (chain_of root_world.shadows 0) (codes "size") ≡ false
unfolding has_class_property chain init register_class
size-free = refl

add_class_property_with_value_imp-read_example :
    (new : World) × (add_class_property_with_value_imp empty_world 0 (some (codes "size")) (some 7)
      ≡ (new, done ended))
    × (get_class_property_imp new 0 (codes "size") ≡ done (some 7))
add_class_property_with_value_imp-read_example =
    add_class_property_with_value_imp-read empty_world root_world 0 0 root_shadow (codes "NSObject")
      (codes "size") (some 7) empty_world-IsRegistered empty_world-NamesDiffer refl root-found
      root-there size-legit size-free

first_name : (get_anonymous_class_name empty_world).1 ≡ codes "FSClass1"
unfolding get_anonymous_class_name print_digits
first_name = refl

first_name-free : objc_look_up_class empty_world (get_anonymous_class_name empty_world).1 ≡ none
unfolding get_anonymous_class_name print_digits
first_name-free = refl

new_class_with_parent-anew_example :
    (new : World) × (p : ℕ) × (new_class_with_parent empty_world (class_id 0)
      ≡ (new, done (some p)))
    × IsRegistered new
    × NamesDiffer new
    × ((get_anonymous_class_name new).1 ≢ (get_anonymous_class_name empty_world).1)
new_class_with_parent-anew_example =
    new_class_with_parent-anew empty_world (class_id 0) empty_world-IsRegistered
      empty_world-NamesDiffer refl first_name-free
