-- ===== src/ClassModel/Wrapped/Added.antt =====
-- Class properties that are added through the class `NSObject` (FSClass/MethodImplementations.m).
use fscript_extensions.Prelude.{
  ℕ, ap, Bool, false, Option, none, some, List, arith, inl, inr, get_elem?, Bytes, Option-cases,
  ◌≡◌, ◌∙◌,
}
use fscript_extensions.ClassModel.{FsClass, Imp, Slot, World, chain_of, done, slot_of, slot_value}
use fscript_extensions.ClassModel.Creation.Registry.{IsRegistered, NamesDiffer}
use fscript_extensions.ClassModel.AddProperty.{add_class_property, has_slot, install_accessors}
use fscript_extensions.ClassModel.Wrapped.{add_class_property_with_value_imp, changed, ended}
use fscript_extensions.ClassModel.Methods.{
  blocks_of, install_method, mark_tramped, method_class, put_method,
}
use fscript_extensions.ClassModel.Chain.{chain_child, chain_root}
use fscript_extensions.PropertyName.{check_property_name, set_selector}
use fscript_extensions.ClassModel.Creation.{
  class_for_pointer, runtime_name, shadow_for_class, with_shadow,
}
use fscript_extensions.ClassModel.AddProperty.Defaults.{equipped-shadows}
use fscript_extensions.ClassModel.ClassProperties.{
  get_class_property, has_class_property, write_class_slot,
}
use fscript_extensions.ClassModel.Instances.{get_class_property_imp}
use fscript_extensions.ClassModel.Store.{get_elem?-update_same}
use fscript_extensions.Trampoline.I386.{getter}
use fscript_extensions.Dictionary.{object_for, string_key, pointer_key}
use fscript_extensions.Dictionary.Laws.{object_for-set_object}
use fscript_extensions.ClassModel.Wrapped.Again.{shadow_for_class-pointer, to_shadow-found}
use fscript_extensions.ClassModel.ClassProperties.Laws.{slot-round}

put-registries :
    (w : World) (c : FsClass) (imp : Imp) (b : Bool) (selector : Bytes)
    → ((put_method w c imp b selector).class_names_by_pointer ≡ w.class_names_by_pointer)
      × ((put_method w c imp b selector).class_definitions ≡ w.class_definitions)
unfolding put_method
put-registries w c imp b selector = elim (Option-cases (object_for selector (blocks_of b c))) [
  | inl e ↦ (ground (arith, e), ground (arith, e))
  | inr (k, e) ↦ elim (Option-cases (method_class c.class_object b w c.class_object selector)) [
    | inl m ↦ (ground (arith, e, m), ground (arith, e, m))
    | inr (p, m) ↦ (ground (arith, e, m), ground (arith, e, m))
  ]
]

pointer-congr :
    (w v : World) (p : ℕ)
    → v.class_names_by_pointer ≡ w.class_names_by_pointer
    → v.class_definitions ≡ w.class_definitions
    → class_for_pointer v p ≡ class_for_pointer w p
pointer-congr w v p h k = elim (Option-cases (object_for p w.class_names_by_pointer)) [
  | inl e ↦ ground (arith, h, e)
  | inr (name, e) ↦ ground (arith, h, k, e)
]

install-registries :
    (w : World) (i : ℕ) (c : FsClass) (imp : Imp) (b : Bool) (selector : Bytes) (t : Bool) (p : ℕ)
    → class_for_pointer (install_method w i c imp b selector t) p ≡ class_for_pointer w p
unfolding install_method
install-registries w i c imp b selector t p =
    let (names, shadows) = put-registries w c imp b selector in
    pointer-congr w (with_shadow i (mark_tramped selector t) (put_method w c imp b selector)) p
      names shadows

equipped-registries :
    (w : World) (i : ℕ) (c : FsClass) (getter setter : Imp) (b : Bool) (name : Bytes) (p : ℕ)
    → class_for_pointer (install_accessors w i c getter setter b name) p ≡ class_for_pointer w p
equipped-registries w i c getter setter b name p =
    install-registries (install_method w i c getter b name false) i c setter b (set_selector name)
      false p
    ∙ install-registries w i c getter b name false p

class_property-own :
    (cs : List FsClass) (i : ℕ) (c : FsClass) (q : Bytes) (slot : Slot)
    → get_elem? cs i ≡ some c
    → object_for q c.class_properties ≡ some slot
    → get_class_property cs (chain_of cs i) q ≡ done (slot_value slot)
unfolding get_class_property
class_property-own cs i c q slot at_i h = elim (Option-cases c.parent_class) [
  | inl p ↦ rw (chain_root i cs i c at_i p) (ground (arith, at_i, h))
  | inr (k, p) ↦ rw (chain_child i cs i k c at_i p) (ground (arith, at_i, h))
]

module _ (w : World) (i : ℕ) (c : FsClass) (name : Bytes) (value : Option ℕ) where
  abbrev written : World
  written = record w { shadows = write_class_slot i name (slot_of value) w.shadows }

  abbrev equipped_class : World
  equipped_class =
      install_accessors written i c Imp.get_class_property Imp.set_class_property false name

  class_added :
      check_property_name (some name) (has_slot c.class_properties) ≡ none
      → has_class_property w.shadows (chain_of w.shadows i) name ≡ false
      → add_class_property w i c (some name) value ≡ done equipped_class
  unfolding add_class_property
  class_added legit free = ground (arith, legit, free)

  equipped_class-read :
      get_elem? w.shadows i ≡ some c
      → get_class_property equipped_class.shadows (chain_of equipped_class.shadows i) name
        ≡ done value
  equipped_class-read at_i =
      let place = get_elem?-update_same i (mark_tramped (set_selector name) false) _ _ (
        get_elem?-update_same i (mark_tramped name false) _ _
          (get_elem?-update_same i _ w.shadows c at_i)) in
      class_property-own equipped_class.shadows i _ name (slot_of value)
        (ap (λ r. get_elem? r i)
            (equipped-shadows written i c Imp.get_class_property Imp.set_class_property false name)
          ∙ place)
        (object_for-set_object name (slot_of value) c.class_properties)
      ∙ ap done (slot-round value)

-- A class property may be added to every class of the runtime, from a state whose registries are in
-- order: if the name is legitimate and neither the class's shadow nor a parent uses it, the message
-- raises no exception, and the accessor of the property then reads the value that was given.
pub add_class_property_with_value_imp-read :
    (w v : World) (p i : ℕ) (c : FsClass) (class_name name : Bytes) (value : Option ℕ)
    → IsRegistered w
    → NamesDiffer w
    → runtime_name w p ≡ some class_name
    → shadow_for_class w p ≡ done (v, some i)
    → get_elem? v.shadows i ≡ some c
    → check_property_name (some name) (has_slot c.class_properties) ≡ none
    → has_class_property v.shadows (chain_of v.shadows i) name ≡ false
    → (new : World) × (add_class_property_with_value_imp w p (some name) value ≡ (new, done ended))
      × (get_class_property_imp new p name ≡ done value)
unfolding add_class_property_with_value_imp get_class_property_imp
add_class_property_with_value_imp-read w v p i c class_name name value r differ n h at_i legit
      free =
    let new = equipped_class v i c name value in
    (
      new,
      to_shadow-found w v p i c ended _ h at_i
          ∙ ap (changed v) (class_added v i c name value legit free),
      ground (
        arith,
        equipped-registries (written v i c name value) i c Imp.get_class_property
            Imp.set_class_property false name p,
        shadow_for_class-pointer w v p i class_name r differ n h,
        equipped_class-read v i c name value at_i,
      ),
    )
