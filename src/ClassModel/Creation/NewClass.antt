-- ===== src/ClassModel/Creation/NewClass.antt =====
-- New classes, with instance variables in a dictionary: `newClass:parent:` and `subclass` of
-- FSClass/FSClass.m and FSClass/FSClassCreation.m.
use fscript_extensions.Prelude.{
  ℕ, refl, Bool, true, false, not, none, some, List, arith, inl, inr, length, get_elem?, Bytes,
  Option-cases, get_elem?-append_new, get_elem?-length, ◌≡◌, ◌∙◌, ◌&&◌,
}
use fscript_extensions.ClassModel.Creation.{
  AnyObject, allocated_class, class_for_id, class_for_pointer, class_id, class_of, create_new_class,
  init, init_new_class, init_regular_ivars_class, instance_id, is_class, is_none, new_class,
  objc_look_up_class, register_class, regular_flags, regular_ivars, runtime_name, with_shadow,
}
use fscript_extensions.ClassModel.{FsClass, World, done}
use fscript_extensions.ClassModel.Creation.Registry.{
  IsRegistered, NamesDiffer, pointer-registered, register-IsRegistered,
}
use fscript_extensions.Selector.{all_ascii, until_null}
use fscript_extensions.ClassModel.Store.{get_elem?-update_same}
use fscript_extensions.ClassModel.Creation.Names.{
  look_up_from-none, runtime_name-get, runtime_name-new, with_class, with_class-IsRegistered,
  with_class-NamesDiffer,
}
use fscript_extensions.Dictionary.{object_for, string_key, pointer_key}
use fscript_extensions.ClassModel.Creation.Update.{with_shadow-IsRegistered}

-- The shadow of a new class, before its flags are set.
abbrev pub new_shadow : World → Bytes → AnyObject → FsClass
new_shadow w name parent = record (init name) {
  class_object = length w.runtime;
  parent_class = class_for_id w parent;
}

-- The world behind `newClass:parent:`.
abbrev pub with_new_class : World → Bytes → AnyObject → World
with_new_class w name parent =
    let c =
      allocated_class name (class_of parent) (is_none (class_for_id w parent))
        (regular_ivars w parent) in
    with_shadow (length w.shadows) regular_flags
      (register_class (new_shadow w name parent) (with_class c w))

accepted :
    (w : World) (parent : AnyObject)
    → (not (is_none (class_for_id w parent)) && not (is_class parent)) ≡ false
accepted w (class_id p) = ground arith
accepted w (instance_id p) = refl

read_as_class :
    (b : Bool) (parent : AnyObject) → is_class parent ≡ true → (b && not (is_class parent)) ≡ false
read_as_class true parent h = ground (arith, h)
read_as_class false parent h = refl

create-made :
    (w : World) (name : Bytes) (parent : ℕ) (objc : Bool) (ivars : List Bytes)
    → until_null name ≡ name
    → objc_look_up_class w name ≡ none
    → create_new_class w name parent objc ivars
      ≡ done (with_class (allocated_class name parent objc ivars) w, length w.runtime)
unfolding create_new_class
create-made w name parent objc ivars whole free = ground (arith, whole, free)

init_new_class-made :
    (w : World) (name : Bytes) (parent : AnyObject) (ivars : List Bytes)
    → is_class parent ≡ true
    → all_ascii name ≡ true
    → until_null name ≡ name
    → objc_look_up_class w name ≡ none
    → init_new_class w (some name) parent ivars
      ≡ done (
        register_class (new_shadow w name parent) (
            with_class
              (allocated_class name (class_of parent) (is_none (class_for_id w parent)) ivars)
              w),
        length w.shadows,
      )
unfolding init_new_class init
init_new_class-made w name parent ivars a_class ascii whole free =
    rw
      (
        accepted w parent,
        ascii,
        create-made w name (class_of parent) (is_none (class_for_id w parent)) ivars whole free,
        read_as_class (is_none (class_for_id w parent)) parent a_class,
      )
      refl

-- The shadow of the new class.
pub shadow-new :
    (w : World) (name : Bytes) (parent : AnyObject)
    → get_elem? (with_new_class w name parent).shadows (length w.shadows)
      ≡ some (regular_flags (new_shadow w name parent))
unfolding register_class
shadow-new w name parent =
    get_elem?-update_same (length w.shadows) regular_flags _ (new_shadow w name parent)
      (get_elem?-append_new w.shadows (new_shadow w name parent))

pub new_class-made :
    (w : World) (name : Bytes) (parent : AnyObject)
    → is_class parent ≡ true
    → all_ascii name ≡ true
    → until_null name ≡ name
    → objc_look_up_class w name ≡ none
    → new_class w (some name) parent ≡ done (with_new_class w name parent, some (length w.runtime))
unfolding new_class init_regular_ivars_class init
new_class-made w name parent a_class ascii whole free =
    rw
      (
        init_new_class-made w name parent (regular_ivars w parent) a_class ascii whole free,
        shadow-new w name parent,
      )
      refl

unregistered :
    (w : World) (p : ℕ)
    → IsRegistered w
    → runtime_name w p ≡ none
    → object_for p w.class_names_by_pointer ≡ none
unregistered w p r n = elim (Option-cases (object_for p w.class_names_by_pointer)) [
  | inl e ↦ e
  | inr (name, e) ↦ absurd (ground (arith, n, (pointer-registered w p name r e).0))
]

undefined :
    (w : World) (name : Bytes)
    → IsRegistered w
    → objc_look_up_class w name ≡ none
    → object_for name w.class_definitions ≡ none
undefined w name r free = elim (Option-cases (object_for name w.class_definitions)) [
  | inl e ↦ e
  | inr (i, e) ↦
      let (c, at_i, q) = r.by_name name i e in
      let (_, _, n) = r.found i c at_i in
      let (k, at_k, same) = runtime_name-get w c.class_object c.class_name n in
      absurd (look_up_from-none 0 name w.runtime c.class_object k free at_k (same ∙ q))
]

past_end : (w : World) → runtime_name w (length w.runtime) ≡ none
past_end w = elim (Option-cases (get_elem? w.runtime (length w.runtime))) [
  | inl e ↦ ground (arith, e)
  | inr (c, e) ↦ absurd (omega (arith, get_elem?-length w.runtime (length w.runtime) c e))
]

pub parent-exists :
    (w : World) (parent : AnyObject) (q : ℕ)
    → IsRegistered w
    → class_for_id w parent ≡ some q
    → (d : FsClass) × (get_elem? w.shadows q ≡ some d)
parent-exists w (instance_id p) q r h = ground (arith, h)
parent-exists w (class_id p) q r h = elim (Option-cases (object_for p w.class_names_by_pointer)) [
  | inl e ↦ ground (arith, h, e)
  | inr (name, e) ↦
      let (_, (i, at_p, (c, at_i, _))) = pointer-registered w p name r e in
      let same : i ≡ q = ground (arith, at_p, h) in (c, rw same at at_i)
]

-- With a class as parent, a class with a new ASCII name without a null is created: the registries
-- stay in order and names stay different, its shadow is found under its pointer, and the shadow has
-- the parent's shadow as its parent, if the parent is a class that has one, and a dictionary of
-- instance variables.
pub new_class-IsRegistered :
    (w : World) (name : Bytes) (parent : AnyObject)
    → IsRegistered w
    → NamesDiffer w
    → is_class parent ≡ true
    → all_ascii name ≡ true
    → until_null name ≡ name
    → objc_look_up_class w name ≡ none
    → (new : World) × (p : ℕ) × (new_class w (some name) parent ≡ done (new, some p))
      × IsRegistered new
      × NamesDiffer new
      × ((i : ℕ) × (c : FsClass) × (class_for_pointer new p ≡ some i)
          × (get_elem? new.shadows i ≡ some c)
          × (c.parent_class ≡ class_for_id w parent)
          × (c.has_ivar_dictionary ≡ true))
unfolding init register_class
new_class-IsRegistered w name parent r differ a_class ascii whole free =
    let c =
      allocated_class name (class_of parent) (is_none (class_for_id w parent))
        (regular_ivars w parent) in
    let kept =
      register-IsRegistered (new_shadow w name parent) (with_class c w)
        (with_class-IsRegistered c w r) (unregistered w (length w.runtime) r (past_end w))
        (undefined w name r free) (runtime_name-new c w) (λ q h. parent-exists w parent q r h) in
    let flagged =
      with_shadow-IsRegistered regular_flags (λ d. (refl, refl, refl)) (length w.shadows) _ kept in
    let (at_pointer, at_name, _) = flagged.found (length w.shadows) _ (shadow-new w name parent) in
    (
      with_new_class w name parent,
      length w.runtime,
      new_class-made w name parent a_class ascii whole free,
      flagged,
      with_class-NamesDiffer c w free differ,
      (
        length w.shadows,
        regular_flags (new_shadow w name parent),
        ground (arith, at_pointer, at_name),
        shadow-new w name parent,
        refl,
        refl,
      ),
    )
