-- ===== src/ClassModel/Creation.antt =====
-- Creating classes and looking shadows up: the initialisers of FSClass/FSClass.m, and
-- FSClass/FSClassCreation.m. An object is passed as a class of the runtime or as an instance of one;
-- a name that is nothing is `nil` or an object that is no string.
pub mod Registry
pub mod Shadows
pub mod Update
pub mod Names
pub mod NewClass
pub mod Subclass
use fscript_extensions.Prelude.{
  ℕ, zero, suc, Bool, true, false, not, Option, none, some, List, length, get_elem?, Bytes, codes,
  bytes_eq, [], ◌∷◌, ◌++◌, ◌&&◌, if◌then◌else◌,
}
use fscript_extensions.Dictionary.{Dict, object_for, set_object, string_key, pointer_key}
use fscript_extensions.ClassModel.{
  Exception, FsClass, Imp, Outcome, RuntimeClass, World, done, raised, update_at, ◌>>=◌,
}
use fscript_extensions.Selector.{all_ascii, until_null}
use fscript_extensions.ClassModel.Introspection.{class_methods}
use fscript_extensions.PropertyName.{ivar_prop_dictionary, set_selector}

pub data AnyObject : Type 0 where
  class_id instance_id : ℕ → AnyObject

-- `[object class]`
abbrev pub class_of : AnyObject → ℕ
class_of (class_id p) = p
class_of (instance_id p) = p

abbrev pub is_class : AnyObject → Bool
is_class (class_id p) = true
is_class (instance_id p) = false

-- `objc_lookUpClass`, by the name of a class; the number of the first class is `p`.
abbrev pub look_up_from : ℕ → Bytes → List RuntimeClass → Option ℕ
look_up_from p name [] = none
look_up_from p name (c ∷ cs) = if bytes_eq name c.name then some p else look_up_from (suc p) name cs

abbrev pub objc_look_up_class : World → Bytes → Option ℕ
objc_look_up_class w name = look_up_from 0 name w.runtime

abbrev pub class_for_pointer : World → ℕ → Option ℕ
class_for_pointer w p = elim (object_for p w.class_names_by_pointer) [
  | none ↦ none
  | some name ↦ object_for name w.class_definitions
]

-- `classForPointer:` of any object; no instance is registered.
abbrev pub class_for_id : World → AnyObject → Option ℕ
class_for_id w (class_id p) = class_for_pointer w p
class_for_id w (instance_id p) = none

-- `init:`
unfoldable pub init : Bytes → FsClass
init name = record {
  class_name = name;
  class_object = 0;
  is_objective_c = false;
  use_fast_ivars = false;
  has_ivar_dictionary = false;
  parent_class = none;
  properties = [];
  class_properties = [];
  methods = [];
  class_methods = [];
  tramped_methods = [];
}

-- `registerClass:forName:` of a shadow that is new.
unfoldable pub register_class : FsClass → World → World
register_class c w = record w {
  shadows = w.shadows ++ c ∷ [];
  class_definitions = set_object c.class_name (length w.shadows) w.class_definitions;
  class_names_by_pointer = set_object c.class_object c.class_name w.class_names_by_pointer;
}

-- `class_addMethod`: an existing method of the class stays.
abbrev pub add_method : Bytes → Imp → Dict Bytes Imp → Dict Bytes Imp
add_method selector imp table = elim (object_for selector table) [
  | none ↦ set_object selector imp table
  | some _ ↦ table
]

abbrev pub add_accessors : List Bytes → Dict Bytes Imp → Dict Bytes Imp
add_accessors [] table = table
add_accessors (name ∷ names) table = add_accessors names (
    add_method (set_selector name) Imp.set_instance_property_fast
      (add_method name Imp.get_instance_property_fast table))

-- The selectors of `doSuperMethod:currentClass:` and so on, from the one with `n` arguments down.
abbrev pub super_selectors : ℕ → Bytes → List Bytes
super_selectors zero s = s ∷ []
super_selectors (suc n) s = s ∷ super_selectors n (s ++ codes "with:")

abbrev pub all_super_selectors : List Bytes
all_super_selectors =
    codes "doSuperMethod:currentClass:withArguments:"
    ∷ super_selectors 5 (codes "doSuperMethod:currentClass:")

abbrev pub add_super_methods : List Bytes → Dict Bytes Imp → Dict Bytes Imp
add_super_methods [] table = table
add_super_methods (s ∷ ss) table = add_super_methods ss (add_method s Imp.super_method table)

-- The class that `createNewClass` allocates and fills.
abbrev pub allocated_class : Bytes → ℕ → Bool → List Bytes → RuntimeClass
allocated_class name parent objc_parent ivars =
    let accessors = add_accessors ivars [] in
    record {
      name = name;
      superclass = some parent;
      ivars = ivars;
      imps = if objc_parent then add_super_methods all_super_selectors accessors else accessors;
      meta_imps =
          if objc_parent
          then add_super_methods all_super_selectors (add_method (codes "alloc") Imp.allocator [])
          else [];
    }

-- `createNewClass`, with a name, of which the runtime is given what a C string holds.
unfoldable pub create_new_class : World → Bytes → ℕ → Bool → List Bytes → Outcome (World × ℕ)
unfolding until_null
create_new_class w name parent objc_parent ivars = elim (objc_look_up_class w (until_null name)) [
  | some _ ↦ raised Exception.class_exists
  | none ↦ done (
    record w {
      runtime = w.runtime ++ allocated_class (until_null name) parent objc_parent ivars ∷ [];
    },
    length w.runtime,
  )
]

abbrev pub is_none : Option ℕ → Bool
is_none none = true
is_none (some i) = false

-- `initNewClass:parent:iVars:` returns the new shadow's number. For a parent without a shadow it looks
-- for the metaclass of the parent itself, which must be a class.
unfoldable pub init_new_class : World → Option Bytes → AnyObject → List Bytes → Outcome (World × ℕ)
unfolding create_new_class init register_class
init_new_class w name parent ivars =
    let shadow = class_for_id w parent in
    let objc_parent = is_none shadow in
    if not objc_parent && not (is_class parent) then raised Exception.bad_parent else elim name [
      | none ↦ raised Exception.bad_class_name
      | some s ↦
          if not (all_ascii s)
          then raised Exception.bad_class_name
          else create_new_class w s (class_of parent) objc_parent ivars >>= λ r.
              if objc_parent && not (is_class parent)
              then raised Exception.instance_as_class
              else done (
                register_class (record (init s) { class_object = r.1; parent_class = shadow }) r.0,
                length w.shadows,
              )
    ]

-- Assigning to instance variables of the shadow `i`.
abbrev pub with_shadow : ℕ → (FsClass → FsClass) → World → World
with_shadow i f w = record w { shadows = update_at i f w.shadows }

abbrev pub has_dictionary : World → Option ℕ → Bool
has_dictionary w none = false
has_dictionary w (some i) = elim (get_elem? w.shadows i) [
  | none ↦ false
  | some c ↦ c.has_ivar_dictionary
]

abbrev pub regular_ivars : World → AnyObject → List Bytes
regular_ivars w parent =
    if has_dictionary w (class_for_id w parent) then [] else ivar_prop_dictionary ∷ []

abbrev pub regular_flags : FsClass → FsClass
regular_flags c = record c {
  is_objective_c = false;
  use_fast_ivars = false;
  has_ivar_dictionary = true;
}

unfoldable pub init_regular_ivars_class : World → Option Bytes → AnyObject → Outcome (World × ℕ)
unfolding init_new_class
init_regular_ivars_class w name parent =
    init_new_class w name parent (regular_ivars w parent) >>= λ r.
    done (with_shadow r.1 regular_flags r.0, r.1)

-- `NSStringFromClass`
abbrev pub runtime_name : World → ℕ → Option Bytes
runtime_name w p = elim (get_elem? w.runtime p) [ none ↦ none | some c ↦ some c.name ]

-- `initProxyClass:` of a class; a pointer to no class is the last case.
unfoldable pub init_proxy_class : World → AnyObject → Outcome (World × ℕ)
unfolding init register_class
init_proxy_class w (instance_id p) = raised Exception.bad_parent
init_proxy_class w (class_id p) = elim (class_for_pointer w p) [
  | some i ↦ done (w, i)
  | none ↦ elim (runtime_name w p) [
    | none ↦ raised Exception.bad_parent
    | some name ↦ done (
      register_class (record (init name) { class_object = p; is_objective_c = true }) w,
      length w.shadows,
    )
  ]
]

-- `shadowForClass:` gives `nil` where a registered name has no definition.
unfoldable pub shadow_for_class : World → ℕ → Outcome (World × Option ℕ)
unfolding init_proxy_class
shadow_for_class w p = elim (object_for p w.class_names_by_pointer) [
  | some name ↦ done (w, object_for name w.class_definitions)
  | none ↦ init_proxy_class w (class_id p) >>= λ r. done (r.0, some r.1)
]

unfoldable pub class_for_name : World → Bytes → Outcome (World × Option ℕ)
unfolding init_proxy_class
class_for_name w name = elim (object_for name w.class_definitions) [
  | some i ↦ done (w, some i)
  | none ↦ elim (objc_look_up_class w name) [
    | none ↦ done (w, none)
    | some p ↦ init_proxy_class w (class_id p) >>= λ r. done (r.0, some r.1)
  ]
]

-- `[shadow classObject]`
abbrev pub class_object_of : World × ℕ → Outcome (World × Option ℕ)
class_object_of (w, i) =
    done (w, elim (get_elem? w.shadows i) [ none ↦ none | some c ↦ some c.class_object ])

-- `newClass:parent:`
unfoldable pub new_class : World → Option Bytes → AnyObject → Outcome (World × Option ℕ)
unfolding init_regular_ivars_class
new_class w name parent = init_regular_ivars_class w name parent >>= class_object_of
