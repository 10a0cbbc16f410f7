-- ===== src/ClassModel/FastClasses.antt =====
-- Classes with fast instance variables: `initFastIvarsClass:parent:properties:` of FSClass/FSClass.m and
-- the methods of FSClass/FSClassCreation.m that call it.
pub mod Names
use fscript_extensions.Prelude.{
  ℕ, true, false, not, Option, none, some, List, Bytes, [], ◌∷◌, if◌then◌else◌,
}
use fscript_extensions.ClassModel.Creation.{
  AnyObject, class_for_id, class_object_of, has_dictionary, init_new_class, is_class, with_shadow,
}
use fscript_extensions.Dictionary.{Dict, all_keys, set_object, string_key, pointer_key}
use fscript_extensions.ClassModel.{
  Exception, FsClass, Outcome, Slot, World, chain_of, done, null, raised, ◌>>=◌,
}
use fscript_extensions.PropertyName.{check_property_name}
use fscript_extensions.ClassModel.Properties.{has_property}

-- The properties of a fast-ivars class: their names must be legitimate and not be the parent's.
-- The exception is the first one that a name causes.
abbrev pub check_fast_names : List FsClass → List ℕ → List Bytes → Option Exception
check_fast_names cs parents [] = none
check_fast_names cs parents (name ∷ names) = elim (check_property_name (some name) (λ _. false)) [
  | some _ ↦ some Exception.bad_property_name
  | none ↦
      if has_property cs parents name
      then some Exception.property_in_use
      else check_fast_names cs parents names
]

-- `setValue:forKey:` of every entry.
abbrev pub set_all : Dict Bytes Slot → Dict Bytes Slot → Dict Bytes Slot
set_all [] table = table
set_all ((name, slot) ∷ rest) table = set_all rest (set_object name slot table)

-- The properties are nothing for an object that is no dictionary.
unfoldable pub init_fast_ivars_class :
    World → Option Bytes → AnyObject → Option (Dict Bytes Slot) → Outcome (World × ℕ)
unfolding init_new_class
init_fast_ivars_class w name parent none =
    if is_class parent then raised Exception.bad_properties else raised Exception.bad_parent
init_fast_ivars_class w name parent (some table) =
    let shadow = class_for_id w parent in
    let parents : List ℕ = elim shadow [ none ↦ [] | some i ↦ chain_of w.shadows i ] in
    if not (is_class parent)
    then raised Exception.bad_parent
    else elim (check_fast_names w.shadows parents (all_keys table)) [
      | some e ↦ raised e
      | none ↦ init_new_class w name parent (all_keys table) >>= λ r. done (
        with_shadow r.1
            (λ c. record c {
              properties = set_all table c.properties;
              is_objective_c = false;
              use_fast_ivars = true;
              has_ivar_dictionary = has_dictionary w shadow;
            })
            r.0,
        r.1,
      )
    ]

-- `newClass:parent:propertiesWithDefaults:`
unfoldable pub new_class_with_defaults :
    World → Option Bytes → AnyObject → Option (Dict Bytes Slot) → Outcome (World × Option ℕ)
unfolding init_fast_ivars_class
new_class_with_defaults w name parent table =
    init_fast_ivars_class w name parent table >>= class_object_of

abbrev pub null_defaults : List Bytes → Dict Bytes Slot → Dict Bytes Slot
null_defaults [] table = table
null_defaults (name ∷ names) table = null_defaults names (set_object name null table)

-- `newClass:parent:properties:`; nothing is an object that is no array.
unfoldable pub new_class_with_properties :
    World → Option Bytes → AnyObject → Option (List Bytes) → Outcome (World × Option ℕ)
unfolding new_class_with_defaults
new_class_with_properties w name parent none = raised Exception.bad_properties
new_class_with_properties w name parent (some names) =
    new_class_with_defaults w name parent (some (null_defaults names []))
