-- ===== src/ClassModel.antt =====
-- The shadow objects of classes: the state of FSClass/FSClass.m and FSClass/FSClassCreation.m, and
-- of the parts of the Objective-C runtime that they change.
pub mod Chain
pub mod Store
pub mod ClassProperties
pub mod Properties
pub mod Creation
pub mod FastClasses
pub mod Methods
pub mod Introspection
pub mod AddProperty
pub mod Instances
pub mod Super
pub mod Wrapped
pub mod Anonymous
pub mod Interface
use fscript_extensions.Prelude.{
  ℕ, zero, suc, Bool, Option, none, some, List, get_elem?, Bytes, [], ◌∷◌,
}
use fscript_extensions.Dictionary.{Dict}

-- A value of a property's dictionary: `[NSNull null]`, or an object other than `nil`.
pub data Slot : Type 0 where
  null : Slot
  object : ℕ → Slot

-- `value ? value : [NSNull null]`, where nothing is `nil`.
abbrev pub slot_of : Option ℕ → Slot
slot_of none = null
slot_of (some v) = object v

-- `value == [NSNull null] ? nil : value`
abbrev pub slot_value : Slot → Option ℕ
slot_value null = none
slot_value (object v) = some v

-- The functions that are installed as methods: those of FSClass/Callbacks.m, and a trampoline to a
-- block.
pub data Imp : Type 0 where
  get_instance_property set_instance_property get_instance_property_fast set_instance_property_fast
        get_class_property set_class_property allocator super_method :
      Imp
  run_instance_method run_class_method : ℕ → Imp
  trampoline : ℕ → ℕ → Imp

-- A class of the runtime. Its superclass, a class, is given by its number.
pub record RuntimeClass : Type 0 where
  pub name : Bytes
  pub superclass : Option ℕ
  pub ivars : List Bytes
  pub imps : Dict Bytes Imp
  pub meta_imps : Dict Bytes Imp

-- `FSClass`. `childClasses` is always empty; `parentAllocImp` and `metaclassObject` are determined
-- by the other fields.
pub record FsClass : Type 0 where
  pub class_name : Bytes
  pub class_object : ℕ
  pub is_objective_c : Bool
  pub use_fast_ivars : Bool
  pub has_ivar_dictionary : Bool
  pub parent_class : Option ℕ
  pub properties : Dict Bytes Slot
  pub class_properties : Dict Bytes Slot
  pub methods : Dict Bytes ℕ
  pub class_methods : Dict Bytes ℕ
  pub tramped_methods : Dict Bytes Bool

-- The static variables of FSClass/FSClassCreation.m, the shadow objects, and the runtime's classes.
-- Shadow objects and classes are numbered from the oldest.
pub record World : Type 0 where
  pub shadows : List FsClass
  pub runtime : List RuntimeClass
  pub class_definitions : Dict Bytes ℕ
  pub class_names_by_pointer : Dict ℕ Bytes
  pub class_counter : ℕ

-- The exceptions that are raised, by what they complain of; `instance_as_class` is none of them: an
-- instance is read as a class, and nothing is said about what follows.
pub data Exception : Type 0 where
  no_such_class_property no_such_property property_in_use bad_property_name bad_class_property_name
        objective_c_class fast_ivars_class bad_parent bad_class_name bad_properties class_exists
        not_a_block wrong_parameter_count too_many_arguments illegal_message_name range_error
        not_a_string instance_as_class :
      Exception

pub data Outcome {ℓ} (A : Type ℓ) : Type ℓ where
  done : A → Outcome A
  raised : Exception → Outcome A

-- The rest of a method behind a call that may raise an exception.
infixl 5 ◌>>=◌
abbrev pub ◌>>=◌ {ℓ κ} : {A : Type ℓ} {B : Type κ} → Outcome A → (A → Outcome B) → Outcome B
done a >>= f = f a
raised e >>= f = raised e

-- Replaces a list's element.
abbrev pub update_at {ℓ} : {A : Type ℓ} → ℕ → (A → A) → List A → List A
update_at i f [] = []
update_at zero f (x ∷ xs) = f x ∷ xs
update_at (suc i) f (x ∷ xs) = x ∷ update_at i f xs

-- The shadow `i`, its parent, that one's parent and so on, as far as `parentClass` is not `nil`. The
-- fuel bounds how many are followed.
unfoldable pub chain : ℕ → List FsClass → ℕ → List ℕ
chain zero cs i = []
chain (suc fuel) cs i = elim (get_elem? cs i) [
  | none ↦ []
  | some c ↦ i ∷ (elim c.parent_class [ none ↦ [] | some q ↦ chain fuel cs q ])
]

-- A parent is older than its children, so that the fuel suffices.
abbrev pub chain_of : List FsClass → ℕ → List ℕ
chain_of cs i = chain (suc i) cs i
