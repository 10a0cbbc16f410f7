-- ===== src/ClassModel/Introspection/Names.antt =====
-- The lists of names of FSClass/FSClass.m.
use fscript_extensions.Prelude.{
  ℕ, refl, Bool, true, false, Option, none, some, List, arith, inl, inr, get_elem?, Bytes, bytes_eq,
  Option-cases, [], ◌∷◌, ◌++◌, ◌≡◌, ◌||◌, if◌then◌else◌,
}
use fscript_extensions.Dictionary.{Dict, all_keys, object_for, string_key, pointer_key}
use fscript_extensions.ClassModel.{FsClass}
use fscript_extensions.ClassModel.Introspection.{
  all_class_method_names, all_class_property_names, all_method_names, all_property_names, block_at,
  block_for_selector, class_method_names, class_property_names, method_names, property_names,
}
use fscript_extensions.ClassModel.ClassProperties.{class_slot, has_class_property}
use fscript_extensions.ClassModel.Properties.{has_property, property_slot}

abbrev pub contains : Bytes → List Bytes → Bool
contains name [] = false
contains name (other_name ∷ names) = if bytes_eq name other_name then true else contains name names

abbrev pub is_some {ℓ} : {A : Type ℓ} → Option A → Bool
is_some none = false
is_some (some a) = true

contains-append :
    (name : Bytes) (xs ys : List Bytes)
    → contains name (xs ++ ys) ≡ (contains name xs || contains name ys)
contains-append name [] ys = refl
contains-append name (x ∷ xs) ys = ground (arith, contains-append name xs ys)

contains-all_keys {ℓ} :
    {V : Type ℓ} (name : Bytes) (t : Dict Bytes V)
    → contains name (all_keys t) ≡ is_some (object_for name t)
contains-all_keys name [] = refl
contains-all_keys name ((k, v) ∷ t) = ground (arith, contains-all_keys name t)

methods_here :
    (cs : List FsClass) (i : ℕ) (selector : Bytes)
    → contains selector (method_names cs i) ≡ is_some (block_at cs i selector)
unfolding method_names
methods_here cs i selector = elim (Option-cases (get_elem? cs i)) [
  | inl e ↦ ground (arith, e)
  | inr (c, e) ↦ ground (arith, e, contains-all_keys selector c.methods)
]

properties_here :
    (cs : List FsClass) (i : ℕ) (name : Bytes)
    → contains name (property_names cs i) ≡ is_some (property_slot cs i name)
unfolding property_names
properties_here cs i name = elim (Option-cases (get_elem? cs i)) [
  | inl e ↦ ground (arith, e)
  | inr (c, e) ↦ ground (arith, e, contains-all_keys name c.properties)
]

class_properties_here :
    (cs : List FsClass) (i : ℕ) (name : Bytes)
    → contains name (class_property_names cs i) ≡ is_some (class_slot cs i name)
unfolding class_property_names
class_properties_here cs i name = elim (Option-cases (get_elem? cs i)) [
  | inl e ↦ ground (arith, e)
  | inr (c, e) ↦ ground (arith, e, contains-all_keys name c.class_properties)
]

methods_complete :
    (cs : List FsClass) (l : List ℕ) (name : Bytes)
    → contains name (all_method_names cs l) ≡ is_some (block_for_selector cs l name)
unfolding all_method_names block_for_selector
methods_complete cs [] name = refl
methods_complete cs (i ∷ l) name = ground (
  arith,
  contains-append name (method_names cs i) (all_method_names cs l),
  methods_here cs i name,
  methods_complete cs l name,
)

properties_complete :
    (cs : List FsClass) (l : List ℕ) (name : Bytes)
    → contains name (all_property_names cs l) ≡ has_property cs l name
unfolding all_property_names has_property
properties_complete cs [] name = refl
properties_complete cs (i ∷ l) name = ground (
  arith,
  contains-append name (property_names cs i) (all_property_names cs l),
  properties_here cs i name,
  properties_complete cs l name,
)

class_properties_complete :
    (cs : List FsClass) (l : List ℕ) (name : Bytes)
    → contains name (all_class_property_names cs l) ≡ has_class_property cs l name
unfolding all_class_property_names has_class_property
class_properties_complete cs [] name = refl
class_properties_complete cs (i ∷ l) name = ground (
  arith,
  contains-append name (class_property_names cs i) (all_class_property_names cs l),
  class_properties_here cs i name,
  class_properties_complete cs l name,
)

-- The lists of names of a class and its parents are complete and hold nothing else: of methods, the
-- selectors that `blockForSelector:` finds a block for; of instance and class properties, the names
-- that `_hasProperty:` and `_hasClassProperty:` say yes to.
pub all_names_complete :
    (cs : List FsClass) (l : List ℕ) (name : Bytes)
    → (contains name (all_method_names cs l) ≡ is_some (block_for_selector cs l name))
      × (contains name (all_property_names cs l) ≡ has_property cs l name)
      × (contains name (all_class_property_names cs l) ≡ has_class_property cs l name)
all_names_complete cs l name =
    (methods_complete cs l name, properties_complete cs l name, class_properties_complete cs l name)

names_here : (cs : List FsClass) (i : ℕ) → class_method_names cs i ≡ method_names cs i
unfolding class_method_names method_names
names_here cs i = refl

names_along : (cs : List FsClass) (l : List ℕ) → all_class_method_names cs l ≡ all_method_names cs l
unfolding all_class_method_names all_method_names
names_along cs [] = refl
names_along cs (i ∷ l) = ground (arith, names_here cs i, names_along cs l)

-- `classMethodNames` and `allClassMethodNames` list the instance methods' names, whatever class methods
-- there are.
pub class_method_names_are_methods :
    (cs : List FsClass) (i : ℕ) (l : List ℕ)
    → (class_method_names cs i ≡ method_names cs i)
      × (all_class_method_names cs l ≡ all_method_names cs l)
class_method_names_are_methods cs i l = (names_here cs i, names_along cs l)
