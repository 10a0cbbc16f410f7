-- ===== src/Tests/Classes.antt =====
-- Classes, their properties and methods at concrete inputs.
use fscript_extensions.Prelude.{
  ℕ, zero, suc, refl, ap, true, false, none, some, List, arith, inl, inr, get_elem?, Bytes, codes,
  bytes_eq, [], ◌∷◌, ◌≡◌, ◌∙◌, ◌⊎◌, ◌&&◌, if◌then◌else◌,
}
use fscript_extensions.ClassModel.{
  FsClass, RuntimeClass, World, chain, chain_of, done, null, object,
}
use fscript_extensions.ClassModel.Creation.Registry.{IsRegistered, NamesDiffer}
use fscript_extensions.ClassModel.Chain.{ParentsOlder}
use fscript_extensions.Selector.{all_ascii, until_null}
use fscript_extensions.ClassModel.Introspection.{
  all_class_property_names, all_method_names, all_property_names, block_for_selector,
}
use fscript_extensions.ClassModel.Introspection.Names.{all_names_complete, contains, is_some}
use fscript_extensions.ClassModel.Creation.{
  class_for_id, class_for_pointer, class_id, new_class, runtime_name,
}
use fscript_extensions.ClassModel.ClassProperties.Laws.{class_owner}
use fscript_extensions.ClassModel.ClassProperties.Inheritance.{get-set_class_property, takes_from}
use fscript_extensions.ClassModel.ClassProperties.{
  get_class_property, has_class_property, set_class_property,
}
use fscript_extensions.ClassModel.Properties.{has_property}
use fscript_extensions.ClassModel.Creation.NewClass.{new_class-IsRegistered}

abbrev ns_object : RuntimeClass
ns_object = record {
  name = codes "NSObject";
  superclass = none;
  ivars = [];
  imps = [];
  meta_imps = [];
}

abbrev fs_class : RuntimeClass
fs_class = record {
  name = codes "FSClass";
  superclass = some 0;
  ivars = [];
  imps = [];
  meta_imps = [];
}

abbrev pub empty_world : World
empty_world = record {
  shadows = [];
  runtime = ns_object ∷ fs_class ∷ [];
  class_definitions = [];
  class_names_by_pointer = [];
  class_counter = 0;
}

pub empty_world-IsRegistered : IsRegistered empty_world
empty_world-IsRegistered = record {
  found = λ i c e. ground (arith, e);
  by_pointer = λ p name h. ground (arith, h);
  by_name = λ name i h. ground (arith, h);
  parents = λ i q c e p. ground (arith, e);
}

names_of :
    (p : ℕ) (name : Bytes)
    → runtime_name empty_world p ≡ some name
    → ((p ≡ 0) × (name ≡ codes "NSObject")) ⊎ ((p ≡ 1) × (name ≡ codes "FSClass"))
names_of zero name h = inl (refl, ground (arith, h))
names_of (suc zero) name h = inr (refl, ground (arith, h))
names_of (suc (suc p)) name h = ground (arith, h)

pub empty_world-NamesDiffer : NamesDiffer empty_world
empty_world-NamesDiffer p q name h k = ground (arith, names_of p name h, names_of q name k)

dog-ascii : all_ascii (codes "Dog") ≡ true
unfolding all_ascii
dog-ascii = refl

dog-until_null : until_null (codes "Dog") ≡ codes "Dog"
unfolding until_null
dog-until_null = refl

new_class-IsRegistered_example :
    (new : World) × (p : ℕ) × (new_class empty_world (some (codes "Dog")) (class_id 0)
      ≡ done (new, some p))
    × IsRegistered new
    × NamesDiffer new
    × ((i : ℕ) × (c : FsClass) × (class_for_pointer new p ≡ some i)
        × (get_elem? new.shadows i ≡ some c)
        × (c.parent_class ≡ class_for_id empty_world (class_id 0))
        × (c.has_ivar_dictionary ≡ true))
new_class-IsRegistered_example =
    new_class-IsRegistered empty_world (codes "Dog") (class_id 0) empty_world-IsRegistered
      empty_world-NamesDiffer refl dog-ascii dog-until_null refl

-- A class with the class property `count` and the method `size`, and a child of it.
abbrev animal : FsClass
animal = record {
  class_name = codes "Animal";
  class_object = 2;
  is_objective_c = false;
  use_fast_ivars = false;
  has_ivar_dictionary = true;
  parent_class = none;
  properties = (codes "age", object 7) ∷ [];
  class_properties = (codes "count", object 5) ∷ [];
  methods = (codes "size", 9) ∷ [];
  class_methods = (codes "make", 4) ∷ [];
  tramped_methods = [];
}

abbrev dog : FsClass
dog = record {
  class_name = codes "Dog";
  class_object = 3;
  is_objective_c = false;
  use_fast_ivars = false;
  has_ivar_dictionary = true;
  parent_class = some 0;
  properties = (codes "tail", null) ∷ [];
  class_properties = [];
  methods = [];
  class_methods = [];
  tramped_methods = [];
}

abbrev two_shadows : List FsClass
two_shadows = animal ∷ dog ∷ []

two_shadows-ParentsOlder : ParentsOlder two_shadows
two_shadows-ParentsOlder zero q c e p =
    let same : animal ≡ c = ground (arith, e) in ground (arith, ap (λ r. r.parent_class) same ∙ p)
two_shadows-ParentsOlder (suc zero) zero c e p = (omega arith, (animal, refl))
two_shadows-ParentsOlder (suc zero) (suc q) c e p =
    let same : dog ≡ c = ground (arith, e) in ground (arith, ap (λ r. r.parent_class) same ∙ p)
two_shadows-ParentsOlder (suc (suc i)) q c e p = ground (arith, e)

count-owner : class_owner two_shadows (chain_of two_shadows 1) (codes "count") ≡ some 0
unfolding chain
count-owner = refl

get-set_class_property_example :
    (new : List FsClass) × (set_class_property two_shadows
        (chain_of two_shadows 1)
        (codes "count")
        (some 6)
      ≡ done new)
    × (get_class_property new (chain_of new 0) (codes "count") ≡ (
        if bytes_eq (codes "count") (codes "count")
          && takes_from (class_owner two_shadows (chain_of two_shadows 0) (codes "count")) 0
        then done (some 6)
        else get_class_property two_shadows (chain_of two_shadows 0) (codes "count")))
get-set_class_property_example =
    get-set_class_property two_shadows 1 0 (codes "count") (some 6) 0 (codes "count") count-owner

all_names_complete_example :
    (contains (codes "size") (all_method_names two_shadows (1 ∷ 0 ∷ []))
      ≡ is_some (block_for_selector two_shadows (1 ∷ 0 ∷ []) (codes "size")))
    × (contains (codes "size") (all_property_names two_shadows (1 ∷ 0 ∷ []))
        ≡ has_property two_shadows (1 ∷ 0 ∷ []) (codes "size"))
    × (contains (codes "size") (all_class_property_names two_shadows (1 ∷ 0 ∷ []))
        ≡ has_class_property two_shadows (1 ∷ 0 ∷ []) (codes "size"))
all_names_complete_example = all_names_complete two_shadows (1 ∷ 0 ∷ []) (codes "size")
