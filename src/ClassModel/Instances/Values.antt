-- ===== src/ClassModel/Instances/Values.antt =====
-- Values of an object's properties (FSClass/Callbacks.m).
use fscript_extensions.Prelude.{
  ℕ, ap, false, Option, none, some, arith, leb, Bytes, ◌∷◌, ◌≡◌, ◌∙◌, ◌&&◌,
}
use fscript_extensions.Dictionary.{Dict, object_for, string_key, pointer_key}
use fscript_extensions.ClassModel.Instances.{
  Instance, class_default, get_instance_property, set_instance_property, store_property, stored,
}
use fscript_extensions.ClassModel.{Slot, World, done, slot_of, slot_value}
use fscript_extensions.PropertyName.Accessors.{key-set_selector}
use fscript_extensions.Dictionary.Laws.{object_for-set_object}
use fscript_extensions.PropertyName.{set_selector}
use fscript_extensions.ClassModel.ClassProperties.Laws.{slot-round}

stored-store :
    (name : Bytes) (slot : Slot) (t : Dict Bytes Slot)
    → stored name (store_property name slot (some t)) ≡ some slot
stored-store name slot t = object_for-set_object name slot t

get-stored :
    (w : World) (o : Instance) (name : Bytes) (slot : Slot)
    → stored name o.dictionary ≡ some slot
    → get_instance_property w o name ≡ done (o, slot_value slot)
unfolding get_instance_property
get-stored w o name slot h = ground (arith, h)

-- After its mutator has set a property whose name does not begin with a capital letter, the accessor
-- returns the value, `nil` included, whatever the class's default is, and leaves the object alone.
pub get-set_instance_property :
    (w : World) (o : Instance) (table : Dict Bytes Slot) (c : ℕ) (s : Bytes) (value : Option ℕ)
    → o.dictionary ≡ some table
    → (leb b'A' c && leb c b'Z') ≡ false
    → (new : Instance) × (set_instance_property o (set_selector (c ∷ s)) value ≡ done new)
      × (get_instance_property w new (c ∷ s) ≡ done (new, value))
unfolding set_instance_property
get-set_instance_property w o table c s value has small =
    let new = record o { dictionary = store_property (c ∷ s) (slot_of value) o.dictionary } in
    let (key, (_, keeps)) = key-set_selector c s in
    let held : stored (c ∷ s) new.dictionary ≡ some (slot_of value) =
      rw has (object_for-set_object (c ∷ s) (slot_of value) table) in
    (
      new,
      ground (arith, key, keeps small),
      get-stored w new (c ∷ s) (slot_of value) held ∙ ap (λ r. done (new, r)) (slot-round value),
    )

-- The first reading of a property that the object does not hold yet returns the class's default and
-- stores it: from then on the object keeps that value, whatever becomes of the default.
pub default_is_kept :
    (w later : World) (o : Instance) (table : Dict Bytes Slot) (name : Bytes) (value : Option ℕ)
    → o.dictionary ≡ some table
    → object_for name table ≡ none
    → class_default w o.isa name ≡ done value
    → (new : Instance) × (get_instance_property w o name ≡ done (new, value))
      × (get_instance_property later new name ≡ done (new, value))
unfolding get_instance_property
default_is_kept w later o table name value has absent default =
    let new = record o { dictionary = store_property name (slot_of value) o.dictionary } in
    let empty : stored name o.dictionary ≡ none = rw has absent in
    let held : stored name new.dictionary ≡ some (slot_of value) =
      rw has (object_for-set_object name (slot_of value) table) in
    (
      new,
      ground (arith, empty, default),
      get-stored later new name (slot_of value) held ∙ ap (λ r. done (new, r)) (slot-round value),
    )
