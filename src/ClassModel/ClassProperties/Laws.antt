-- ===== src/ClassModel/ClassProperties/Laws.antt =====
-- What reading and writing class properties promise, through inheritance.
use fscript_extensions.Prelude.{
  ℕ, zero, suc, refl, ap, true, false, Option, none, some, List, arith, inl, inr, Bytes,
  Option-cases, [], ◌∷◌, ◌≡◌, ◌≢◌, ◌⊎◌,
}
use fscript_extensions.ClassModel.{Exception, FsClass, Slot, done, raised, slot_of, slot_value}
use fscript_extensions.ClassModel.ClassProperties.{
  class_slot, get_class_property, has_class_property, set_class_property, write_class_slot,
}
use fscript_extensions.Dictionary.Laws.{object_for-set_object, object_for-set_other}
use fscript_extensions.Dictionary.{string_key, pointer_key}

-- The first shadow of a chain that holds the property itself.
abbrev pub class_owner : List FsClass → List ℕ → Bytes → Option ℕ
class_owner cs [] name = none
class_owner cs (i ∷ parents) name = elim (class_slot cs i name) [
  | some _ ↦ some i
  | none ↦ class_owner cs parents name
]

pub slot-written :
    (cs : List FsClass) (i : ℕ) (name : Bytes) (old slot : Slot)
    → class_slot cs i name ≡ some old
    → class_slot (write_class_slot i name slot cs) i name ≡ some slot
slot-written [] i name old slot h = ground (arith, h)
slot-written (c ∷ cs) zero name old slot h = object_for-set_object name slot c.class_properties
slot-written (c ∷ cs) (suc i) name old slot h = slot-written cs i name old slot h

pub slot-of_other :
    (cs : List FsClass) (i j : ℕ) (name : Bytes) (slot : Slot) (q : Bytes)
    → (j ≢ i) ⊎ (q ≢ name)
    → class_slot (write_class_slot i name slot cs) j q ≡ class_slot cs j q
slot-of_other [] i j name slot q h = refl
slot-of_other (c ∷ cs) zero zero name slot q (inl h) = absurd (h refl)
slot-of_other (c ∷ cs) zero zero name slot q (inr h) =
    object_for-set_other q name slot c.class_properties h
slot-of_other (c ∷ cs) zero (suc j) name slot q h = refl
slot-of_other (c ∷ cs) (suc i) zero name slot q h = refl
slot-of_other (c ∷ cs) (suc i) (suc j) name slot q (inl h) =
    slot-of_other cs i j name slot q (inl (λ e. h (ap suc e)))
slot-of_other (c ∷ cs) (suc i) (suc j) name slot q (inr h) =
    slot-of_other cs i j name slot q (inr h)

pub slot-round : (value : Option ℕ) → slot_value (slot_of value) ≡ value
slot-round none = refl
slot-round (some v) = refl

-- Reading through a chain that has no owner, and through one that has.
pub get-no_owner :
    (cs : List FsClass) (l : List ℕ) (name : Bytes)
    → class_owner cs l name ≡ none
    → (get_class_property cs l name ≡ raised Exception.no_such_class_property)
      × (has_class_property cs l name ≡ false)
      × ((value : Option ℕ)
          → set_class_property cs l name value ≡ raised Exception.no_such_class_property)
unfolding get_class_property has_class_property set_class_property
get-no_owner cs [] name h = (refl, refl, λ value. refl)
get-no_owner cs (j ∷ l) name h = elim (Option-cases (class_slot cs j name)) [
  | inl e ↦
      let rest = get-no_owner cs l name (ground (arith, e, h)) in
      (
        ground (arith, e, rest.0),
        ground (arith, e, rest.1),
        λ value. ground (arith, e, rest.2 value),
      )
  | inr (s, e) ↦ absurd (ground (arith, e, h))
]

pub set-owner :
    (cs : List FsClass) (l : List ℕ) (i : ℕ) (name : Bytes) (value : Option ℕ)
    → class_owner cs l name ≡ some i
    → (set_class_property cs l name value ≡ done (write_class_slot i name (slot_of value) cs))
      × (has_class_property cs l name ≡ true)
      × ((s : Slot) × (class_slot cs i name ≡ some s)
          × (get_class_property cs l name ≡ done (slot_value s)))
unfolding set_class_property has_class_property get_class_property
set-owner cs [] i name value h = absurd (ground (arith, h))
set-owner cs (j ∷ l) i name value h = elim (Option-cases (class_slot cs j name)) [
  | inl e ↦
      let (a, b, (s, c, d)) = set-owner cs l i name value (ground (arith, e, h)) in
      (ground (arith, e, a), ground (arith, e, b), (s, c, ground (arith, e, d)))
  | inr (s, e) ↦
      let same : j ≡ i = ground (arith, e, h) in
      (ground (arith, e, same), ground (arith, e), (s, ground (arith, e, same), ground (arith, e)))
]
