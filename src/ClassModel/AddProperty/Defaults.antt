-- ===== src/ClassModel/AddProperty/Defaults.antt =====
-- What a class and its descendants see of a new property (FSClass/FSClass.m).
use fscript_extensions.Prelude.{
  ℕ, zero, suc, refl, ap, Bool, true, false, Option, none, some, List, arith, inl, inr, get_elem?,
  Bytes, Option-cases, [], ◌∷◌, ◌≡◌, ◌∙◌, ◌≢◌,
}
use fscript_extensions.ClassModel.{
  FsClass, Imp, Slot, World, chain_of, done, slot_of, slot_value, update_at,
}
use fscript_extensions.ClassModel.AddProperty.{add_property, has_slot, install_accessors}
use fscript_extensions.ClassModel.Store.{
  chain-update_at, get_elem?-update_other, get_elem?-update_same,
}
use fscript_extensions.ClassModel.Chain.{chain_child, chain_root}
use fscript_extensions.PropertyName.{check_property_name, set_selector}
use fscript_extensions.ClassModel.Properties.{
  default_value_for_property, has_property, property_slot, write_property_slot,
}
use fscript_extensions.ClassModel.Methods.{install_method, mark_tramped}
use fscript_extensions.Dictionary.{object_for, string_key, pointer_key}
use fscript_extensions.Dictionary.Laws.{object_for-set_object, object_for-set_other}
use fscript_extensions.ClassModel.Methods.Dispatch.{put-shadows}
use fscript_extensions.ClassModel.ClassProperties.Laws.{slot-round}

default-congr :
    (cs ds : List FsClass) (l : List ℕ) (q : Bytes)
    → ((j : ℕ) → property_slot cs j q ≡ property_slot ds j q)
    → default_value_for_property cs l q ≡ default_value_for_property ds l q
unfolding default_value_for_property
default-congr cs ds [] q h = refl
default-congr cs ds (j ∷ l) q h = ground (arith, h j, default-congr cs ds l q h)

slot-update :
    (i : ℕ) (f : FsClass → FsClass) (cs : List FsClass) (j : ℕ) (q : Bytes)
    → ((c : FsClass) → object_for q (f c).properties ≡ object_for q c.properties)
    → property_slot (update_at i f cs) j q ≡ property_slot cs j q
slot-update i f [] j q h = refl
slot-update zero f (c ∷ cs) zero q h = h c
slot-update zero f (c ∷ cs) (suc j) q h = refl
slot-update (suc i) f (c ∷ cs) zero q h = refl
slot-update (suc i) f (c ∷ cs) (suc j) q h = slot-update i f cs j q h

slot-elsewhere :
    (i : ℕ) (f : FsClass → FsClass) (cs : List FsClass) (j : ℕ) (q : Bytes)
    → j ≢ i
    → property_slot (update_at i f cs) j q ≡ property_slot cs j q
slot-elsewhere i f cs j q other =
    ap (λ o. elim o [ none ↦ none | some c ↦ object_for q c.properties ])
      (get_elem?-update_other i j f cs other)

install-shadows :
    (w : World) (i : ℕ) (c : FsClass) (imp : Imp) (b : Bool) (selector : Bytes) (t : Bool)
    → (install_method w i c imp b selector t).shadows
      ≡ update_at i (mark_tramped selector t) w.shadows
unfolding install_method
install-shadows w i c imp b selector t =
    ap (λ r. update_at i (mark_tramped selector t) r) (put-shadows w c imp b selector)

module _ (w : World) (i : ℕ) (c : FsClass) (getter setter : Imp) (b : Bool) (name : Bytes) where
  abbrev pub equipped : World
  equipped = install_accessors w i c getter setter b name

  pub equipped-shadows :
      equipped.shadows
      ≡ update_at i
          (mark_tramped (set_selector name) false)
          (update_at i (mark_tramped name false) w.shadows)
  equipped-shadows =
      install-shadows (install_method w i c getter b name false) i c setter b (set_selector name)
        false
      ∙ ap (λ r. update_at i (mark_tramped (set_selector name) false) r)
          (install-shadows w i c getter b name false)

  equipped-slot :
      (j : ℕ) (q : Bytes) → property_slot equipped.shadows j q ≡ property_slot w.shadows j q
  equipped-slot j q =
      ap (λ r. property_slot r j q) equipped-shadows
      ∙ slot-update i _ _ j q (λ d. refl)
      ∙ slot-update i _ _ j q (λ d. refl)

  equipped-chain : (j : ℕ) → chain_of equipped.shadows j ≡ chain_of w.shadows j
  equipped-chain j =
      ap (λ r. chain_of r j) equipped-shadows
      ∙ chain-update_at (suc j) i _ _ j (λ d. refl)
      ∙ chain-update_at (suc j) i _ _ j (λ d. refl)

  equipped-default :
      (j : ℕ) (q : Bytes)
      → default_value_for_property equipped.shadows (chain_of equipped.shadows j) q
        ≡ default_value_for_property w.shadows (chain_of w.shadows j) q
  equipped-default j q =
      rw (equipped-chain j)
        (default-congr equipped.shadows w.shadows (chain_of w.shadows j) q (λ k. equipped-slot k q))

default-own :
    (cs : List FsClass) (i : ℕ) (c : FsClass) (q : Bytes) (slot : Slot)
    → get_elem? cs i ≡ some c
    → object_for q c.properties ≡ some slot
    → default_value_for_property cs (chain_of cs i) q ≡ done (slot_value slot)
unfolding default_value_for_property
default-own cs i c q slot at_i h = elim (Option-cases c.parent_class) [
  | inl p ↦ rw (chain_root i cs i c at_i p) (ground (arith, at_i, h))
  | inr (k, p) ↦ rw (chain_child i cs i k c at_i p) (ground (arith, at_i, h))
]

added :
    (w : World) (i : ℕ) (c : FsClass) (name : Bytes) (value : Option ℕ)
    → c.is_objective_c ≡ false
    → c.use_fast_ivars ≡ false
    → check_property_name (some name) (has_slot c.properties) ≡ none
    → has_property w.shadows (chain_of w.shadows i) name ≡ false
    → add_property w i c (some name) value
      ≡ done (
          install_accessors
            (record w { shadows = write_property_slot i name (slot_of value) w.shadows })
            i
            c
            Imp.get_instance_property
            Imp.set_instance_property
            true
            name)
unfolding add_property
added w i c name value o f legit free = rw (o, f, legit, free) refl

-- A legitimate name that neither the class nor a parent uses can be added to a class that keeps its
-- properties in a dictionary. Then its default value is the given one; every other property has the
-- default value that it had, for every class; and no other class gets an entry for the new property.
pub add_property-default :
    (w : World) (i : ℕ) (c : FsClass) (name : Bytes) (value : Option ℕ) (j : ℕ) (q : Bytes) (k : ℕ)
    → get_elem? w.shadows i ≡ some c
    → c.is_objective_c ≡ false
    → c.use_fast_ivars ≡ false
    → check_property_name (some name) (has_slot c.properties) ≡ none
    → has_property w.shadows (chain_of w.shadows i) name ≡ false
    → q ≢ name
    → k ≢ i
    → (new : World) × (add_property w i c (some name) value ≡ done new)
      × (default_value_for_property new.shadows (chain_of new.shadows i) name ≡ done value)
      × (default_value_for_property new.shadows (chain_of new.shadows j) q
          ≡ default_value_for_property w.shadows (chain_of w.shadows j) q)
      × (property_slot new.shadows k name ≡ property_slot w.shadows k name)
add_property-default w i c name value j q k at_i o f legit free ne other =
    let written = record w { shadows = write_property_slot i name (slot_of value) w.shadows } in
    let own =
      default-own written.shadows i _ name (slot_of value)
        (get_elem?-update_same i _ w.shadows c at_i)
        (object_for-set_object name (slot_of value) c.properties) in
    let same : chain_of written.shadows j ≡ chain_of w.shadows j =
      chain-update_at (suc j) i _ w.shadows j (λ d. refl) in
    (
      install_accessors written i c Imp.get_instance_property Imp.set_instance_property true name,
      added w i c name value o f legit free,
      equipped-default written i c _ _ true name i name ∙ own ∙ ap done (slot-round value),
      equipped-default written i c _ _ true name j q
          ∙ rw same (
              default-congr written.shadows w.shadows (chain_of w.shadows j) q (λ p.
                slot-update i _ w.shadows p q
                  (λ d. object_for-set_other q name (slot_of value) d.properties ne))),
      equipped-slot written i c _ _ true name k name ∙ slot-elsewhere i _ w.shadows k name other,
    )
