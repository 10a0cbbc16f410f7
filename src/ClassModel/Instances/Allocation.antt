-- ===== src/ClassModel/Instances/Allocation.antt =====
-- The default values that `allocator` of FSClass/Callbacks.m copies.
use fscript_extensions.Prelude.{
  ℕ, refl, sym, ap, true, false, Option, none, some, List, arith, inl, inr, length, take, drop, ltb,
  Bytes, Option-cases, length-append, [], ◌∷◌, ◌-◌, ◌≡◌, ◌∙◌, ◌≢◌,
}
use fscript_extensions.Dictionary.{Dict, object_for, string_key, pointer_key}
use fscript_extensions.ClassModel.{FsClass, Slot, World, chain_of, done, null, object}
use fscript_extensions.ClassModel.Instances.{
  Instance, allocator, copy_all_defaults, copy_defaults, fresh_object, get_instance_property_fast,
  nil_ivars, set_instance_property_fast, set_ivar, set_value,
}
use fscript_extensions.PropertyName.{
  key_of_set_selector, lowercase_first, set_selector, uppercase_first,
}
use fscript_extensions.PropertyName.Accessors.{make_property_name-eq-key}
use fscript_extensions.Dictionary.Laws.{object_for-set_other}

-- No property of the dictionary is stored under the key `q`.
abbrev pub Misses : Bytes → Dict Bytes Slot → Type 0
Misses q [] = Unit
Misses q ((key, slot) ∷ rest) = (key_of_set_selector (set_selector key) ≢ some q) × Misses q rest

selector_long : (key : Bytes) → ltb (length (set_selector key)) 4 ≡ false
unfolding set_selector uppercase_first
selector_long [] = refl
selector_long (c ∷ s) = ground (arith, length-append {0} s (b':' ∷ []))

key_exists : (key : Bytes) → (k : Bytes) × (key_of_set_selector (set_selector key) ≡ some k)
unfolding key_of_set_selector
key_exists key = (
  lowercase_first (take (length (set_selector key) - 4) (drop 3 (set_selector key))),
  ground (arith, selector_long key),
)

ivar-elsewhere :
    (q name : Bytes) (value : Option ℕ) (t : Dict Bytes (Option ℕ))
    → q ≢ name
    → object_for q (set_ivar name value t) ≡ object_for q t
ivar-elsewhere q name value t h = elim (Option-cases (object_for name t)) [
  | inl e ↦ ground (arith, e)
  | inr (v, e) ↦ ground (arith, e, object_for-set_other q name value t h)
]

set-elsewhere :
    (o : Instance) (key q : Bytes) (v : ℕ)
    → key_of_set_selector (set_selector key) ≢ some q
    → (new : Instance) × (set_value true o key v ≡ done new)
      × (object_for q new.ivars ≡ object_for q o.ivars)
unfolding set_instance_property_fast
set-elsewhere o key q v miss =
    let (k, e) = key_exists key in
    let named = make_property_name-eq-key (set_selector key) ∙ e in
    (
      record o { ivars = set_ivar k (some v) o.ivars },
      ground (arith, named),
      ivar-elsewhere q k (some v) o.ivars (λ p. miss (e ∙ sym (ap some p))),
    )

copy-elsewhere :
    (q : Bytes) (t : Dict Bytes Slot) (o : Instance)
    → Misses q t
    → (new : Instance) × (copy_defaults true t o ≡ done new)
      × (object_for q new.ivars ≡ object_for q o.ivars)
unfolding copy_defaults
copy-elsewhere q [] o h = (o, refl, refl)
copy-elsewhere q ((key, null) ∷ rest) o h = copy-elsewhere q rest o h.1
copy-elsewhere q ((key, object v) ∷ rest) o h =
    let (middle, e, same) = set-elsewhere o key q v h.0 in
    let (new, f, again) = copy-elsewhere q rest middle h.1 in
    (new, ground (arith, e, f), again ∙ same)

rounds-elsewhere :
    (q : Bytes) (t : Dict Bytes Slot) (l : List ℕ) (o : Instance)
    → Misses q t
    → (new : Instance) × (copy_all_defaults true t l o ≡ done new)
      × (object_for q new.ivars ≡ object_for q o.ivars)
unfolding copy_all_defaults
rounds-elsewhere q t [] o h = (o, refl, refl)
rounds-elsewhere q t (i ∷ l) o h =
    let (middle, e, same) = copy-elsewhere q t o h in
    let (new, f, again) = rounds-elsewhere q t l middle h in
    (new, ground (arith, e, f), again ∙ same)

-- A new object of a fast-ivars class holds `nil` for a property that only a parent declares, whatever
-- default value the parent gives it.
pub allocator_skips_parents :
    (w : World) (i : ℕ) (c : FsClass) (ivars : List Bytes) (q : Bytes)
    → c.use_fast_ivars ≡ true
    → Misses q c.properties
    → object_for q (nil_ivars ivars) ≡ some none
    → (o : Instance) × (allocator w i c ivars ≡ done o)
      × (get_instance_property_fast o q ≡ done none)
unfolding allocator get_instance_property_fast
allocator_skips_parents w i c ivars q fast miss there =
    let (o, e, same) =
      rounds-elsewhere q c.properties (chain_of w.shadows i) (fresh_object c ivars) miss in
    (o, rw fast e, ground (arith, same, there))
