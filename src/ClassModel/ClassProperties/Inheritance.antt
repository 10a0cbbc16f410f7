-- ===== src/ClassModel/ClassProperties/Inheritance.antt =====
-- Class properties of FSClass/FSClass.m as a class and its descendants see them.
use fscript_extensions.Prelude.{
  ℕ, suc, refl, ap, Bool, true, false, Option, none, some, List, arith, inl, inr, Bytes, bytes_eq,
  bytes_eq_iff, Bool-cases, Option-cases, ==_iff, [], ◌∷◌, ◌≡◌, ◌∙◌, ◌≢◌, ◌↔◌, ◌⊎◌, ◌&&◌, ◌==◌,
  if◌then◌else◌,
}
use fscript_extensions.ClassModel.{Exception, FsClass, Slot, chain_of, done, raised, slot_of}
use fscript_extensions.ClassModel.Store.{chain-update_at}
use fscript_extensions.ClassModel.ClassProperties.Laws.{
  class_owner, get-no_owner, set-owner, slot-of_other, slot-round, slot-written,
}
use fscript_extensions.ClassModel.ClassProperties.{
  class_slot, get_class_property, has_class_property, set_class_property, write_class_slot,
}

owner-has :
    (cs : List FsClass) (l : List ℕ) (i : ℕ) (name : Bytes)
    → class_owner cs l name ≡ some i
    → class_slot cs i name ≢ none
owner-has cs l i name h e =
    let (_, _, (s, c, _)) = set-owner cs l i name none h in ground (arith, c, e)

get-by_owner :
    (cs : List FsClass) (l : List ℕ) (i : ℕ) (name : Bytes) (value : Option ℕ)
    → class_owner cs l name ≡ some i
    → get_class_property (write_class_slot i name (slot_of value) cs) l name ≡ done value
unfolding get_class_property
get-by_owner cs [] i name value h = absurd (ground (arith, h))
get-by_owner cs (j ∷ l) i name value h = elim (Option-cases (class_slot cs j name)) [
  | inl e ↦
      let rest : class_owner cs l name ≡ some i = ground (arith, e, h) in
      let ne : j ≢ i = λ p. absurd (owner-has cs l i name rest (rw p at e)) in
      ground (
        arith,
        e,
        slot-of_other cs i j name (slot_of value) name (inl ne),
        get-by_owner cs l i name value rest,
      )
  | inr (s, e) ↦
      let same : j ≡ i = ground (arith, e, h) in
      ground
        (arith, same, slot-written cs i name s (slot_of value) (rw same at e), slot-round value)
]

-- A slot that is not the written one: another shadow's, or another property's.
untouched :
    (cs : List FsClass) (i j : ℕ) (name q : Bytes)
    → class_slot cs j q ≡ none
    → class_slot cs i name ≢ none
    → (j ≢ i) ⊎ (q ≢ name)
untouched cs i j name q e o = elim (Bool-cases (bytes_eq q name)) [
  | inl same ↦ inl (λ p. o (rw (p, (bytes_eq_iff q name).0 same) at e))
  | inr ne ↦ inr (λ p. ground (arith, ne, (bytes_eq_iff q name).1 p))
]

get-elsewhere :
    (cs : List FsClass) (l : List ℕ) (i : ℕ) (name q : Bytes) (slot : Slot)
    → (class_owner cs l q ≢ some i) ⊎ (q ≢ name)
    → class_slot cs i name ≢ none
    → get_class_property (write_class_slot i name slot cs) l q ≡ get_class_property cs l q
unfolding get_class_property
get-elsewhere cs [] i name q slot h o = refl
get-elsewhere cs (j ∷ l) i name q slot h o = elim (Option-cases (class_slot cs j q)) [
  | inl e ↦
      let rest : (class_owner cs l q ≢ some i) ⊎ (q ≢ name) = ground (arith, e, h) in
      ground (
        arith,
        e,
        slot-of_other cs i j name slot q (untouched cs i j name q e o),
        get-elsewhere cs l i name q slot rest o,
      )
  | inr (s, e) ↦
      let ne : (j ≢ i) ⊎ (q ≢ name) = ground (arith, e, h) in
      ground (arith, e, slot-of_other cs i j name slot q ne)
]

-- Whether the shadow `i` is the one that a chain takes a property from.
abbrev pub takes_from : Option ℕ → ℕ → Bool
takes_from none i = false
takes_from (some j) i = j == i

takes_from-true : (o : Option ℕ) (i : ℕ) → takes_from o i ≡ true → o ≡ some i
takes_from-true none i h = ground (arith, h)
takes_from-true (some j) i h = ap some ((==_iff j i).0 h)

takes_from-false : (o : Option ℕ) (i : ℕ) → takes_from o i ≡ false → o ≢ some i
takes_from-false none i h e = ground (arith, e)
takes_from-false (some j) i h e = ground (arith, h, e)

-- Where a class or one of its parents has a class property, setting it succeeds. Then, of every class
-- and every class property, exactly that property reads as the new value, and exactly for the classes
-- that take it from the same parent; all others read as before.
pub get-set_class_property :
    (cs : List FsClass) (k i : ℕ) (name : Bytes) (value : Option ℕ) (j : ℕ) (q : Bytes)
    → class_owner cs (chain_of cs k) name ≡ some i
    → (new : List FsClass) × (set_class_property cs (chain_of cs k) name value ≡ done new)
      × (get_class_property new (chain_of new j) q ≡ (
          if bytes_eq q name && takes_from (class_owner cs (chain_of cs j) q) i
          then done value
          else get_class_property cs (chain_of cs j) q))
get-set_class_property cs k i name value j q h =
    let new = write_class_slot i name (slot_of value) cs in
    let held = owner-has cs (chain_of cs k) i name h in
    let chains : chain_of new j ≡ chain_of cs j = chain-update_at (suc j) i _ cs j (λ c. refl) in
    (
      new,
      (set-owner cs (chain_of cs k) i name value h).0,
      rw chains (elim (Bool-cases (bytes_eq q name)) [
        | inr ne ↦ rw ne (
            get-elsewhere cs (chain_of cs j) i name q _
              (inr (λ e. ground (arith, ne, (bytes_eq_iff q name).1 e))) held)
        | inl same ↦ elim (Bool-cases (takes_from (class_owner cs (chain_of cs j) q) i)) [
          | inl o ↦
              rw (same, o)
                (ap (λ r. get_class_property new (chain_of cs j) r) ((bytes_eq_iff q name).0 same)
                  ∙ get-by_owner cs (chain_of cs j) i name value
                      (rw ((bytes_eq_iff q name).0 same) at (takes_from-true _ i o)))
          | inr o ↦
              rw (same, o)
                (get-elsewhere cs (chain_of cs j) i name q _ (inl (takes_from-false _ i o)) held)
        ]
      ]),
    )

-- Reading a class property, writing one and asking for one agree on which there are: a property that
-- neither the class nor a parent has raises an exception when read or written, and only that does.
pub class_property_missing :
    (cs : List FsClass) (l : List ℕ) (name : Bytes) (value : Option ℕ)
    → ((get_class_property cs l name ≡ raised Exception.no_such_class_property)
        ↔ (has_class_property cs l name ≡ false))
      × ((set_class_property cs l name value ≡ raised Exception.no_such_class_property)
          ↔ (has_class_property cs l name ≡ false))
class_property_missing cs l name value = elim (Option-cases (class_owner cs l name)) [
  | inl e ↦ let (a, b, c) = get-no_owner cs l name e in ((λ _. b, λ _. a), (λ _. b, λ _. c value))
  | inr (i, e) ↦
      let (a, b, (s, c, d)) = set-owner cs l i name value e in
      (
        (λ h. ground (arith, d, h), λ h. ground (arith, b, h)),
        (λ h. ground (arith, a, h), λ h. ground (arith, b, h)),
      )
]
