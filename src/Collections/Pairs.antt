-- ===== src/Collections/Pairs.antt =====
-- Dictionaries from pairs and from alternating keys and values (fscript-CLI/FSNSDictionaryPairs.m and
-- fscript-CLI/FSAWNSMutableDictionary.m).
use fscript_extensions.Prelude.{
  refl, ap, Option, none, some, List, arith, inl, inr, length, Bool-cases, [], ◌∷◌, ◌%◌, ◌≡◌, ◌∙◌,
  if◌then◌else◌,
}
use fscript_extensions.Dictionary.{Dict, Key, object_for, set_object, string_key, pointer_key}
use fscript_extensions.Collections.{
  DictionaryPairs, MutableDictionaryPairs, behind_arrays, built, dictionary_with_flat_pairs,
  dictionary_with_pairs, failed, mutable_with_flat_pairs, mutable_with_pairs, odd_number_of_items,
  read_flat_pairs, read_pairs, set_flat_pairs, set_pairs,
}
use fscript_extensions.Trampoline.Create.{build}
use fscript_extensions.Dictionary.Laws.{object_for-set_object, object_for-set_other}

unfoldable pub dictionary_class : {E D : Type 0} → (List E → List E → D) → DictionaryPairs E D
unfolding dictionary_with_pairs dictionary_with_flat_pairs
dictionary_class build = record {
  dictionary_with_pairs = dictionary_with_pairs build;
  dictionary_with_flat_pairs = dictionary_with_flat_pairs build;
}

unfoldable pub mutable_dictionary_class :
    {E : Type 0} ⦃d : Key E⦄ → MutableDictionaryPairs E (Dict E E)
unfolding mutable_with_pairs mutable_with_flat_pairs
mutable_dictionary_class = record {
  mutable_with_pairs = mutable_with_pairs;
  mutable_with_flat_pairs = mutable_with_flat_pairs;
}

module _ {E : Type 0} where
  -- Pairs as arrays of two elements, and as one array.
  abbrev pub as_arrays : List (E × E) → List (List E)
  as_arrays [] = []
  as_arrays ((k, v) ∷ pairs) = (k ∷ v ∷ []) ∷ as_arrays pairs

  abbrev pub as_items : List (E × E) → List E
  as_items [] = []
  as_items ((k, v) ∷ pairs) = k ∷ v ∷ as_items pairs

  as_items-even : (pairs : List (E × E)) → length (as_items pairs) % 2 ≡ 0
  as_items-even [] = omega arith
  as_items-even ((k, v) ∷ pairs) = omega (arith, as_items-even pairs)

  read_flat-read_pairs :
      (pairs : List (E × E)) → read_flat_pairs (as_items pairs) ≡ read_pairs (as_arrays pairs)
  unfolding read_flat_pairs read_pairs
  read_flat-read_pairs [] = refl
  read_flat-read_pairs ((k, v) ∷ pairs) = ap (behind_arrays k v) (read_flat-read_pairs pairs)

module _ {E : Type 0} ⦃d : Key E⦄ where
  -- The last value that the pairs give for a key, or else another.
  abbrev pub last_value : E → List (E × E) → Option E → Option E
  last_value k [] before = before
  last_value k ((l, v) ∷ pairs) before = last_value k pairs (if d.equal k l then some v else before)

  object_for-set :
      (k l v : E) (dict : Dict E E)
      → object_for k (set_object l v dict) ≡ (if d.equal k l then some v else object_for k dict)
  object_for-set k l v dict = elim (Bool-cases (d.equal k l)) [
    | inl e ↦ rw (e, (d.equal_iff k l).0 e) (object_for-set_object l v dict)
    | inr e ↦
        rw e (object_for-set_other k l v dict (λ same. ground (arith, (d.equal_iff k l).1 same, e)))
  ]

  set_pairs-last_value :
      (pairs : List (E × E)) (dict : Dict E E)
      → (result : Dict E E) × (set_pairs (as_arrays pairs) dict ≡ built result)
        × (set_flat_pairs (as_items pairs) dict ≡ built result)
        × ((k : E) → object_for k result ≡ last_value k pairs (object_for k dict))
  unfolding set_pairs set_flat_pairs
  set_pairs-last_value [] dict = (dict, refl, refl, λ k. refl)
  set_pairs-last_value ((l, v) ∷ pairs) dict =
      let (result, arrays, items, values) = set_pairs-last_value pairs (set_object l v dict) in
      (result, arrays, items, λ k. values k ∙ ap (last_value k pairs) (object_for-set k l v dict))

  -- From the same pairs, `dictionaryWithPairs:` and `dictionaryWithFlatPairs:` of a mutable dictionary make
  -- the same dictionary, which holds for each key the value of its last pair and no other keys.
  pub mutable_with_flat_pairs-last_value :
      (pairs : List (E × E))
      → (result : Dict E E) × (mutable_with_pairs (as_arrays pairs) ≡ built result)
        × (mutable_with_flat_pairs (as_items pairs) ≡ built result)
        × ((k : E) → object_for k result ≡ last_value k pairs none)
  unfolding mutable_with_pairs mutable_with_flat_pairs
  mutable_with_flat_pairs-last_value pairs =
      let (result, arrays, items, values) = set_pairs-last_value pairs [] in
      (result, arrays, ground (arith, as_items-even pairs, items), values)

-- Whatever makes the dictionary from the keys and the values: from the same pairs the two class methods
-- of `NSDictionary` give it the same arrays; and an odd number of items raises the exception for it in
-- both classes of dictionaries.
pub dictionary_with_flat_pairs-pairs :
    {E D : Type 0} ⦃d : Key E⦄ (build : List E → List E → D) (pairs : List (E × E)) (odd : List E)
    → length odd % 2 ≡ 1
    → (dictionary_with_flat_pairs build (as_items pairs)
        ≡ dictionary_with_pairs build (as_arrays pairs))
      × (dictionary_with_flat_pairs build odd ≡ failed odd_number_of_items)
      × (mutable_with_flat_pairs odd ≡ failed odd_number_of_items)
unfolding dictionary_with_flat_pairs dictionary_with_pairs mutable_with_flat_pairs
dictionary_with_flat_pairs-pairs build pairs odd h = (
  ground (arith, as_items-even pairs, read_flat-read_pairs pairs),
  ground (arith, h),
  ground (arith, h),
)
