-- ===== src/Collections.antt =====
-- The categories on collections: dictionaries from pairs (fscript-CLI/FSNSDictionaryPairs.m and
-- fscript-CLI/FSAWNSMutableDictionary.m), and joining an array (fscript-CLI/ArrayUtil.m).
pub mod Pairs
pub mod Join
use fscript_extensions.Prelude.{List, length, Bytes, [], ◌∷◌, ◌++◌, ◌%◌, ◌==◌, if◌then◌else◌}
use fscript_extensions.Dictionary.{Dict, Key, set_object, string_key, pointer_key}
use fscript_extensions.Trampoline.Create.{build}

-- An exception of `objectAtIndex:`, or for an odd number of items.
pub data PairsError : Type 0 where
  range_error odd_number_of_items : PairsError

pub data Built {ℓ} (A : Type ℓ) : Type ℓ where
  built : A → Built A
  failed : PairsError → Built A

-- `E` are the objects, and the dictionaries hold them by others as keys.
module _ {E : Type 0} ⦃d : Key E⦄ where
  -- The loop of `dictionaryWithPairs:` of a mutable dictionary; what a pair holds behind its first two
  -- elements is not looked at.
  unfoldable pub set_pairs : List (List E) → Dict E E → Built (Dict E E)
  set_pairs [] dict = built dict
  set_pairs ((k ∷ v ∷ more) ∷ pairs) dict = set_pairs pairs (set_object k v dict)
  set_pairs ((k ∷ []) ∷ pairs) dict = failed range_error
  set_pairs ([] ∷ pairs) dict = failed range_error

  -- The loop of `dictionaryWithFlatPairs:` of a mutable dictionary.
  unfoldable pub set_flat_pairs : List E → Dict E E → Built (Dict E E)
  set_flat_pairs [] dict = built dict
  set_flat_pairs (k ∷ v ∷ items) dict = set_flat_pairs items (set_object k v dict)
  set_flat_pairs (k ∷ []) dict = failed range_error

  -- `[NSMutableDictionary dictionaryWithPairs:]`
  unfoldable pub mutable_with_pairs : List (List E) → Built (Dict E E)
  unfolding set_pairs
  mutable_with_pairs pairs = set_pairs pairs []

  -- `[NSMutableDictionary dictionaryWithFlatPairs:]`
  unfoldable pub mutable_with_flat_pairs : List E → Built (Dict E E)
  unfolding set_flat_pairs
  mutable_with_flat_pairs items =
      if length items % 2 == 0 then set_flat_pairs items [] else failed odd_number_of_items

module _ {E : Type 0} where
  abbrev pub behind_arrays : E → E → Built (List E × List E) → Built (List E × List E)
  behind_arrays k v (built (keys, values)) = built (k ∷ keys, v ∷ values)
  behind_arrays k v (failed e) = failed e

  -- The loops that fill `keys` and `values`.
  unfoldable pub read_pairs : List (List E) → Built (List E × List E)
  read_pairs [] = built ([], [])
  read_pairs ((k ∷ v ∷ more) ∷ pairs) = behind_arrays k v (read_pairs pairs)
  read_pairs ((k ∷ []) ∷ pairs) = failed range_error
  read_pairs ([] ∷ pairs) = failed range_error

  unfoldable pub read_flat_pairs : List E → Built (List E × List E)
  read_flat_pairs [] = built ([], [])
  read_flat_pairs (k ∷ v ∷ items) = behind_arrays k v (read_flat_pairs items)
  read_flat_pairs (k ∷ []) = failed range_error

  abbrev pub build_from : {D : Type 0} → (List E → List E → D) → Built (List E × List E) → Built D
  build_from build (built (keys, values)) = built (build keys values)
  build_from build (failed e) = failed e

  -- `[NSDictionary dictionaryWithPairs:]`, over `dictionaryWithObjects:forKeys:count:`, which makes a
  -- dictionary of the kind `D` from the keys and the values.
  unfoldable pub dictionary_with_pairs :
      {D : Type 0} → (List E → List E → D) → List (List E) → Built D
  unfolding read_pairs
  dictionary_with_pairs build pairs = build_from build (read_pairs pairs)

  -- `[NSDictionary dictionaryWithFlatPairs:]`
  unfoldable pub dictionary_with_flat_pairs :
      {D : Type 0} → (List E → List E → D) → List E → Built D
  unfolding read_flat_pairs
  dictionary_with_flat_pairs build items =
      if length items % 2 == 0
      then build_from build (read_flat_pairs items)
      else failed odd_number_of_items

-- The class methods that fscript-CLI/FSNSDictionaryPairs.h adds to a class of dictionaries `D` of objects
-- `E`.
pub record DictionaryPairs (E D : Type 0) : Type 0 where
  pub dictionary_with_pairs : List (List E) → Built D
  pub dictionary_with_flat_pairs : List E → Built D

-- Those that fscript-CLI/FSAWNSMutableDictionary.h adds to a class of mutable dictionaries.
pub record MutableDictionaryPairs (E D : Type 0) : Type 0 where
  pub mutable_with_pairs : List (List E) → Built D
  pub mutable_with_flat_pairs : List E → Built D

-- `join:`, which is `componentsJoinedByString:`.
unfoldable pub join : Bytes → List Bytes → Bytes
join separator [] = []
join separator (s ∷ []) = s
join separator (s ∷ t ∷ parts) = s ++ (separator ++ join separator (t ∷ parts))

-- The method that fscript-CLI/ArrayUtil.h adds to arrays `A` of texts.
pub record ArrayUtil (A : Type 0) : Type 0 where
  pub join : Bytes → A → Bytes
