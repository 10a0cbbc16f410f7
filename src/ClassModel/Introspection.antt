-- ===== src/ClassModel/Introspection.antt =====
-- Blocks and names by introspection, and the classes that implement a method: the reflection methods
-- of FSClass/FSClass.m, on the shadows and the receiver's chain of parents. A block made by
-- `blockWithSelector:` is given by its selector.
pub mod Names
pub mod Implementors
use fscript_extensions.Prelude.{ℕ, Option, none, some, List, get_elem?, Bytes, [], ◌∷◌, ◌++◌}
use fscript_extensions.ClassModel.{FsClass}
use fscript_extensions.Dictionary.{all_keys, object_for, string_key, pointer_key}

-- `[methods objectForKey:]` and `[classMethods objectForKey:]` of the shadow `i`.
abbrev pub block_at : List FsClass → ℕ → Bytes → Option ℕ
block_at cs i selector = elim (get_elem? cs i) [
  | none ↦ none
  | some c ↦ object_for selector c.methods
]

abbrev pub class_block_at : List FsClass → ℕ → Bytes → Option ℕ
class_block_at cs i selector = elim (get_elem? cs i) [
  | none ↦ none
  | some c ↦ object_for selector c.class_methods
]

-- `classObject` of the shadow `i`.
abbrev pub class_object_at : List FsClass → ℕ → Option ℕ
class_object_at cs i = elim (get_elem? cs i) [ none ↦ none | some c ↦ some c.class_object ]

unfoldable pub block_for_selector : List FsClass → List ℕ → Bytes → Option ℕ
block_for_selector cs [] selector = none
block_for_selector cs (i ∷ parents) selector = elim (block_at cs i selector) [
  | some block ↦ some block
  | none ↦ block_for_selector cs parents selector
]

unfoldable pub method_implementor : List FsClass → List ℕ → Bytes → Option ℕ
method_implementor cs [] selector = none
method_implementor cs (i ∷ parents) selector = elim (block_at cs i selector) [
  | some block ↦ class_object_at cs i
  | none ↦ method_implementor cs parents selector
]

-- `blockForClassSelector:` considers the receiver alone.
unfoldable pub block_for_class_selector : List FsClass → ℕ → Bytes → Option ℕ
block_for_class_selector cs i selector = class_block_at cs i selector

unfoldable pub block_class_for_selector : List FsClass → List ℕ → Bytes → Option ℕ
block_class_for_selector cs [] selector = none
block_class_for_selector cs (i ∷ parents) selector = elim (class_block_at cs i selector) [
  | some block ↦ some block
  | none ↦ block_class_for_selector cs parents selector
]

unfoldable pub class_method_implementor : List FsClass → List ℕ → Bytes → Option ℕ
unfolding block_for_class_selector
class_method_implementor cs [] selector = none
class_method_implementor cs (i ∷ parents) selector = elim (block_for_class_selector cs i selector) [
  | some block ↦ class_object_at cs i
  | none ↦ class_method_implementor cs parents selector
]

-- `methods` and `methodNames`.
unfoldable pub method_names : List FsClass → ℕ → List Bytes
method_names cs i = elim (get_elem? cs i) [ none ↦ [] | some c ↦ all_keys c.methods ]

-- `allMethods` and `allMethodNames`.
unfoldable pub all_method_names : List FsClass → List ℕ → List Bytes
unfolding method_names
all_method_names cs [] = []
all_method_names cs (i ∷ parents) = method_names cs i ++ all_method_names cs parents

unfoldable pub property_names : List FsClass → ℕ → List Bytes
property_names cs i = elim (get_elem? cs i) [ none ↦ [] | some c ↦ all_keys c.properties ]

unfoldable pub all_property_names : List FsClass → List ℕ → List Bytes
unfolding property_names
all_property_names cs [] = []
all_property_names cs (i ∷ parents) = property_names cs i ++ all_property_names cs parents

unfoldable pub class_property_names : List FsClass → ℕ → List Bytes
class_property_names cs i = elim (get_elem? cs i) [
  | none ↦ []
  | some c ↦ all_keys c.class_properties
]

unfoldable pub all_class_property_names : List FsClass → List ℕ → List Bytes
unfolding class_property_names
all_class_property_names cs [] = []
all_class_property_names cs (i ∷ parents) =
    class_property_names cs i ++ all_class_property_names cs parents

-- `classMethods`
unfoldable pub class_methods : List FsClass → ℕ → List Bytes
class_methods cs i = elim (get_elem? cs i) [ none ↦ [] | some c ↦ all_keys c.class_methods ]

-- `classMethodNames`, which reads `methods`.
unfoldable pub class_method_names : List FsClass → ℕ → List Bytes
class_method_names cs i = elim (get_elem? cs i) [ none ↦ [] | some c ↦ all_keys c.methods ]

-- `allClassMethodNames` and `allClassMethods`, which read `methods` too.
unfoldable pub all_class_method_names : List FsClass → List ℕ → List Bytes
unfolding class_method_names
all_class_method_names cs [] = []
all_class_method_names cs (i ∷ parents) =
    class_method_names cs i ++ all_class_method_names cs parents
