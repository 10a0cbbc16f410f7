-- ===== src/ClassModel/FastClasses/Names.antt =====
-- The names of the properties of a fast-ivars class (FSClass/FSClass.m).
use fscript_extensions.Prelude.{ℕ, refl, false, none, some, List, arith, Bytes, [], ◌∷◌, ◌≡◌, ◌↔◌}
use fscript_extensions.ClassModel.{FsClass}
use fscript_extensions.ClassModel.FastClasses.{check_fast_names}
use fscript_extensions.PropertyName.{check_property_name}
use fscript_extensions.ClassModel.Properties.{has_property}

-- Every name is legitimate, and no property of the chain of parents.
abbrev pub AllFree : List FsClass → List ℕ → List Bytes → Type 0
AllFree cs parents [] = Unit
AllFree cs parents (name ∷ names) =
    (check_property_name (some name) (λ _. false) ≡ none)
    × (has_property cs parents name ≡ false)
    × AllFree cs parents names

-- `initFastIvarsClass:parent:properties:` passes its check of the properties' names, and goes on to
-- create the instance variables of those names, exactly if every name is legitimate and used by no
-- parent.
pub check_fast_names_iff :
    (cs : List FsClass) (parents : List ℕ) (names : List Bytes)
    → (check_fast_names cs parents names ≡ none) ↔ AllFree cs parents names
check_fast_names_iff cs parents [] = (λ _. tt, λ _. refl)
check_fast_names_iff cs parents (name ∷ names) =
    ground (arith, check_fast_names_iff cs parents names)
