-- ===== src/SystemUtility/Again.antt =====
-- Importing a file again (fscript-CLI/FSSystemUtility.m).
use fscript_extensions.Prelude.{
  ℕ, sym, ap, Bool, false, Option, none, some, List, arith, inl, inr, Bytes, Bool-cases,
  Option-cases, ◌++◌, ◌≡◌, ◌∙◌,
}
use fscript_extensions.SystemUtility.{
  Effect, Imported, SystemState, could_not_find, elements, file_exists, first_existing, import,
  import_force, is_absolute, loaded, no_attributes, real_file_name, up_to_date, with_fs_suffix,
}
use fscript_extensions.Loading.{FileSystem, Loaded, get_file_mod_time}
use fscript_extensions.SystemUtility.Search.{first_existing-longer}
use fscript_extensions.Trampoline.Ppc.Dispatch.{found}
use fscript_extensions.SystemUtility.Import.{
  import_force-found, import_force-missing, import_force-no_date, real_file_name-absolute,
  real_file_name-relative,
}
use fscript_extensions.Dictionary.{object_for, string_key, pointer_key}

abbrev pub path_of : Imported → Option Bytes
path_of could_not_find = none
path_of no_attributes = none
path_of (up_to_date path) = some path
path_of (loaded path r) = some path

module _ {W : Type 0} (fs : FileSystem) (load : Bytes → Effect W Loaded) (name : Bytes)
    (force : Bool) (st : SystemState) (world : W) where
  -- An import that comes to a file has found it.
  pub import_force-inverse :
      (path : Bytes)
      → path_of (import_force fs load name force (st, world)).0 ≡ some path
      → (real_file_name (file_exists fs) st.library_locations name ≡ some path)
        × ((date : ℕ) × (get_file_mod_time fs path ≡ some date))
  import_force-inverse path e =
      elim (Option-cases (real_file_name (file_exists fs) st.library_locations name)) [
        | inl n ↦ ground (arith, import_force-missing fs load name force st world n, e)
        | inr (p, found) ↦ elim (Option-cases (get_file_mod_time fs p)) [
          | inl n ↦ ground (arith, import_force-no_date fs load name force st world p found n, e)
          | inr (date, d) ↦
              let run = import_force-found fs load name force st world p date found d in
              let same : p ≡ path = ground (arith, run, e) in
              (ground (arith, found, same), (date, ap (get_file_mod_time fs) (sym same) ∙ d))
        ]
      ]

-- The libraries with further ones behind them find the same file.
real_file_name-longer :
    (exists : Bytes → Bool) (locations later : Option (List Bytes)) (more : List Bytes)
    (name path : Bytes)
    → elements later ≡ elements locations ++ more
    → real_file_name exists locations name ≡ some path
    → real_file_name exists later name ≡ some path
real_file_name-longer exists locations later more name path longer e =
    elim (Bool-cases (is_absolute (with_fs_suffix name))) [
      | inl absolute ↦
          absurd (ground (arith, real_file_name-absolute exists locations name absolute, e))
      | inr relative ↦
          real_file_name-relative exists later name relative
          ∙ ap (first_existing exists (with_fs_suffix name)) longer
          ∙ first_existing-longer exists (with_fs_suffix name) path (elements locations) more
              (sym (real_file_name-relative exists locations name relative) ∙ e)
    ]

-- When a file has been imported, forced or not, importing it again by the same name does not load it and
-- changes nothing, as long as its date is the same: if loading it left its entry in `fileModTimes` and
-- only added libraries behind the others.
pub import-again :
    {W : Type 0} (fs : FileSystem) (load : Bytes → Effect W Loaded) (name path : Bytes)
    (force : Bool) (st st' : SystemState) (world world' : W) (r : Loaded) (more : List Bytes)
    → import_force fs load name force (st, world) ≡ (loaded path r, st', world')
    → object_for path st'.file_mod_times ≡ get_file_mod_time fs path
    → elements st'.library_locations ≡ elements st.library_locations ++ more
    → import fs load name (st', world') ≡ (up_to_date path, st', world')
import-again fs load name path force st st' world world' r more first entry longer =
    let (found, dated) =
      import_force-inverse fs load name force st world path (ap (λ x. path_of x.0) first) in
    let (date, d) = dated in
    let again =
      real_file_name-longer (file_exists fs) st.library_locations st'.library_locations more name
        path longer found in
    let run = import_force-found fs load name false st' world' path date again d in
    let same : object_for path st'.file_mod_times ≡ some date = entry ∙ d in
    run ∙ ground (arith, same)
