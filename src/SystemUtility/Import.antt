-- ===== src/SystemUtility/Import.antt =====
-- `import:` of fscript-CLI/FSSystemUtility.m: which file it loads, and when it does not load again.
use fscript_extensions.Prelude.{
  ltb, ℕ, refl, ap, Bool, true, false, Option, none, some, List, arith, inl, inr, Bytes, codes,
  bytes_eq, bytes_eq_iff, Bool-cases, [], ◌∷◌, ◌++◌, ◌≤◌, ◌<◌, ◌≡◌, ◌∙◌, ◌≢◌, ◌⊎◌, if◌then◌else◌,
}
use fscript_extensions.SystemUtility.{
  Effect, SystemState, could_not_find, elements, file_exists, first_existing, has_fs_suffix,
  import_force, is_absolute, loaded, must_load, no_attributes, path_in, real_file_name, remember,
  up_to_date, with_fs_suffix,
}
use fscript_extensions.Loading.{FileInfo, FileSystem, Loaded, get_file_mod_time}
use fscript_extensions.SystemUtility.Search.{NoneHas, first_existing-first}
use fscript_extensions.Dictionary.{object_for, string_key, pointer_key}

-- An absolute name begins with a slash, and so it does with the suffix.
absolute-append :
    (name suffix : Bytes) → is_absolute name ≡ true → is_absolute (name ++ suffix) ≡ true
absolute-append [] suffix h = ground (arith, h)
absolute-append (x ∷ name) suffix h = ground (arith, h)

with_fs_suffix-absolute :
    (name : Bytes) → is_absolute name ≡ true → is_absolute (with_fs_suffix name) ≡ true
with_fs_suffix-absolute name h = elim (Bool-cases (has_fs_suffix name)) [
  | inl e ↦ ground (arith, e, h)
  | inr e ↦ ground (arith, e, absolute-append name (codes ".fs") h)
]

pub real_file_name-absolute :
    (exists : Bytes → Bool) (locations : Option (List Bytes)) (name : Bytes)
    → is_absolute (with_fs_suffix name) ≡ true
    → real_file_name exists locations name ≡ none
unfolding real_file_name
real_file_name-absolute exists locations name e = ground (arith, e)

pub real_file_name-relative :
    (exists : Bytes → Bool) (locations : Option (List Bytes)) (name : Bytes)
    → is_absolute (with_fs_suffix name) ≡ false
    → real_file_name exists locations name
      ≡ first_existing exists (with_fs_suffix name) (elements locations)
unfolding real_file_name
real_file_name-relative exists locations name e = ground (arith, e)

-- The name of the file: the one that is asked for if it ends in `.fs`, else with `.fs` behind it.
abbrev pub IsFileName : Bytes → Bytes → Type 0
IsFileName name file =
    ((stem : Bytes) × (name ≡ stem ++ codes ".fs") × (file ≡ name))
    ⊎ (((stem : Bytes) → name ≢ stem ++ codes ".fs") × (file ≡ name ++ codes ".fs"))

has_fs_suffix-append : (stem : Bytes) → has_fs_suffix (stem ++ codes ".fs") ≡ true
unfolding has_fs_suffix
has_fs_suffix-append [] = refl
has_fs_suffix-append (x ∷ stem) = ground (arith, has_fs_suffix-append stem)

has_fs_suffix-stem :
    (name : Bytes) → has_fs_suffix name ≡ true → (stem : Bytes) × (name ≡ stem ++ codes ".fs")
unfolding has_fs_suffix
has_fs_suffix-stem [] h = ground (arith, h)
has_fs_suffix-stem (x ∷ s) h = elim (Bool-cases (bytes_eq (x ∷ s) (codes ".fs"))) [
  | inl e ↦ ([], (bytes_eq_iff (x ∷ s) (codes ".fs")).0 e)
  | inr e ↦
      let (stem, q) = has_fs_suffix-stem s (ground (arith, h, e)) in (x ∷ stem, ap (λ r. x ∷ r) q)
]

with_fs_suffix-file : (name file : Bytes) → IsFileName name file → with_fs_suffix name ≡ file
with_fs_suffix-file name file (inl (stem, e, same)) =
    let ends : has_fs_suffix name ≡ true = rw e (has_fs_suffix-append stem) in
    ground (arith, ends, same)
with_fs_suffix-file name file (inr (ends_not, same)) = elim (Bool-cases (has_fs_suffix name)) [
  | inl e ↦ let (stem, q) = has_fs_suffix-stem name e in absurd (ends_not stem q)
  | inr e ↦ ground (arith, e, same)
]

-- A file is loaded if it was never imported before, or has a later date than then, or by force; else it
-- was imported with a date that is not earlier.
abbrev pub IsToLoad : Option ℕ → ℕ → Bool → Type 0
IsToLoad none date force = Unit
IsToLoad (some previous) date force = (previous < date) ⊎ (force ≡ true)

abbrev pub IsUpToDate : Option ℕ → ℕ → Bool → Type 0
IsUpToDate none date force = ⊥
IsUpToDate (some previous) date force = (date ≤ previous) × (force ≡ false)

must_load-no :
    (previous : Option ℕ) (date : ℕ) (force : Bool)
    → IsUpToDate previous date force
    → must_load previous date force ≡ false
must_load-no none date force h = absurd h
must_load-no (some previous) date force (early, forced_not) = ground (arith, early, forced_not)

load-or-not :
    (previous : Option ℕ) (date : ℕ) (force : Bool)
    → IsToLoad previous date force ⊎ IsUpToDate previous date force
load-or-not none date force = inl tt
load-or-not (some previous) date true = inl (inr refl)
load-or-not (some previous) date false = elim (Bool-cases (ltb previous date)) [
  | inl later ↦ inl (inl (ground (arith, later)))
  | inr early ↦ inr (ground (arith, early), refl)
]

must_load-yes :
    (previous : Option ℕ) (date : ℕ) (force : Bool)
    → IsToLoad previous date force
    → must_load previous date force ≡ true
must_load-yes none date force h = refl
must_load-yes (some previous) date force (inl later) = ground (arith, later)
must_load-yes (some previous) date force (inr forced) = ground (arith, forced)

module _ {W : Type 0} (fs : FileSystem) (load : Bytes → Effect W Loaded) (name : Bytes)
    (force : Bool) (st : SystemState) (world : W) where
  -- Importing a file by an absolute path raises the exception that it could not be found, also where the
  -- file exists and where its loading is forced, and changes nothing.
  pub import_force-absolute :
      is_absolute name ≡ true
      → import_force fs load name force (st, world) ≡ (could_not_find, st, world)
  unfolding import_force
  import_force-absolute h =
      let missing =
        real_file_name-absolute (file_exists fs) st.library_locations name
          (with_fs_suffix-absolute name h) in
      ground (arith, missing)

  pub import_force-missing :
      real_file_name (file_exists fs) st.library_locations name ≡ none
      → import_force fs load name force (st, world) ≡ (could_not_find, st, world)
  unfolding import_force
  import_force-missing e = ground (arith, e)

  pub import_force-no_date :
      (path : Bytes)
      → real_file_name (file_exists fs) st.library_locations name ≡ some path
      → get_file_mod_time fs path ≡ none
      → import_force fs load name force (st, world) ≡ (no_attributes, st, world)
  unfolding import_force
  import_force-no_date path e d = ground (arith, e, d)

  pub import_force-found :
      (path : Bytes) (date : ℕ)
      → real_file_name (file_exists fs) st.library_locations name ≡ some path
      → get_file_mod_time fs path ≡ some date
      → let r = load path (remember path date st, world) in
        import_force fs load name force (st, world) ≡ (
          if must_load (object_for path st.file_mod_times) date force
          then (loaded path r.0, r.1, r.2)
          else (up_to_date path, st, world))
  unfolding import_force
  import_force-found path date e d = ground (arith, e, d)

  -- `import:` looks for the file, whose name has the suffix `.fs`, in the libraries in their order,
  -- and takes the one in the first library that has it. It loads it if it was not imported before, or
  -- has a later date than then, or by force, and stores the date before loading; otherwise it changes
  -- nothing.
  pub import_force-first :
      (file directory : Bytes) (before after : List Bytes) (info : FileInfo)
      → IsFileName name file
      → is_absolute file ≡ false
      → st.library_locations ≡ some (before ++ directory ∷ after)
      → NoneHas (file_exists fs) file before
      → fs (path_in directory file) ≡ some info
      → let path = path_in directory file in
        let date = info.creation_date in
        let r = load path (remember path date st, world) in
        (IsToLoad (object_for path st.file_mod_times) date force
          × (import_force fs load name force (st, world) ≡ (loaded path r.0, r.1, r.2)))
        ⊎ (IsUpToDate (object_for path st.file_mod_times) date force
            × (import_force fs load name force (st, world) ≡ (up_to_date path, st, world)))
  unfolding get_file_mod_time
  import_force-first file directory before after info named relative libs none_before here =
      let path = path_in directory file in
      let date = info.creation_date in
      let exists : file_exists fs path ≡ true = ground (arith, here) in
      let suffixed = with_fs_suffix-file name file named in
      let found : real_file_name (file_exists fs) st.library_locations name ≡ some path =
        real_file_name-relative (file_exists fs) st.library_locations name (rw suffixed relative)
        ∙ ap (λ f. first_existing (file_exists fs) f (elements st.library_locations)) suffixed
        ∙ ap (λ ls. first_existing (file_exists fs) file (elements ls)) libs
        ∙ first_existing-first (file_exists fs) file directory before after none_before exists in
      let whole = import_force-found path date found (ground (arith, here)) in
      elim (load-or-not (object_for path st.file_mod_times) date force) [
        | inl to_load ↦ inl (
          to_load,
          whole ∙ (rw (must_load-yes (object_for path st.file_mod_times) date force to_load) refl),
        )
        | inr stays ↦ inr (
          stays,
          whole ∙ (rw (must_load-no (object_for path st.file_mod_times) date force stays) refl),
        )
      ]
