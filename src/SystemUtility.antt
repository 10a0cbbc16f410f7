-- ===== src/SystemUtility.antt =====
-- The category of `sys` in fscript-CLI/FSSystemUtility.m: the libraries and `import:`, the search for
-- commands, running them, and the objects that are made once. The environment is a dictionary.
pub mod Search
pub mod Import
pub mod Again
pub mod Commands
pub mod Interface
use fscript_extensions.Prelude.{
  ℕ, Bool, true, false, Option, none, some, List, ltb, Bytes, codes, bytes_eq, [], ◌∷◌, ◌++◌, ◌||◌,
  ◌==◌, if◌then◌else◌,
}
use fscript_extensions.Dictionary.{Dict, object_for, set_object, string_key, pointer_key}
use fscript_extensions.Loading.{FileSystem, Loaded, get_file_mod_time}
use fscript_extensions.File.{is_prefix}

abbrev pub Environment : Type 0
Environment = Dict Bytes Bytes

-- `stringWithFormat:@"%@/%@"`
abbrev pub path_in : Bytes → Bytes → Bytes
path_in directory name = directory ++ b'/' ∷ name

-- `componentsSeparatedByString:` with one character.
unfoldable pub components : ℕ → Bytes → List Bytes
components c [] = [] ∷ []
components c (x ∷ s) =
    let rest = components c s in
    if x == c
    then [] ∷ rest
    else elim rest [ [] ↦ (x ∷ []) ∷ [] | part ∷ parts ↦ (x ∷ part) ∷ parts ]

-- The static variables: `libraryLocations`, `frameworkLocations` and `fileModTimes`, `shellName`, and
-- those of main: `scriptName` and `scriptArgs`. Nothing is `nil`.
pub record SystemState : Type 0 where
  pub library_locations : Option (List Bytes)
  pub framework_locations : List Bytes
  pub file_mod_times : Dict Bytes ℕ
  pub shell_name : Option Bytes
  pub script_name : Option Bytes
  pub script_args : Option (List Bytes)

-- The directories that `initLibraries` adds for the user.
abbrev pub user_libraries : Environment → List Bytes
user_libraries env = elim (object_for (codes "USER") env) [
  | none ↦ []
  | some username ↦
      (codes "/Users/" ++ (username ++ codes "/Library/FScript"))
      ∷ (codes "/Users/" ++ (username ++ codes "/Application Support/F-Script"))
      ∷ []
]

unfoldable pub extra_libraries : Environment → List Bytes
unfolding components
extra_libraries env = elim (object_for (codes "FSCRIPT_LIB") env) [
  | none ↦ []
  | some libraries ↦ components b':' libraries
]

unfoldable pub initial_libraries : Environment → List Bytes
unfolding extra_libraries
initial_libraries env =
    codes "/System/Library/FScript"
    ∷ codes "/Network/Library/FScript"
    ∷ codes "/Library/FScript"
    ∷ (user_libraries env ++ (extra_libraries env ++ codes "./" ∷ []))

-- `home` is what the tilde expands to.
abbrev pub initial_frameworks : Bytes → List Bytes
initial_frameworks home =
    codes "/System/Library/Frameworks"
    ∷ codes "/Library/Frameworks"
    ∷ codes "/Network/Frameworks"
    ∷ (home ++ codes "/Frameworks")
    ∷ []

unfoldable pub init_libraries : Environment → Bytes → SystemState → SystemState
unfolding initial_libraries
init_libraries env home st = elim st.library_locations [
  | some _ ↦ st
  | none ↦ record st {
    library_locations = some (initial_libraries env);
    framework_locations = initial_frameworks home;
  }
]

-- A message to `nil` adds nothing.
unfoldable pub add_library : Bytes → SystemState → SystemState
add_library location st = elim st.library_locations [
  | none ↦ st
  | some locations ↦ record st { library_locations = some (locations ++ location ∷ []) }
]

abbrev pub libraries : SystemState → Option (List Bytes)
libraries st = st.library_locations

-- The first directory in which the file exists, as the path of the file there: the loops of
-- `import:force:` and of `findCommand`.
unfoldable pub first_existing : (Bytes → Bool) → Bytes → List Bytes → Option Bytes
first_existing exists name [] = none
first_existing exists name (directory ∷ directories) =
    let rest = first_existing exists name directories in
    if exists (path_in directory name) then some (path_in directory name) else rest

abbrev pub is_absolute : Bytes → Bool
is_absolute name = is_prefix (codes "/") name

-- `hasSuffix:@".fs"`
unfoldable pub has_fs_suffix : Bytes → Bool
has_fs_suffix [] = false
has_fs_suffix (x ∷ s) =
    let rest = has_fs_suffix s in if bytes_eq (x ∷ s) (codes ".fs") then true else rest

abbrev pub with_fs_suffix : Bytes → Bytes
with_fs_suffix name = if has_fs_suffix name then name else name ++ codes ".fs"

-- The elements of an array that may be `nil`.
abbrev pub elements : Option (List Bytes) → List Bytes
elements none = []
elements (some xs) = xs

-- `realFileName`, which nothing sets for an absolute path.
unfoldable pub real_file_name : (Bytes → Bool) → Option (List Bytes) → Bytes → Option Bytes
unfolding first_existing has_fs_suffix
real_file_name exists locations name =
    let file_name = with_fs_suffix name in
    if is_absolute file_name then none else first_existing exists file_name (elements locations)

-- What `import:` does besides loading: it raises an exception of its own or for a file that has lost its
-- attributes, or it need not load the file, or it has loaded it.
pub data Imported : Type 0 where
  could_not_find no_attributes : Imported
  up_to_date : Bytes → Imported
  loaded : Bytes → Loaded → Imported

-- Whether the file has to be loaded.
abbrev pub must_load : Option ℕ → ℕ → Bool → Bool
must_load none file_mod_time force = true
must_load (some previous) file_mod_time force = ltb previous file_mod_time || force

-- What a method does to the static variables and to the rest of the world.
abbrev pub Effect : Type 0 → Type 0 → Type 0
Effect W A = SystemState × W → A × SystemState × W

abbrev pub file_exists : FileSystem → Bytes → Bool
file_exists fs path = elim (fs path) [ none ↦ false | some _ ↦ true ]

-- `[fileModTimes setObject:fileModTime forKey:realFileName]`
abbrev pub remember : Bytes → ℕ → SystemState → SystemState
remember path date st = record st { file_mod_times = set_object path date st.file_mod_times }

-- `import:force:`, over what `loadFile` does, which may import other files. The date is stored before the
-- file is loaded.
unfoldable pub import_force :
    {W : Type 0} → FileSystem → (Bytes → Effect W Loaded) → Bytes → Bool → Effect W Imported
unfolding real_file_name get_file_mod_time
import_force fs load name force (st, world) =
    elim (real_file_name (file_exists fs) st.library_locations name) [
      | none ↦ (could_not_find, st, world)
      | some path ↦ elim (get_file_mod_time fs path) [
        | none ↦ (no_attributes, st, world)
        | some date ↦
            let r = load path (remember path date st, world) in
            if must_load (object_for path st.file_mod_times) date force
            then (loaded path r.0, r.1, r.2)
            else (up_to_date path, st, world)
      ]
    ]

-- `import:`
abbrev pub import :
    {W : Type 0} → FileSystem → (Bytes → Effect W Loaded) → Bytes → Effect W Imported
import fs load name s = import_force fs load name false s

-- `paths` of `findCommand`; a message to `nil` answers `nil`, whose count is 0.
unfoldable pub path_directories : Environment → List Bytes
unfolding components
path_directories env = elim (object_for (codes "PATH") env) [
  | none ↦ []
  | some path ↦ components b':' path
]

-- `findCommand`; nothing stands for its exception.
unfoldable pub find_command : (Bytes → Bool) → Environment → Bytes → Option Bytes
unfolding first_existing path_directories
find_command exists env command =
    if is_absolute command
    then some command
    else first_existing exists command (path_directories env)

-- A function that is made once and kept: `out`, `in`, `err` and `help`.
unfoldable pub once : {A : Type 0} → A → Option A → A × Option A
once fresh none = (fresh, some fresh)
once fresh (some a) = (a, some a)
