-- ===== src/Loading.antt =====
-- The functions of fscript-CLI/Functions.m: what is known of a file, and loading a script. The F-Script
-- interpreter is a parameter.
pub mod Place
pub mod Reported
pub mod Endless
pub mod Interface
pub mod Filled
use fscript_extensions.Prelude.{
  ℕ, zero, suc, Bool, false, not, Option, none, some, drop, ltb, Bytes, codes, [], ◌∷◌, ◌+◌, ◌-◌,
  ◌&&◌, ◌==◌, if◌then◌else◌,
}
use fscript_extensions.Dictionary.{Dict, object_for, string_key, pointer_key}
use fscript_extensions.File.{is_prefix}
use fscript_extensions.Trampoline.Create.{lp64}

-- What `attributesOfItemAtPath:` and `stat` tell of a file. Dates are counted from some beginning, and
-- the permissions are those of the owner, the group and all others.
pub record Rights : Type 0 where
  pub readable : Bool
  pub writable : Bool
  pub executable : Bool

pub record FileInfo : Type 0 where
  pub is_directory : Bool
  pub size : ℕ
  pub creation_date : ℕ
  pub modification_date : ℕ
  pub owner : ℕ
  pub group : ℕ
  pub owner_rights : Rights
  pub group_rights : Rights
  pub other_rights : Rights

abbrev pub FileSystem : Type 0
FileSystem = Bytes → Option FileInfo

-- `getFileModTime`; nothing stands for an exception.
unfoldable pub get_file_mod_time : FileSystem → Bytes → Option ℕ
get_file_mod_time fs path = elim (fs path) [ none ↦ none | some info ↦ some info.creation_date ]

-- `getFileSize`
unfoldable pub get_file_size : FileSystem → Bytes → Option ℕ
get_file_size fs path = elim (fs path) [ none ↦ none | some info ↦ some info.size ]

-- `getGlobalInterpreter`: the one that there is, or else a new one.
unfoldable pub get_global_interpreter : {I : Type 0} → I → Option I → I × Option I
get_global_interpreter fresh none = (fresh, some fresh)
get_global_interpreter fresh (some i) = (i, some i)

-- `FSInterpreterResult`: an object, or the location and the message of an error.
pub data ExecutionResult : Type 0 where
  result : Option ℕ → ExecutionResult
  execution_error : ℕ → Bytes → ExecutionResult

-- The location of a newline from `next` on.
unfoldable pub newline_in : Bytes → Option ℕ
newline_in [] = none
newline_in (x ∷ s) =
    let rest = newline_in s in
    if x == b'\n' then some 0 else (elim rest [ none ↦ none | some p ↦ some (suc p) ])

-- The loop that counts up the lines, from the location behind `currentLoc`, with `errorLine` and
-- `errorChar`. `NSNotFound` is cut off to an `int`: where `lp64` says that pointers have 64 bits that
-- gives -1, with which the loop begins anew. The fuel bounds the rounds.
unfoldable pub error_rounds : ℕ → Bool → Bytes → ℕ → ℕ → ℕ → ℕ → Option (ℕ × ℕ)
unfolding newline_in
error_rounds zero lp64 script location next line char = none
error_rounds (suc fuel) lp64 script location next line char =
    let error_char : ℕ = location + 1 - next in
    let anew = error_rounds fuel lp64 script location 0 (line + 1) error_char in
    if ltb location next then some (line, char) else elim (newline_in (drop next script)) [
      | some p ↦ error_rounds fuel lp64 script location (next + (p + 1)) (line + 1) error_char
      | none ↦ if lp64 then anew else some (line + 1, error_char)
    ]

-- A round per line, and one that finds that the location is passed.
unfoldable pub error_place : Bool → Bytes → ℕ → ℕ → Option (ℕ × ℕ)
unfolding error_rounds
error_place lp64 script location line =
    error_rounds (suc (suc location)) lp64 script location 0 line 0

-- What `loadFile` does: it returns the interpreter's result, or `nil` for a file that is not loaded
-- again, or it raises an exception, or it does not come back.
pub data Loaded : Type 0 where
  executed : Option ℕ → Loaded
  not_reloaded : Loaded
  file_error no_attributes substring_error : Loaded
  script_error : ℕ → ℕ → Bytes → Loaded
  no_return : Loaded

abbrev pub has_shebang : Bytes → Bool
has_shebang contents = is_prefix (codes "#!") contents

-- The script without its first line if that is a shebang, and the number of lines cut off. A shebang
-- without a newline makes `substringFromIndex:` raise an exception.
unfoldable pub chop_shebang : Bool → Bytes → Option (Bytes × ℕ)
unfolding newline_in
chop_shebang as_library contents =
    if not as_library && has_shebang contents
    then elim (newline_in contents) [ none ↦ none | some p ↦ some (drop (p + 1) contents, 1) ]
    else some (contents, 0)

-- Running the script and reporting its error.
unfoldable pub run_script :
    {W : Type 0} → Bool → (Bytes → W → ExecutionResult × W) → Bytes → ℕ → W → Loaded × W
unfolding error_place
run_script lp64 execute script line world =
    let r = execute script world in
    (
      elim r.0 [
        | result object ↦ executed object
        | execution_error location message ↦ elim (error_place lp64 script location line) [
          | none ↦ no_return
          | some (error_line, error_char) ↦ script_error error_line error_char message
        ]
      ],
      r.1,
    )

-- Whether a file has been loaded before and has not changed since.
abbrev pub is_loaded : Option ℕ → ℕ → Bool
is_loaded none file_mod_time = false
is_loaded (some mod_time) file_mod_time = not (ltb mod_time file_mod_time)

-- `loadFile`; nothing is ever put into `loadedFiles`. `contents` is what the file holds, if it can be
-- read.
unfoldable pub load_file :
    {W : Type 0}
    → Bool
    → FileSystem
    → (Bytes → W → ExecutionResult × W)
    → Dict Bytes ℕ
    → Option Bytes
    → Bytes
    → Bool
    → W
    → Loaded × W
unfolding get_file_mod_time chop_shebang run_script
load_file lp64 fs execute loaded_files contents path as_library world = elim contents [
  | none ↦ (file_error, world)
  | some text ↦ elim (get_file_mod_time fs path) [
    | none ↦ (no_attributes, world)
    | some file_mod_time ↦
        if is_loaded (object_for path loaded_files) file_mod_time
        then (not_reloaded, world)
        else elim (chop_shebang as_library text) [
          | none ↦ (substring_error, world)
          | some (script, line) ↦ run_script lp64 execute script line world
        ]
  ]
]
