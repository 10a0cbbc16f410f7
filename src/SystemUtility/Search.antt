-- ===== src/SystemUtility/Search.antt =====
-- The searches of fscript-CLI/FSSystemUtility.m: for a file to import, and for a command.
use fscript_extensions.Prelude.{
  refl, ap, Bool, true, false, Option, none, some, List, arith, inl, inr, Bytes, Bool-cases, [],
  ◌∷◌, ◌++◌, ◌≡◌, ◌∙◌, ◌⊎◌,
}
use fscript_extensions.SystemUtility.{
  Environment, find_command, first_existing, is_absolute, path_directories, path_in,
}
use fscript_extensions.Trampoline.Ppc.Dispatch.{found}

-- No directory of the list has the file.
abbrev pub NoneHas : (Bytes → Bool) → Bytes → List Bytes → Type 0
NoneHas exists name [] = Unit
NoneHas exists name (directory ∷ directories) =
    (exists (path_in directory name) ≡ false) × NoneHas exists name directories

first_existing-skips :
    (exists : Bytes → Bool) (name : Bytes) (before after : List Bytes)
    → NoneHas exists name before
    → first_existing exists name (before ++ after) ≡ first_existing exists name after
unfolding first_existing
first_existing-skips exists name [] after h = refl
first_existing-skips exists name (directory ∷ before) after h =
    ground (arith, h.0, first_existing-skips exists name before after h.1)

first_existing-found :
    (exists : Bytes → Bool) (name directory : Bytes) (after : List Bytes)
    → exists (path_in directory name) ≡ true
    → first_existing exists name (directory ∷ after) ≡ some (path_in directory name)
unfolding first_existing
first_existing-found exists name directory after h = ground (arith, h)

-- The first directory that has the file.
pub first_existing-first :
    (exists : Bytes → Bool) (name directory : Bytes) (before after : List Bytes)
    → NoneHas exists name before
    → exists (path_in directory name) ≡ true
    → first_existing exists name (before ++ directory ∷ after) ≡ some (path_in directory name)
first_existing-first exists name directory before after none_before found =
    first_existing-skips exists name before (directory ∷ after) none_before
    ∙ first_existing-found exists name directory after found

pub first_existing-cases :
    (exists : Bytes → Bool) (name : Bytes) (directories : List Bytes)
    → ((first_existing exists name directories ≡ none) × NoneHas exists name directories)
      ⊎ ((before : List Bytes) × (directory : Bytes) × (after : List Bytes) × (directories
            ≡ before ++ directory ∷ after)
          × NoneHas exists name before
          × (exists (path_in directory name) ≡ true))
unfolding first_existing
first_existing-cases exists name [] = inl (refl, tt)
first_existing-cases exists name (d ∷ directories) = elim (Bool-cases (exists (path_in d name))) [
  | inl e ↦ inr ([], d, directories, refl, tt, e)
  | inr e ↦ elim (first_existing-cases exists name directories) [
    | inl (n, h) ↦ inl (ground (arith, e, n), (e, h))
    | inr (b, f, a, q, h, x) ↦ inr (d ∷ b, f, a, ap (λ r. d ∷ r) q, (e, h), x)
  ]
]

-- A search that finds something finds the first: the converse of `first_existing-first`.
pub first_existing-inverse :
    (exists : Bytes → Bool) (name path : Bytes) (directories : List Bytes)
    → first_existing exists name directories ≡ some path
    → (before : List Bytes) × (directory : Bytes) × (after : List Bytes) × (directories
        ≡ before ++ directory ∷ after)
      × NoneHas exists name before
      × (exists (path_in directory name) ≡ true)
      × (path ≡ path_in directory name)
first_existing-inverse exists name path directories e =
    elim (first_existing-cases exists name directories) [
      | inl (n, h) ↦ absurd (ground (arith, n, e))
      | inr (b, d, a, q, h, x) ↦
          let found = first_existing-first exists name d b a h x in
          let same : path ≡ path_in d name =
            ground (arith, e, ap (first_existing exists name) q, found) in
          (b, d, a, q, h, x, same)
    ]

-- A longer list of directories finds the same file first.
pub first_existing-longer :
    (exists : Bytes → Bool) (name path : Bytes) (directories more : List Bytes)
    → first_existing exists name directories ≡ some path
    → first_existing exists name (directories ++ more) ≡ some path
unfolding first_existing
first_existing-longer exists name path [] more e = ground (arith, e)
first_existing-longer exists name path (d ∷ directories) more e =
    elim (Bool-cases (exists (path_in d name))) [
      | inl here ↦ ground (arith, here, e)
      | inr not_here ↦
          ground (arith, not_here, e, first_existing-longer exists name path directories more)
    ]

-- What `findCommand` may answer for the directories of `PATH`.
abbrev pub FindsCommand : (Bytes → Bool) → Bytes → List Bytes → Option Bytes → Type 0
FindsCommand exists command directories none =
    (is_absolute command ≡ false) × NoneHas exists command directories
FindsCommand exists command directories (some path) =
    ((is_absolute command ≡ true) × (path ≡ command))
    ⊎ ((is_absolute command ≡ false)
        × ((before : List Bytes) × (directory : Bytes) × (after : List Bytes) × (directories
              ≡ before ++ directory ∷ after)
            × NoneHas exists command before
            × (exists (path_in directory command) ≡ true)
            × (path ≡ path_in directory command)))

find_command-absolute :
    (exists : Bytes → Bool) (env : Environment) (command : Bytes)
    → is_absolute command ≡ true
    → find_command exists env command ≡ some command
unfolding find_command
find_command-absolute exists env command e = ground (arith, e)

find_command-relative :
    (exists : Bytes → Bool) (env : Environment) (command : Bytes)
    → is_absolute command ≡ false
    → find_command exists env command ≡ first_existing exists command (path_directories env)
unfolding find_command
find_command-relative exists env command e = ground (arith, e)

relative-FindsCommand :
    (exists : Bytes → Bool) (command : Bytes) (directories : List Bytes)
    → is_absolute command ≡ false
    → FindsCommand exists command directories (first_existing exists command directories)
relative-FindsCommand exists command directories e =
    elim (first_existing-cases exists command directories) [
      | inl (nothing, h) ↦ rw nothing (e, h)
      | inr (b, d, a, q, h, x) ↦
          let found : first_existing exists command directories ≡ some (path_in d command) =
            ap (first_existing exists command) q ∙ first_existing-first exists command d b a h x in
          rw found (inr (e, (b, d, a, q, h, x, refl)))
    ]

-- `findCommand` takes an absolute command as it is, whether it exists or not. Any other it takes from the
-- first directory of `PATH`, in order, that has a file of that name, and it raises its exception only if
-- none has.
pub find_command-FindsCommand :
    (exists : Bytes → Bool) (env : Environment) (command : Bytes)
    → FindsCommand exists command (path_directories env) (find_command exists env command)
find_command-FindsCommand exists env command = elim (Bool-cases (is_absolute command)) [
  | inl e ↦ rw (find_command-absolute exists env command e) (inl (e, refl))
  | inr e ↦
      rw (find_command-relative exists env command e)
        (relative-FindsCommand exists command (path_directories env) e)
]
