-- ===== src/File/Open.antt =====
-- `open:mode:` of fscript-CLI/FSFile.m, for one path.
use fscript_extensions.Prelude.{
  ℕ, refl, Bool, true, false, Option, none, some, arith, inl, inr, length, Bytes, codes, bytes_eq,
  bytes_eq_iff, Option-cases, [], ◌≡◌, ◌⊎◌, ◌&&◌, if◌then◌else◌,
}

pub data Handle : Type 0 where
  for_reading for_writing for_updating : Handle

pub record Flags : Type 0 where
  pub handle : Handle
  pub append : Bool
  pub create : Bool
  pub clobber : Bool

unfoldable pub mode_flags : Bytes → Option Flags
mode_flags mode =
    if bytes_eq mode (codes "<")
    then some (record { handle = for_reading; append = false; create = false; clobber = false })
    else if bytes_eq mode (codes ">")
    then some (record { handle = for_writing; append = false; create = true; clobber = true })
    else if bytes_eq mode (codes ">>")
    then some (record { handle = for_writing; append = true; create = true; clobber = false })
    else if bytes_eq mode (codes "<+")
    then some (record { handle = for_updating; append = false; create = false; clobber = false })
    else if bytes_eq mode (codes ">+")
    then some (record { handle = for_updating; append = false; create = true; clobber = true })
    else if bytes_eq mode (codes ">>+")
    then some (record { handle = for_updating; append = true; create = true; clobber = false })
    else none

pub data Opened : Type 0 where
  invalid_mode nonexistent_file open_error : Opened
  opened : Bytes → ℕ → Opened

-- Truncating and seeking, on a handle to the file.
abbrev pub prepare : Flags → Bytes → Opened
prepare flags contents =
    let kept = if flags.clobber then [] else contents in
    opened kept (if flags.append then length kept else 0)

-- The file's contents are nothing if it does not exist. `permitted` says whether the system grants a
-- handle to an existing file, and `creatable` whether it can be created.
unfoldable pub open_mode : (Handle → Bool) → Bool → Option Bytes → Bytes → Opened
unfolding mode_flags
open_mode permitted creatable file mode = elim (mode_flags mode) [
  | none ↦ invalid_mode
  | some flags ↦ elim file [
    | some contents ↦
        if flags.create
        then nonexistent_file
        else if permitted flags.handle
        then prepare flags contents
        else open_error
    | none ↦
        if flags.create && creatable && permitted flags.handle then prepare flags [] else open_error
  ]
]

flags-cases :
    (mode : Bytes) (flags : Flags)
    → mode_flags mode ≡ some flags
    → (flags.create ≡ true)
      ⊎ ((flags.append ≡ false)
          × (flags.clobber ≡ false)
          × ((mode ≡ codes "<") ⊎ (mode ≡ codes "<+")))
unfolding mode_flags
flags-cases mode flags h =
    ground (arith, bytes_eq_iff mode (codes "<"), bytes_eq_iff mode (codes "<+"), h)

opened-existing :
    (permitted : Handle → Bool) (creatable : Bool) (before mode contents : Bytes) (offset : ℕ)
    (flags : Flags)
    → mode_flags mode ≡ some flags
    → open_mode permitted creatable (some before) mode ≡ opened contents offset
    → (flags.create ≡ false) × (opened contents offset ≡ prepare flags before)
unfolding open_mode
opened-existing permitted creatable before mode contents offset flags e h = ground (arith, e, h)

opened-new :
    (permitted : Handle → Bool) (creatable : Bool) (mode contents : Bytes) (offset : ℕ)
    → open_mode permitted creatable none mode ≡ opened contents offset
    → (flags : Flags) × (opened contents offset ≡ prepare flags [])
unfolding open_mode
opened-new permitted creatable mode contents offset h = elim (Option-cases (mode_flags mode)) [
  | inl e ↦ ground (arith, e, h)
  | inr (flags, e) ↦ (flags, ground (arith, e, h))
]

prepared-empty :
    (flags : Flags) (contents : Bytes) (offset : ℕ)
    → opened contents offset ≡ prepare flags []
    → (offset ≡ 0) × (contents ≡ [])
prepared-empty flags contents offset h = ground (arith, h)

-- `open:mode:` never truncates a file nor starts behind existing data: what it opens is an existing file
-- with all its contents, or a new and empty one, and the offset is 0. An existing file is opened only in
-- the modes `<` and `<+`; the four writing and appending modes raise an exception for it.
pub open_mode-keeps :
    (permitted : Handle → Bool) (creatable : Bool) (file : Option Bytes) (mode contents : Bytes)
    (offset : ℕ)
    → open_mode permitted creatable file mode ≡ opened contents offset
    → (offset ≡ 0)
      × (((file ≡ some contents) × ((mode ≡ codes "<") ⊎ (mode ≡ codes "<+")))
          ⊎ ((file ≡ none) × (contents ≡ [])))
open_mode-keeps permitted creatable none mode contents offset h =
    let (flags, e) = opened-new permitted creatable mode contents offset h in
    let (at_start, empty) = prepared-empty flags contents offset e in (at_start, inr (refl, empty))
open_mode-keeps permitted creatable (some before) mode contents offset h =
    elim (Option-cases (mode_flags mode)) [
      | inl e ↦ absurd (unfold open_mode in ground (arith, e, h))
      | inr (flags, e) ↦
          let (old, prepared) =
            opened-existing permitted creatable before mode contents offset flags e h in
          elim (flags-cases mode flags e) [
            | inl new ↦ ground (arith, old, new)
            | inr (no_append, no_clobber, which) ↦ (
              ground (arith, prepared, no_append, no_clobber),
              inl (ground (arith, prepared, no_append, no_clobber), which),
            )
          ]
    ]
