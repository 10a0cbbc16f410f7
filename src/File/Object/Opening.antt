-- ===== src/File/Object/Opening.antt =====
-- Files of a disk that `open:` and `open:mode:` of fscript-CLI/FSFile.m open.
use fscript_extensions.Prelude.{
  ℕ, refl, Bool, true, Option, none, some, List, arith, Bytes, [], ◌≡◌, if◌then◌else◌,
}
use fscript_extensions.File.RoundTrip.{AllPlain}
use fscript_extensions.Dictionary.{Dict, object_for, set_object, string_key, pointer_key}
use fscript_extensions.File.Object.{FsFile, init_with_file_handle}
use fscript_extensions.File.Open.{Handle, for_updating, for_writing, mode_flags, open_mode, opened}
use fscript_extensions.File.Object.Reset.{IsReadOut}
use fscript_extensions.File.Handle.{NsFileHandle}
use fscript_extensions.Dictionary.Laws.{object_for-set_object}
use fscript_extensions.File.Object.Written.{println-readlines, write_and_read}

-- The contents of the files by their paths, and what the system permits.
pub record Disk : Type 0 where
  pub files : Dict Bytes Bytes
  pub permitted : Bytes → Handle → Bool
  pub creatable : Bytes → Bool

-- `createFileAtPath:` with no contents, for a path that has no file.
abbrev pub create_if_missing : Bytes → Disk → Disk
create_if_missing path d = elim (object_for path d.files) [
  | some _ ↦ d
  | none ↦ if d.creatable path then record d { files = set_object path [] d.files } else d
]

-- `fileHandleForUpdatingAtPath:` and the two like it, which give `nil` where there is no such file.
abbrev pub file_handle_at : Handle → Bytes → Disk → Option NsFileHandle
file_handle_at access path d = elim (object_for path d.files) [
  | none ↦ none
  | some contents ↦
      if d.permitted path access
      then some (record {
        access = access;
        is_open = true;
        contents = contents;
        offset = 0;
        descriptor = 3;
        background = [];
      })
      else none
]

-- `open:`, which does not look whether it has got a handle.
unfoldable pub open_path : Bytes → Disk → FsFile × Disk
open_path path d =
    let d' = create_if_missing path d in
    (init_with_file_handle (file_handle_at for_updating path d') path, d')

-- The handle of a file that `open:mode:` has opened.
abbrev pub opened_handle : Bytes → Bytes → ℕ → NsFileHandle
opened_handle mode contents offset = record {
  access = elim (mode_flags mode) [ none ↦ for_writing | some flags ↦ flags.handle ];
  is_open = true;
  contents = contents;
  offset = offset;
  descriptor = 3;
  background = [];
}

-- The disk where a mode has let a missing file be created.
abbrev pub created_for : Bytes → Bytes → Disk → Disk
created_for mode path d = elim (mode_flags mode) [
  | none ↦ d
  | some flags ↦ if flags.create then create_if_missing path d else d
]

-- `open:mode:`; no file stands for an exception.
unfoldable pub open_path_mode : Bytes → Bytes → Disk → Option FsFile × Disk
unfolding open_mode mode_flags
open_path_mode path mode d =
    let d' = created_for mode path d in
    elim (open_mode (d.permitted path) (d.creatable path) (object_for path d.files) mode) [
      | opened contents offset ↦ (
        some (init_with_file_handle (some (opened_handle mode contents offset)) path),
        record d' { files = set_object path contents d'.files },
      )
      | _ ↦ (none, d')
    ]

-- A new file that may be created and read and written.
abbrev pub IsFresh : Bytes → Disk → Type 0
IsFresh path d =
    (object_for path d.files ≡ none)
    × (d.creatable path ≡ true)
    × (d.permitted path for_updating ≡ true)

abbrev pub empty_handle : NsFileHandle
empty_handle = record {
  access = for_updating;
  is_open = true;
  contents = [];
  offset = 0;
  descriptor = 3;
  background = [];
}

open_path-fresh :
    (path : Bytes) (d : Disk)
    → IsFresh path d
    → (open_path path d).0 ≡ init_with_file_handle (some empty_handle) path
unfolding open_path
open_path-fresh path d (new, creatable, permitted) =
    let stored = object_for-set_object path [] d.files in
    ground (arith, new, creatable, permitted, stored)

-- Lines without newlines and nulls that `println:` writes to a file that `open:` has created are what
-- `reset` and `readlines` answer, if the system lets the path be created, read and written.
pub open_path-readlines :
    (path : Bytes) (d : Disk) (lines : List Bytes)
    → IsFresh path d
    → AllPlain lines
    → (g : FsFile) × (write_and_read lines (open_path path d).0 ≡ some (lines, g)) × IsReadOut g
open_path-readlines path d lines fresh plain =
    let opened = open_path-fresh path d fresh in
    rw opened (
      println-readlines lines (init_with_file_handle (some empty_handle) path) empty_handle plain
        (refl, refl, refl) refl refl)
