-- ===== src/File/Handle.antt =====
-- `NSFileHandle` on a regular file, as fscript-CLI/FSFile.m sends messages to it. Nothing stands for
-- an exception.
use fscript_extensions.Prelude.{
  ℕ, Bool, true, false, Option, none, some, List, length, take, drop, replicate, Bytes, ◌∷◌, ◌++◌,
  ◌+◌, ◌-◌, ◌&&◌, if◌then◌else◌,
}
use fscript_extensions.File.Open.{Handle, for_reading, for_writing}

-- The work that a handle is asked to do in the background, for modes of the run loop or for all.
pub data Background : Type 0 where
  read_in_background read_to_end_in_background accept_in_background wait_in_background :
      Option (List Bytes) → Background

pub record NsFileHandle : Type 0 where
  pub access : Handle
  pub is_open : Bool
  pub contents : Bytes
  pub offset : ℕ
  pub descriptor : ℕ
  pub background : List Background

abbrev pub unread : NsFileHandle → Bytes
unread h = drop h.offset h.contents

abbrev pub can_read : NsFileHandle → Bool
can_read h = h.is_open && (elim h.access [ for_writing ↦ false | _ ↦ true ])

abbrev pub can_write : NsFileHandle → Bool
can_write h = h.is_open && (elim h.access [ for_reading ↦ false | _ ↦ true ])

-- What stands at the offset is written over; a gap behind the end is filled with nulls.
abbrev pub written_at : ℕ → Bytes → Bytes → Bytes
written_at offset text contents =
    take offset contents
    ++ (replicate (offset - length contents) 0 ++ (text ++ drop (offset + length text) contents))

unfoldable pub ns_read_to_end : NsFileHandle → Option (Option Bytes × NsFileHandle)
ns_read_to_end h =
    if can_read h
    then some (some (unread h), record h { offset = h.offset + length (unread h) })
    else none

unfoldable pub ns_read : ℕ → NsFileHandle → Option (Option Bytes × NsFileHandle)
ns_read n h =
    let text = take n (unread h) in
    if can_read h then some (some text, record h { offset = h.offset + length text }) else none

unfoldable pub ns_write : Bytes → NsFileHandle → Option (Unit {0} × NsFileHandle)
ns_write text h =
    if can_write h
    then some (
      tt,
      record h { contents = written_at h.offset text h.contents; offset = h.offset + length text },
    )
    else none

unfoldable pub ns_offset : NsFileHandle → Option (ℕ × NsFileHandle)
ns_offset h = if h.is_open then some (h.offset, h) else none

unfoldable pub ns_seek_to_end : NsFileHandle → Option (ℕ × NsFileHandle)
ns_seek_to_end h =
    if h.is_open then some (length h.contents, record h { offset = length h.contents }) else none

unfoldable pub ns_seek : ℕ → NsFileHandle → Option (Unit {0} × NsFileHandle)
ns_seek offset h = if h.is_open then some (tt, record h { offset = offset }) else none

-- A file is cut off or filled up with nulls, and the offset moves to the end.
unfoldable pub ns_truncate : ℕ → NsFileHandle → Option (Unit {0} × NsFileHandle)
ns_truncate offset h =
    if can_write h
    then some (
      tt,
      record h {
        contents = take offset h.contents ++ replicate (offset - length h.contents) 0;
        offset = offset;
      },
    )
    else none

unfoldable pub ns_synchronize : NsFileHandle → Option (Unit {0} × NsFileHandle)
ns_synchronize h = if h.is_open then some (tt, h) else none

unfoldable pub ns_close : NsFileHandle → Option (Unit {0} × NsFileHandle)
ns_close h = some (tt, record h { is_open = false })

unfoldable pub ns_descriptor : NsFileHandle → Option (ℕ × NsFileHandle)
ns_descriptor h = if h.is_open then some (h.descriptor, h) else none

unfoldable pub ns_background : Background → NsFileHandle → Option (Unit {0} × NsFileHandle)
ns_background work h =
    if h.is_open then some (tt, record h { background = work ∷ h.background }) else none
