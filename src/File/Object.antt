-- ===== src/File/Object.antt =====
-- `FSFile`, an object in front of an `NSFileHandle`: fscript-CLI/FSFile.m.
pub mod Reset
pub mod Buffered
pub mod Written
pub mod Wrappers
pub mod Opening
use fscript_extensions.Prelude.{
  ℕ, zero, suc, Bool, true, false, Option, none, some, List, length, Bytes, [], ◌∷◌, ◌++◌, ◌+◌, ◌-◌,
  if◌then◌else◌,
}
use fscript_extensions.File.Handle.{NsFileHandle, can_read, ns_seek, ns_write, unread}
use fscript_extensions.File.{State, readln_with_separator, split_at}
use fscript_extensions.ToolHelp.{description}
use fscript_extensions.Stdin.{readln}

pub record FsFile : Type 0 where
  pub file_handle : Option NsFileHandle
  pub location : Bytes
  pub sustain_buffer : Bytes

-- A method of a file; nothing stands for an exception.
abbrev pub Method : Type 0 → Type 0
Method A = FsFile → Option (A × FsFile)

infixl 5 ◌>>=◌ ◌>>◌
abbrev pub ◌>>=◌ : {A B : Type 0} → Method A → (A → Method B) → Method B
◌>>=◌ m k f = elim (m f) [ none ↦ none | some (a, g) ↦ k a g ]

abbrev pub ◌>>◌ : {A B : Type 0} → Method A → Method B → Method B
m >> k = m >>= λ _. k

abbrev pub answer : {A : Type 0} → A → Method A
answer a f = some (a, f)

-- A message to `fileHandle`; one to `nil` does nothing and answers `nil`, 0 or nothing.
abbrev pub send : {A : Type 0} → A → (NsFileHandle → Option (A × NsFileHandle)) → Method A
send nil_answer message f = elim f.file_handle [
  | none ↦ some (nil_answer, f)
  | some h ↦ elim (message h) [
    | none ↦ none
    | some (a, h') ↦ some (a, record f { file_handle = some h' })
  ]
]

-- `initWithFileHandle:atLocation:`
abbrev pub init_with_file_handle : Option NsFileHandle → Bytes → FsFile
init_with_file_handle handle file_location = record {
  file_handle = handle;
  location = file_location;
  sustain_buffer = [];
}

-- `fromNSFileHandle:`
unfoldable pub from_ns_file_handle : NsFileHandle → FsFile
from_ns_file_handle handle = init_with_file_handle (some handle) []

unfoldable pub truncate_sustain_buffer : Method (Unit {0})
truncate_sustain_buffer f = some (tt, record f { sustain_buffer = [] })

-- `print:` of an object with this description.
unfoldable pub print : Bytes → Method (Unit {0})
unfolding ns_write
print description = send tt (ns_write description)

unfoldable pub newln : Method (Unit {0})
unfolding ns_write
newln = send tt (ns_write (b'\n' ∷ []))

-- `println:`
unfoldable pub println : Bytes → Method (Unit {0})
unfolding print newln
println description = do print description; newln

-- `println` without an argument.
unfoldable pub println_blank : Method (Unit {0})
unfolding newln
println_blank = newln

unfoldable pub reset : Method (Unit {0})
unfolding truncate_sustain_buffer ns_seek
reset = do truncate_sustain_buffer; send tt (ns_seek 0)

-- What is left to read of the file, with what is buffered.
abbrev pub state_of : FsFile → State
state_of f = record {
  remaining = elim f.file_handle [ none ↦ [] | some h ↦ unread h ];
  sustain_buffer = f.sustain_buffer;
}

-- The file after a call has left `st` of it to read.
abbrev pub after_reading : FsFile → State → FsFile
after_reading f st = record {
  file_handle = elim f.file_handle [
    | none ↦ none
    | some h ↦ some (record h { offset = h.offset + (length (unread h) - length st.remaining) })
  ];
  location = f.location;
  sustain_buffer = st.sustain_buffer;
}

-- Whether `synchronizeFile` and the reading that a call does raise no exception. An empty separator is
-- found nowhere and has the length of what is not found, so that a substring out of range is taken.
abbrev pub may_read : Bytes → FsFile → Bool
may_read [] f = false
may_read (c ∷ separator) f = elim f.file_handle [
  | none ↦ true
  | some h ↦ elim (split_at (c ∷ separator) f.sustain_buffer) [
    | none ↦ can_read h
    | some _ ↦ h.is_open
  ]
]

-- `readlnWithSeparator:`; nothing as the answer is `nil`.
unfoldable pub file_readln : Bytes → Method (Option Bytes)
unfolding readln_with_separator split_at
file_readln separator f =
    let r = readln_with_separator separator (state_of f) in
    if may_read separator f then some (r.0, after_reading f r.1) else none

-- The loop of `readlinesWithSeparator:` over a method that reads a line, with fuel for its rounds.
unfoldable pub collect_lines :
    {F : Type 0} → ℕ → (F → Option (Option Bytes × F)) → List Bytes → F → Option (List Bytes × F)
collect_lines zero readln all_lines f = none
collect_lines (suc fuel) readln all_lines f = elim (readln f) [
  | none ↦ none
  | some (none, g) ↦ some (all_lines, g)
  | some (some line, g) ↦ collect_lines fuel readln (all_lines ++ line ∷ []) g
]

-- `readlinesWithSeparator:`; a line takes a character or more, and the last round finds the end.
unfoldable pub file_readlines : Bytes → Method (List Bytes)
unfolding collect_lines file_readln
file_readlines separator f =
    collect_lines (suc (suc (length f.sustain_buffer + length (state_of f).remaining)))
      (file_readln separator) [] f
