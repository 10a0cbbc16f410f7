-- ===== src/Stdin.antt =====
-- Reading lines from the standard input (fscript-CLI/FSFileStdin.m). Texts are ASCII.
pub mod AtEnd
pub mod Interface
use fscript_extensions.Prelude.{
  ℕ, zero, suc, Bool, Option, none, some, List, Bytes, [], ◌∷◌, ◌++◌, ◌&&◌, if◌then◌else◌,
}
use fscript_extensions.File.{is_empty, split_at}
use fscript_extensions.Trampoline.Create.{lp64}

-- What further calls of `availableData` return, the end of the input being no data, and `buffer`.
pub record Input : Type 0 where
  pub reads : List Bytes
  pub buffer : Bytes

-- A line or `nil`, or an exception of Foundation.
pub data Reading : Type 0 where
  line_read : Option Bytes → Input → Reading
  range_exception : Reading

-- What follows the loop.
abbrev pub leave_loop : Option Bytes → Input → Reading
leave_loop none st = line_read (if is_empty st.buffer then none else some st.buffer) st
leave_loop (some line) st =
    line_read (if is_empty line && is_empty st.buffer then none else some line) st

-- The loop, over the data still to come. `NSNotFound` and the addition to it are cut off to an `int`:
-- where `lp64` says that pointers have 64 bits that gives -1, which passes for a position.
unfoldable pub stdin_rounds : Bool → Bytes → List Bytes → Bytes → Reading
unfolding split_at
stdin_rounds lp64 separator [] buffer = leave_loop none (record { reads = []; buffer = buffer })
stdin_rounds lp64 separator (chunk ∷ reads) buffer =
    let again = stdin_rounds lp64 separator reads (buffer ++ (buffer ++ chunk)) in
    if is_empty chunk
    then leave_loop none (record { reads = reads; buffer = buffer })
    else elim (split_at separator (buffer ++ chunk)) [
      | some (before, after) ↦ leave_loop (some before) (record { reads = reads; buffer = after })
      | none ↦ if lp64 then range_exception else again
    ]

-- `readlnWithSeparator:`
unfoldable pub readln : Bool → Bytes → Input → Reading
unfolding stdin_rounds
readln lp64 separator st = stdin_rounds lp64 separator st.reads st.buffer

-- The first lines that `readlinesWithSeparator:` of FSFile.m collects in `fuel` rounds.
unfoldable pub stdin_lines : Bool → ℕ → Bytes → Input → List Bytes
unfolding readln
stdin_lines lp64 zero separator st = []
stdin_lines lp64 (suc fuel) separator st = elim (readln lp64 separator st) [
  | range_exception ↦ []
  | line_read none later ↦ []
  | line_read (some line) later ↦ line ∷ stdin_lines lp64 fuel separator later
]
