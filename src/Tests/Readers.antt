-- ===== src/Tests/Readers.antt =====
-- Files, lines and loops at concrete inputs.
use fscript_extensions.Prelude.{
  ℕ, refl, true, false, Option, none, some, List, arith, length, ltb, Bytes, codes, [], ◌∷◌, ◌≡◌,
  if◌then◌else◌,
}
use fscript_extensions.File.RoundTrip.{AllPlain}
use fscript_extensions.File.Object.Wrappers.Emptied.{
  BufferAfter, no_reply, perform, perform-buffer, seek_call,
}
use fscript_extensions.File.Object.Opening.{Disk, IsFresh, open_path, open_path-readlines}
use fscript_extensions.File.Object.{FsFile, collect_lines}
use fscript_extensions.Stdin.{Input}
use fscript_extensions.File.Object.Reset.{IsReadOut, read_again, reset-readlines}
use fscript_extensions.File.Interface.{LineReading}
use fscript_extensions.File.Reading.{NoNull}
use fscript_extensions.File.Handle.{NsFileHandle}
use fscript_extensions.Foreach.Lines.{
  beside, for_all_lines, foreach-readlines, reading_block, with_file,
}
use fscript_extensions.File.Open.{for_reading}
use fscript_extensions.Foreach.{foreach}
use fscript_extensions.File.Lines.{lines_of}
use fscript_extensions.File.Interface.Classes.{stdin_reading}
use fscript_extensions.File.Interface.Override.{stdin_readlines-never}
use fscript_extensions.File.Object.Written.{write_and_read}

abbrev new_disk : Disk
new_disk = record {
  files = (codes "old", codes "x") ∷ [];
  permitted = λ path access. true;
  creatable = λ path. true;
}

plain_lines : AllPlain (codes "ab" ∷ [] ∷ [])
plain_lines = (
  (λ e. ground (arith, e), (λ e. ground (arith, e), tt)),
  (λ e. ground (arith, e), (λ e. ground (arith, e), tt)),
  (tt, tt, tt),
)

new_disk-IsFresh : IsFresh (codes "f") new_disk
new_disk-IsFresh = (refl, refl, refl)

open_path-readlines_example :
    (g : FsFile) × (write_and_read (codes "ab" ∷ [] ∷ []) (open_path (codes "f") new_disk).0
      ≡ some (codes "ab" ∷ [] ∷ [], g))
    × IsReadOut g
open_path-readlines_example =
    open_path-readlines (codes "f") new_disk (codes "ab" ∷ [] ∷ []) new_disk-IsFresh plain_lines

abbrev half_read : NsFileHandle
half_read = record {
  access = for_reading;
  is_open = true;
  contents = codes "a,b";
  offset = 3;
  descriptor = 4;
  background = [];
}

abbrev half_file : FsFile
half_file = record {
  file_handle = some half_read;
  location = codes "f";
  sustain_buffer = codes "b";
}

half_NoNull : NoNull half_read.contents
half_NoNull = (λ e. ground (arith, e), (λ e. ground (arith, e), (λ e. ground (arith, e), tt)))

reset-readlines_example :
    (g : FsFile) × (read_again b',' half_file ≡ some (lines_of b',' (codes "a,b"), g)) × IsReadOut g
reset-readlines_example =
    reset-readlines b',' half_file half_read (λ e. ground (arith, e)) refl refl half_NoNull

seeked :
    perform (seek_call 1) half_file
    ≡ some (
      no_reply,
      record half_file {
        file_handle = some (record half_read { offset = 1 });
        sustain_buffer = [];
      },
    )
unfolding perform
seeked = refl

perform-buffer_example : BufferAfter (seek_call 1) (codes "b") [] × (codes "f" ≡ codes "f")
perform-buffer_example =
    perform-buffer (seek_call 1) half_file
      (record half_file {
        file_handle = some (record half_read { offset = 1 });
        sustain_buffer = [];
      })
      no_reply seeked

stdin_readlines-never_example :
    let st : Input = record { reads = []; buffer = codes "rest" } in
    let class = stdin_reading false 9 in
    (LineReading.readln_with_separator class (b'\n' ∷ []) st ≡ some (some (codes "rest"), st))
    × (LineReading.readlines_with_separator class (b'\n' ∷ []) st ≡ none)
stdin_readlines-never_example = stdin_readlines-never false 9 (b'\n' ∷ []) b'r' (codes "est")

-- A file that hands out the lines of a list.
abbrev next_line : List Bytes → Option (Option Bytes × List Bytes)
next_line [] = some (none, [])
next_line (line ∷ lines) = some (some line, lines)

abbrev longest : Bytes → ℕ → Option ℕ
longest line n = some (if ltb n (length line) then length line else n)

two_collected :
    collect_lines 5 next_line [] (codes "ab" ∷ codes "c" ∷ [])
    ≡ some (codes "ab" ∷ codes "c" ∷ [], [])
unfolding collect_lines
two_collected = refl

foreach-readlines_example :
    foreach 5 (reading_block next_line) (beside longest) (codes "ab" ∷ codes "c" ∷ [], 0)
    ≡ with_file [] (for_all_lines longest (codes "ab" ∷ codes "c" ∷ []) 0)
foreach-readlines_example =
    foreach-readlines 5 next_line longest (codes "ab" ∷ codes "c" ∷ [])
      (codes "ab" ∷ codes "c" ∷ []) [] 0 two_collected
