-- ===== src/File.antt =====
-- Files of fscript-CLI/FSFile.m: opening one in a mode, and reading and writing lines. A text is a list
-- of ASCII characters, each a byte of the file.
pub mod Open
pub mod Lines
pub mod Reading
pub mod Readlines
pub mod RoundTrip
pub mod Handle
pub mod Object
pub mod Interface
use fscript_extensions.Prelude.{
  ℕ, zero, suc, Bool, true, false, Option, none, some, List, length, take, drop, Bytes, [], ◌∷◌,
  ◌++◌, ◌+◌, ◌&&◌, ◌==◌, if◌then◌else◌,
}
use fscript_extensions.Selector.{until_null}

-- The position of a separator, `rangeOfString:` and `strstr`, as what stands before it and behind it.
abbrev pub is_prefix : Bytes → Bytes → Bool
is_prefix [] s = true
is_prefix (c ∷ p) [] = false
is_prefix (c ∷ p) (x ∷ s) = c == x && is_prefix p s

abbrev pub behind : ℕ → Option (Bytes × Bytes) → Option (Bytes × Bytes)
behind x none = none
behind x (some (before, after)) = some (x ∷ before, after)

unfoldable pub split_at : Bytes → Bytes → Option (Bytes × Bytes)
split_at separator [] = if is_prefix separator [] then some ([], []) else none
split_at separator (x ∷ s) =
    let rest = split_at separator s in
    if is_prefix separator (x ∷ s)
    then some ([], drop (length separator) (x ∷ s))
    else behind x rest

-- `strstr`, and what stands `skip` characters behind the place that it finds.
unfoldable pub find_c_string : Bytes → ℕ → Bytes → Option (Bytes × Bytes)
find_c_string needle skip [] = if is_prefix needle [] then some ([], []) else none
find_c_string needle skip (x ∷ s) =
    let rest = find_c_string needle skip s in
    if is_prefix needle (x ∷ s) then some ([], drop skip (x ∷ s)) else behind x rest

-- The separator as a C string ends at a null; behind it, as many characters are left out as it has.
unfoldable pub split_at_c_string : Bytes → Bytes → Option (Bytes × Bytes)
unfolding find_c_string until_null
split_at_c_string separator s = find_c_string (until_null separator) (length separator) s

-- What the file holds behind the handle's offset, and `sustainBuffer`.
pub record State : Type 0 where
  pub remaining : Bytes
  pub sustain_buffer : Bytes

-- `length` of a text is 0.
abbrev pub is_empty : Bytes → Bool
is_empty [] = true
is_empty (c ∷ s) = false

-- `rBufSize - 1`
abbrev pub chunk_size : ℕ
chunk_size = 99

-- The `do` loop of `readlnWithSeparator:` and what follows it. A chunk is handled as a C string, which
-- ends at a null. The fuel bounds the rounds.
unfoldable pub read_rounds : ℕ → Bytes → State → Option Bytes × State
unfolding split_at_c_string until_null
read_rounds zero separator st = (none, st)
read_rounds (suc fuel) separator st =
    let buffer = until_null (take chunk_size st.remaining) in
    let later = drop chunk_size st.remaining in
    let again =
      read_rounds fuel separator
        (record { remaining = later; sustain_buffer = st.sustain_buffer ++ buffer }) in
    if is_empty st.remaining
    then (
      if is_empty st.sustain_buffer then none else some st.sustain_buffer,
      record { remaining = []; sustain_buffer = [] },
    )
    else elim (split_at_c_string separator buffer) [
      | some (before, after) ↦
          (some (st.sustain_buffer ++ before), record { remaining = later; sustain_buffer = after })
      | none ↦ again
    ]

-- `readlnWithSeparator:` with a separator that is not empty; nothing is `nil`. Every round but the last
-- reads a character or more.
unfoldable pub readln_with_separator : Bytes → State → Option Bytes × State
unfolding read_rounds split_at
readln_with_separator separator st = elim (split_at separator st.sustain_buffer) [
  | some (before, after) ↦ (some before, record st { sustain_buffer = after })
  | none ↦ read_rounds (suc (length st.remaining)) separator st
]

-- The loop of `readlinesWithSeparator:`.
unfoldable pub read_lines : ℕ → Bytes → State → List Bytes
unfolding readln_with_separator
read_lines zero separator st = []
read_lines (suc fuel) separator st =
    let r = readln_with_separator separator st in
    let rest = read_lines fuel separator r.1 in elim r.0 [ none ↦ [] | some line ↦ line ∷ rest ]

-- `readlinesWithSeparator:`; a line takes a character or more.
unfoldable pub readlines_with_separator : Bytes → State → List Bytes
unfolding read_lines
readlines_with_separator separator st =
    read_lines (suc (length st.sustain_buffer + length st.remaining)) separator st

-- `println:` of every line, at the end of the file.
unfoldable pub print_lines : List Bytes → Bytes → Bytes
print_lines [] written = written
print_lines (line ∷ lines) written = print_lines lines (written ++ (line ++ b'\n' ∷ []))
