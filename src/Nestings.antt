-- ===== src/Nestings.antt =====
-- The open brackets, comments and strings of a command that goes on over several lines: `findNestings`
-- and `nestedPrompt` of fscript-CLI/interpreter.m.
pub mod Balanced
use fscript_extensions.Prelude.{
  ℕ, Bool, true, false, not, Option, none, some, leb, length, drop, replicate, Bytes, codes, [],
  ◌∷◌, ◌++◌, ◌-◌, ◌&&◌, ◌||◌, ◌==◌, if◌then◌else◌,
}
use fscript_extensions.File.{is_empty}

-- The memory of `nestings` during the loop: the characters up to `nestChar` from the innermost, whose
-- count is `nestLen`, and the bytes behind them, where what was popped stays; and the two flags.
pub record Nesting : Type 0 where
  pub stack : Bytes
  pub above : Bytes
  pub in_string : Bool
  pub in_comment : Bool

-- What `findNestings` returns: `NULL`, or its buffer, whose bytes are from the outermost bracket on; or
-- its use of memory is undefined, since it writes behind the 80 bytes of a buffer, or `strlen` finds no
-- null in the one of the line before.
pub data Nestings : Type 0 where
  null_pointer : Nestings
  buffer : Bytes → Nestings
  misused : Nestings

-- `--nestChar`, which changes no byte.
abbrev pub pop : Nesting → Nesting
pop n = elim n.stack [ [] ↦ n | c ∷ stack ↦ record n { stack = stack; above = c ∷ n.above } ]

-- `*++nestChar = c`
abbrev pub push : ℕ → Nesting → Option Nesting
push c n = elim n.above [
  | [] ↦ none
  | replaced ∷ above ↦ some (record n { stack = c ∷ n.stack; above = above })
]

abbrev pub top_is : ℕ → Bytes → Bool
top_is c [] = false
top_is c (d ∷ stack) = c == d

-- A text whose end is known by its null; nothing if there is none in the memory.
unfoldable pub c_string_in : Bytes → Option Bytes
c_string_in [] = none
c_string_in (c ∷ memory) =
    let rest = c_string_in memory in
    if c == 0 then some [] else elim rest [ none ↦ none | some s ↦ some (c ∷ s) ]

abbrev pub reverse_onto : Bytes → Bytes → Bytes
reverse_onto [] s = s
reverse_onto (c ∷ stack) s = reverse_onto stack (c ∷ s)

-- The flags at the start of a line.
abbrev pub flagged : Bytes → Bytes → Nesting
flagged stack above = record {
  stack = stack;
  above = above;
  in_string = top_is b'\'' stack;
  in_comment = top_is b'"' stack;
}

-- The buffer at the start of a line, in what `malloc` gives for it: with the characters that `strlen`
-- counts in the one before, but not with its null, or with a null if there is none before.
unfoldable pub start : Bytes → Nestings → Option Nesting
unfolding c_string_in
start fresh null_pointer = some (flagged [] (0 ∷ drop 1 fresh))
start fresh (buffer memory) = elim (c_string_in memory) [
  | none ↦ none
  | some s ↦ some (flagged (reverse_onto s []) (drop (length s) fresh))
]
start fresh misused = none

abbrev pub closes : ℕ → Bytes → Bool
closes c stack =
    (c == b')' && top_is b'(' stack)
    || (c == b'}' && top_is b'{' stack)
    || (c == b']' && top_is b'[' stack)

abbrev pub open_char : ℕ → Nesting → Option Nesting
open_char c n =
    if c == b'(' || c == b'{' || c == b'['
    then push c n
    else if c == b'"' && not n.in_comment
    then push c (record n { in_comment = true })
    else if c == b'\'' && not n.in_string
    then push c (record n { in_string = true })
    else some n

-- One round of the loop, for the character `c` behind `previous`, which is 0 at the start of a line.
unfoldable pub nesting_round : ℕ → ℕ → Nesting → Option Nesting
nesting_round previous c n =
    if n.in_comment && c == b'"'
    then some (pop (record n { in_comment = false }))
    else if n.in_string && c == b'\'' && not (previous == b'\\')
    then some (pop (record n { in_string = false }))
    else open_char c (if closes c n.stack then pop n else n)

-- A line is a C string, so that it holds no null.
unfoldable pub nesting_rounds : ℕ → Bytes → Nesting → Option Nesting
unfolding nesting_round
nesting_rounds previous [] n = some n
nesting_rounds previous (c ∷ line) n = elim (nesting_round previous c n) [
  | none ↦ none
  | some m ↦ nesting_rounds c line m
]

-- The end of `findNestings`, which adds no null to the buffer.
abbrev pub returned : Nesting → Nestings
returned n = if is_empty n.stack then null_pointer else buffer (reverse_onto n.stack n.above)

-- `findNestings`, with the 80 bytes of `malloc`.
unfoldable pub find_nestings : Bytes → Nestings → Bytes → Nestings
unfolding start nesting_rounds
find_nestings fresh previous line = elim (start fresh previous) [
  | none ↦ misused
  | some n ↦ elim (nesting_rounds 0 line n) [ none ↦ misused | some m ↦ returned m ]
]

-- `nestedPrompt`: the nestings from the outermost, filled up to the length of the default prompt; nothing
-- if there are more than seven, which it writes past the end of `currentPrompt`.
unfoldable pub nested_prompt : Bytes → Option Bytes
nested_prompt nestings =
    if leb (length nestings) 7
    then some (nestings ++ (replicate (7 - length nestings) b' ' ++ codes " > "))
    else none
