-- ===== src/Interpreter.antt =====
-- The loop of fscript-CLI/interpreter.m, run_readline_interpreter, and its prompts. What F-Script does with
-- a command, and the objects that stand for a number and a string, are arguments; lines are ASCII.
pub mod Commands
pub mod Caret
use fscript_extensions.Prelude.{
  ℕ, Bool, Option, none, some, List, length, Bytes, codes, [], ◌∷◌, ◌++◌, ◌+◌, if◌then◌else◌,
}
use fscript_extensions.Format.{Formatted, Value, formatted, sprintf}
use fscript_extensions.Nestings.{
  Nestings, buffer, c_string_in, find_nestings, misused, nested_prompt, null_pointer,
}
use fscript_extensions.File.{is_empty}

-- What comes of a command: nothing (`FSVoid`), an object with its description, an exception with its
-- reason, or an error of the syntax at a location with its message.
pub data Execution : Type 0 where
  void_result : Execution
  result_value reason : Bytes → Execution
  execution_error : ℕ → Bytes → Execution

-- The objects that `printf:withValues:` is given for a number and a string.
pub record Objects : Type 0 where
  pub number : ℕ → Value
  pub string : Bytes → Value

-- `currentCommand` and `currentNestings`.
pub record Session : Type 0 where
  pub current_command : Bytes
  pub current_nestings : Nestings

abbrev pub fresh_session : Session
fresh_session = record { current_command = []; current_nestings = null_pointer }

abbrev pub default_prompt_length : ℕ
default_prompt_length = 10

-- `regularPrompt` and `regularPromptColor`, and `nestedPrompt` and `nestedPromptColor`.
abbrev pub with_color : Bytes → Bytes
with_color prompt = 27 ∷ codes "[1;30m" ++ (prompt ++ 27 ∷ codes "[0m")

abbrev pub colored : Bool → Bytes → Bytes
colored use_color text = if use_color then with_color text else text

-- Nothing where memory is misused. `currentNestingsLength` is their `strlen`.
unfoldable pub prompt : Bool → Session → Option Bytes
unfolding nested_prompt c_string_in
prompt use_color s = elim s.current_nestings [
  | null_pointer ↦ some (colored use_color (codes "F-Script> "))
  | buffer memory ↦ elim (c_string_in memory) [
    | none ↦ none
    | some nestings ↦ elim (nested_prompt nestings) [
      | none ↦ none
      | some text ↦ some (colored use_color text)
    ]
  ]
  | misused ↦ none
]

-- The places at which an error is marked, and the text that marks it.
abbrev pub caret_values : Objects → ℕ → List Value
caret_values objects location =
    objects.number (location + default_prompt_length + 1) ∷ objects.string (codes "^") ∷ []

unfoldable pub caret : Objects → ℕ → Formatted
unfolding sprintf
caret objects location = sprintf (codes "% *s\n") (caret_values objects location)

-- What is printed of a command; nothing if that itself raises an exception.
unfoldable pub printed : Objects → Execution → Option Bytes
unfolding caret
printed objects void_result = some []
printed objects (result_value description) = some (description ++ b'\n' ∷ [])
printed objects (reason text) = some (text ++ b'\n' ∷ [])
printed objects (execution_error location message) = elim (caret objects location) [
  | formatted text ↦ some (text ++ (message ++ b'\n' ∷ []))
  | _ ↦ none
]

-- `strlen` of the nestings, which is undefined if there is no null in their buffer.
unfoldable pub measured : Nestings → Nestings
unfolding c_string_in
measured null_pointer = null_pointer
measured (buffer memory) = elim (c_string_in memory) [ none ↦ misused | some s ↦ buffer memory ]
measured misused = misused

abbrev pub with_nestings : Bytes → Nestings → Option Bytes × Session
with_nestings command null_pointer = (some command, fresh_session)
with_nestings command nestings =
    (none, record { current_command = command; current_nestings = nestings })

-- A line, with the memory that `malloc` gives for its nestings: the command that is complete with it, if
-- any, and what waits. Once that memory is misused, everything waits.
unfoldable pub read_line : Bytes → Session → Bytes → Option Bytes × Session
unfolding find_nestings measured
read_line fresh s line =
    if is_empty line
    then (none, s)
    else with_nestings (s.current_command ++ line)
        (measured (find_nestings fresh s.current_nestings line))

-- The output of a command, in front of that of the commands to come; nothing behind an exception that
-- nothing catches.
abbrev pub shown : {W : Type 0} → Option Bytes → Option Bytes × W → W → Option Bytes × W
shown none rest world = (none, world)
shown (some text) (none, later) world = (none, later)
shown (some text) (some more, later) world = (some (text ++ more), later)

-- A command that may be there, and the rest of the loop.
abbrev pub run_command :
    {W : Type 0}
    → Objects
    → (Bytes → W → Execution × W)
    → Option Bytes
    → (W → Option Bytes × W)
    → W
    → Option Bytes × W
run_command objects execute none rest world = rest world
run_command objects execute (some command) rest world =
    let (execution, later) = execute command world in
    shown (printed objects execution) (rest later) later

-- The end of the input; nothing is known of the output if memory was misused.
abbrev pub ending : Nestings → Option Bytes
ending misused = none
ending _ = some (b'\n' ∷ [])

-- The loop, up to the end of the input. `fresh` is what `malloc` gives for a line, by the number of lines
-- behind it.
unfoldable pub interpret :
    {W : Type 0}
    → Objects
    → (Bytes → W → Execution × W)
    → (ℕ → Bytes)
    → List Bytes
    → Session
    → W
    → Option Bytes × W
unfolding read_line printed
interpret objects execute fresh [] s world = (ending s.current_nestings, world)
interpret objects execute fresh (line ∷ lines) s world =
    let (complete, later) = read_line (fresh (length lines)) s line in
    run_command objects execute complete (λ w. interpret objects execute fresh lines later w) world
