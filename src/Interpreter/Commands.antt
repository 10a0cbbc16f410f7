-- ===== src/Interpreter/Commands.antt =====
-- The commands that a session runs (fscript-CLI/interpreter.m).
use fscript_extensions.Prelude.{ℕ, Option, none, some, List, length, Bytes, [], ◌∷◌, ◌++◌, ◌≡◌}
use fscript_extensions.Interpreter.{Execution, Objects, Session, read_line, run_command}
use fscript_extensions.Nestings.{Nestings, null_pointer}

-- A command that may be there, in front of those to come.
abbrev pub add_command : Option Bytes → List Bytes × Session → List Bytes × Session
add_command none rest = rest
add_command (some command) rest = (command ∷ rest.0, rest.1)

-- The commands that are complete within the lines, and what waits behind them.
unfoldable pub commands : (ℕ → Bytes) → List Bytes → Session → List Bytes × Session
unfolding read_line
commands fresh [] s = ([], s)
commands fresh (line ∷ lines) s =
    let (complete, later) = read_line (fresh (length lines)) s line in
    add_command complete (commands fresh lines later)

abbrev pub all_text : List Bytes → Bytes
all_text [] = []
all_text (s ∷ texts) = s ++ all_text texts

-- What a command that may be there adds to the text.
abbrev pub text_of_command : Option Bytes → Bytes
text_of_command none = []
text_of_command (some command) = command

-- Without nestings, nothing waits.
abbrev pub IsWaiting : Session → Type 0
IsWaiting s = s.current_nestings ≡ null_pointer → s.current_command ≡ []

module _ {W : Type 0} (objects : Objects) (execute : Bytes → W → Execution × W) where
  -- Running one command after the other, and what is printed at the end.
  abbrev pub run_all : Option Bytes → List Bytes → W → Option Bytes × W
  run_all at_end [] world = (at_end, world)
  run_all at_end (command ∷ rest) world =
      run_command objects execute (some command) (λ w. run_all at_end rest w) world
