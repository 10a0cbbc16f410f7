-- ===== src/SystemUtility/Commands.antt =====
-- Running commands: `exec:args:input:`, `execNoOutput:args:` and `execShell:` of
-- fscript-CLI/FSSystemUtility.m. What `NSTask` does with a program is a parameter.
pub mod Shell
use fscript_extensions.Prelude.{ℕ, Bool, Option, none, some, List, Bytes, codes}
use fscript_extensions.SystemUtility.{Environment, SystemState, elements, find_command}
use fscript_extensions.Dictionary.{object_for, string_key, pointer_key}

-- A program that has ended: what it wrote and its status.
pub record Ended : Type 0 where
  pub output : Bytes
  pub status : ℕ

-- A program by its path with its arguments and its input, if any; nothing stands for the exception that
-- it cannot be launched.
abbrev pub Launch : Type 0 → Type 0
Launch W = Bytes → List Bytes → Option Bytes → W → Option (Ended × W)

-- The answer of a method that runs a program.
pub data Run {ℓ} (A : Type ℓ) : Type ℓ where
  could_not_find_program could_not_launch : Run A
  ran : A → Run A

module _ {W : Type 0} (exists : Bytes → Bool) (env : Environment) (launch : Launch W) where
  -- A program found for the command, run.
  unfoldable pub run_task : Bytes → Option (List Bytes) → Option Bytes → W → Run (Ended × W)
  unfolding find_command
  run_task command args input world = elim (find_command exists env command) [
    | none ↦ could_not_find_program
    | some path ↦ elim (launch path (elements args) input world) [
      | none ↦ could_not_launch
      | some ended ↦ ran ended
    ]
  ]

  -- `exec:args:input:`
  unfoldable pub exec_with_input : Bytes → Option (List Bytes) → Option Bytes → W → Run (Bytes × W)
  unfolding run_task
  exec_with_input command args input world = elim (run_task command args input world) [
    | could_not_find_program ↦ could_not_find_program
    | could_not_launch ↦ could_not_launch
    | ran (ended, later) ↦ ran (ended.output, later)
  ]

  -- `exec:args:`
  abbrev pub exec : Bytes → Option (List Bytes) → W → Run (Bytes × W)
  exec command args world = exec_with_input command args none world

  -- `execNoOutput:args:`
  unfoldable pub exec_no_output : Bytes → Option (List Bytes) → W → Run (ℕ × W)
  unfolding run_task
  exec_no_output command args world = elim (run_task command args none world) [
    | could_not_find_program ↦ could_not_find_program
    | could_not_launch ↦ could_not_launch
    | ran (ended, later) ↦ ran (ended.status, later)
  ]

  -- `shellName` after it has been asked for.
  abbrev pub with_shell : SystemState → SystemState
  with_shell st = elim st.shell_name [
    | some _ ↦ st
    | none ↦ record st { shell_name = object_for (codes "SHELL") env }
  ]

  -- A format shows `nil` as this text; it has no prefix.
  abbrev pub shell_command : SystemState → Bytes
  shell_command st = elim st.shell_name [ none ↦ codes "(null)" | some name ↦ name ]

  -- `execShell:`
  unfoldable pub exec_shell : Bytes → SystemState × W → Run (Bytes × W) × SystemState
  unfolding exec_with_input
  exec_shell command (st, world) =
      let later = with_shell st in
      (exec_with_input (shell_command later) none (some command) world, later)
