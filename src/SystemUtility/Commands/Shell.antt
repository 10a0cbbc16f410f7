-- ===== src/SystemUtility/Commands/Shell.antt =====
-- The shell that `execShell:` runs (fscript-CLI/FSSystemUtility.m).
use fscript_extensions.Prelude.{Bool, true, none, some, arith, Bytes, codes, [], ◌≡◌}
use fscript_extensions.SystemUtility.{Environment, SystemState, find_command, is_absolute}
use fscript_extensions.SystemUtility.Commands.{
  Launch, could_not_launch, exec_shell, exec_with_input, ran, run_task,
}
use fscript_extensions.Dictionary.{object_for, string_key, pointer_key}

-- Once the shell is known, `execShell:` passes the command to it as its input without arguments, whatever
-- the environment says of the shell later; a shell that is an absolute path is not searched for.
pub exec_shell-again :
    {W : Type 0} (exists : Bytes → Bool) (env later : Environment) (launch : Launch W)
    (command second shell : Bytes) (st : SystemState) (world between : W)
    → st.shell_name ≡ none
    → object_for (codes "SHELL") env ≡ some shell
    → is_absolute shell ≡ true
    → let st' = (exec_shell exists env launch command (st, world)).1 in
      exec_shell exists later launch second (st', between) ≡ (
        elim (launch shell [] (some second) between) [
          | none ↦ could_not_launch
          | some (ended, after) ↦ ran (ended.output, after)
        ],
        record st { shell_name = some shell },
      )
unfolding exec_shell exec_with_input run_task find_command
exec_shell-again exists env later launch command second shell st world between unknown known
      absolute =
    ground (arith, unknown, known, absolute)
