-- ===== src/SystemUtility/Interface/Filled.antt =====
-- The methods of `sys` as fscript-CLI/FSSystemUtility.m fills them.
use fscript_extensions.Prelude.{ℕ, true, Option, Bytes, []}
use fscript_extensions.SystemUtility.{
  Effect, Environment, SystemState, add_library, file_exists, import, import_force, init_libraries,
  libraries, once,
}
use fscript_extensions.Loading.{FileSystem, Loaded}
use fscript_extensions.File.Object.{FsFile, from_ns_file_handle}
use fscript_extensions.Stdin.{Input}
use fscript_extensions.SystemUtility.Commands.{
  Launch, Run, could_not_find_program, could_not_launch, exec, exec_no_output, exec_shell,
  exec_with_input, ran,
}
use fscript_extensions.File.Handle.{NsFileHandle}
use fscript_extensions.SystemUtility.Interface.{SystemCommands, SystemLibraries, SystemObjects}
use fscript_extensions.File.Open.{for_writing}

-- The static variables of the methods `out`, `in`, `err` and `help`, beside the others and the world.
pub record Sys (W : Type 0) : Type 0 where
  pub state : SystemState
  pub world : W
  pub std_out : Option FsFile
  pub std_in : Option Input
  pub std_err : Option FsFile
  pub help_object : Option (Unit {0})

-- A method of the libraries, on the whole.
abbrev on_state : {W A : Type 0} → Effect W A → Sys W → A × Sys W
on_state method s =
    let r = method (s.state, s.world) in (r.0, record s { state = r.1; world = r.2 })

-- The answer of a program, beside the world that it leaves; where it does not run it leaves all as it was.
abbrev pub answer_of : {W A : Type 0} → Run (A × W) → W → Run A × W
answer_of could_not_find_program world = (could_not_find_program, world)
answer_of could_not_launch world = (could_not_launch, world)
answer_of (ran (a, later)) world = (ran a, later)

abbrev on_world : {W A : Type 0} → (W → Run (A × W)) → Sys W → Run A × Sys W
on_world program s = let r = answer_of (program s.world) s.world in (r.0, record s { world = r.1 })

-- `fileHandleWithStandardOutput` and `fileHandleWithStandardError`.
abbrev pub standard_handle : ℕ → NsFileHandle
standard_handle descriptor = record {
  access = for_writing;
  is_open = true;
  contents = [];
  offset = 0;
  descriptor = descriptor;
  background = [];
}

module _ {W : Type 0} (fs : FileSystem) (env : Environment) (home : Bytes)
    (load : Bytes → Effect W Loaded) (launch : Launch W) (stdin : Input) where
  unfoldable pub system_libraries : SystemLibraries (Sys W)
  unfolding init_libraries add_library import_force
  system_libraries = record {
    init_libraries = λ s. record s { state = init_libraries env home s.state };
    import = λ name. on_state (import fs load name);
    import_force = λ name force. on_state (import_force fs load name force);
    libraries = λ s. libraries s.state;
    add_library = λ location s. record s { state = add_library location s.state };
  }

  unfoldable pub system_objects : SystemObjects (Sys W) FsFile Input (Unit {0})
  unfolding once from_ns_file_handle
  system_objects = record {
    out = λ s.
        let r = once (from_ns_file_handle (standard_handle 1)) s.std_out in
        (r.0, record s { std_out = r.1 });
    in_object = λ s. let r = once stdin s.std_in in (r.0, record s { std_in = r.1 });
    err = λ s.
        let r = once (from_ns_file_handle (standard_handle 2)) s.std_err in
        (r.0, record s { std_err = r.1 });
    help = λ s. let r = once tt s.help_object in (r.0, record s { help_object = r.1 });
    script_name = λ s. s.state.script_name;
    args = λ s. s.state.script_args;
  }

  unfoldable pub system_commands : SystemCommands (Sys W)
  unfolding exec_with_input exec_no_output exec_shell
  system_commands = record {
    exec_with_input = λ command args input.
        on_world (exec_with_input (file_exists fs) env launch command args input);
    exec = λ command args. on_world (exec (file_exists fs) env launch command args);
    exec_no_output =
        λ command args. on_world (exec_no_output (file_exists fs) env launch command args);
    exec_shell = λ command s.
        let r = exec_shell (file_exists fs) env launch command (s.state, s.world) in
        let answer = answer_of r.0 s.world in
        (answer.0, record s { state = r.1; world = answer.1 });
    exit = 0;
    exit_with_status = λ status. status;
  }
