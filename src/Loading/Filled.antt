-- ===== src/Loading/Filled.antt =====
-- The functions of fscript-CLI/Functions.m as those of its header.
use fscript_extensions.Prelude.{Bool, Bytes, []}
use fscript_extensions.Loading.{
  ExecutionResult, get_file_mod_time, get_file_size, get_global_interpreter, load_file,
}
use fscript_extensions.Loading.Interface.{LoadingFunctions}
use fscript_extensions.Trampoline.Create.{lp64}

-- `loadedFiles` is empty, as nothing is put into it.
unfoldable pub loading_functions :
    {W I : Type 0} → Bool → (Bytes → W → ExecutionResult × W) → LoadingFunctions W I
unfolding get_file_mod_time get_file_size get_global_interpreter load_file
loading_functions lp64 execute = record {
  get_file_mod_time = get_file_mod_time;
  get_file_size = get_file_size;
  get_global_interpreter = get_global_interpreter;
  load_file = λ fs contents path as_library world.
      load_file lp64 fs execute [] contents path as_library world;
}
