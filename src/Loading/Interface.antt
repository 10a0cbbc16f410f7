-- ===== src/Loading/Interface.antt =====
-- What fscript-CLI/Functions.h declares.
use fscript_extensions.Prelude.{ℕ, Bool, Option, Bytes}
use fscript_extensions.Loading.{FileSystem, Loaded}

-- The four functions over a world `W`, with interpreters `I`; the contents of the file to be loaded are
-- given.
pub record LoadingFunctions (W I : Type 0) : Type 0 where
  pub get_file_mod_time : FileSystem → Bytes → Option ℕ
  pub get_file_size : FileSystem → Bytes → Option ℕ
  pub get_global_interpreter : I → Option I → I × Option I
  pub load_file : FileSystem → Option Bytes → Bytes → Bool → W → Loaded × W
