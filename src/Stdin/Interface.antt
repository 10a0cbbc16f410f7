-- ===== src/Stdin/Interface.antt =====
-- What fscript-CLI/FSFileStdin.h declares, and fscript-CLI/FSFileStdin.m as that.
use fscript_extensions.Prelude.{Bool, Option, none, some, List, Bytes, []}
use fscript_extensions.Stdin.{Input, Reading, readln}
use fscript_extensions.Trampoline.Create.{lp64}

-- The class over its single object's states `S`; `getStdin` is given the object that `init` makes and
-- the one that there may be.
pub record StdinMethods (S : Type 0) : Type 0 where
  pub get_stdin : S → Option S → S × Option S
  pub init : List Bytes → S
  pub readln_with_separator : Bytes → S → Reading

-- `init`: nothing is in the buffer, and all data are still to come.
abbrev pub init_stdin : List Bytes → Input
init_stdin reads = record { reads = reads; buffer = [] }

abbrev pub get_stdin : Input → Option Input → Input × Option Input
get_stdin made none = (made, some made)
get_stdin made (some single) = (single, some single)

unfoldable pub stdin_methods : Bool → StdinMethods Input
unfolding readln
stdin_methods lp64 = record {
  get_stdin = get_stdin;
  init = init_stdin;
  readln_with_separator = readln lp64;
}
