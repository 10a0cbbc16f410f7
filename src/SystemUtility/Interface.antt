-- ===== src/SystemUtility/Interface.antt =====
-- The methods of `sys` that fscript-CLI/FSSystemUtility.h declares.
pub mod Filled
use fscript_extensions.Prelude.{ℕ, Bool, Option, List, Bytes}
use fscript_extensions.SystemUtility.{Imported}
use fscript_extensions.SystemUtility.Commands.{Run}

-- The libraries, over what the methods act on.
pub record SystemLibraries (S : Type 0) : Type 0 where
  pub init_libraries : S → S
  pub import : Bytes → S → Imported × S
  pub import_force : Bytes → Bool → S → Imported × S
  pub libraries : S → Option (List Bytes)
  pub add_library : Bytes → S → S

-- The objects, of the classes `File` and `Help`, and what is known of the script.
pub record SystemObjects (S File Stdin Help : Type 0) : Type 0 where
  pub out : S → File × S
  pub in_object : S → Stdin × S
  pub err : S → File × S
  pub help : S → Help × S
  pub script_name : S → Option Bytes
  pub args : S → Option (List Bytes)

-- Running programs, and ending this one with a status.
pub record SystemCommands (S : Type 0) : Type 0 where
  pub exec_with_input : Bytes → Option (List Bytes) → Option Bytes → S → Run Bytes × S
  pub exec : Bytes → Option (List Bytes) → S → Run Bytes × S
  pub exec_no_output : Bytes → Option (List Bytes) → S → Run ℕ × S
  pub exec_shell : Bytes → S → Run Bytes × S
  pub exit : ℕ
  pub exit_with_status : ℕ → ℕ
