-- ===== src/StringRegex/Interface.antt =====
-- The methods that fscript-CLI/StringRegex.h adds to strings.
pub mod Filled
use fscript_extensions.Prelude.{Bool, Option, List, Bytes}
use fscript_extensions.Regex.{Match}

-- On strings and patterns, with a state `S` that holds the compiled patterns. A block takes the groups
-- of a match.
pub record StringRegexMethods (S : Type 0) (Answered : Type 0 → Type 0) : Type 1 where
  pub split : Bytes → Bytes → S → Answered (List Bytes)
  pub matches : Bytes → Bytes → S → Answered Bool
  pub replace_with : Bytes → Bytes → Bytes → S → Answered Bytes
  pub replace_with_block : Bytes → Bytes → (List Bytes → Option Bytes) → S → Answered Bytes
  pub captures : Bytes → Bytes → S → Answered (Option (List Bytes))
  pub all_captures : Bytes → Bytes → S → Answered (List Match)
