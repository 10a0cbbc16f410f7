-- ===== src/Regex/Interface.antt =====
-- The methods that fscript-CLI/FSRegex.h declares.
pub mod Filled
use fscript_extensions.Prelude.{ℕ, Option, List, Bytes}
use fscript_extensions.Regex.Matches.{MatchAnswer}
use fscript_extensions.Regex.Replace.{Replaced}

-- Those of a match.
pub record RegexMatchMethods (M : Type 0) : Type 0 where
  pub count : M → ℕ
  pub group : M → MatchAnswer (Option Bytes)
  pub group_at_index : M → ℕ → MatchAnswer (Option Bytes)
  pub group_named : M → Bytes → MatchAnswer (Option Bytes)
  pub range : M → MatchAnswer (Option (ℕ × ℕ))
  pub range_at_index : M → ℕ → MatchAnswer (Option (ℕ × ℕ))
  pub range_named : M → Bytes → MatchAnswer (Option (ℕ × ℕ))
  pub string : M → Bytes

-- Those of a regular expression: making one, finding, replacing and splitting. An enumerator is the
-- list of what it will give.
pub record RegexMethods (R M : Type 0) : Type 0 where
  pub regex_with_pattern : Bytes → Option R
  pub regex_with_pattern_options : Bytes → ℕ → Option R
  pub init_with_pattern : Bytes → Option R
  pub init_with_pattern_options : Bytes → ℕ → Option R
  pub find_in_string : R → Bytes → MatchAnswer (Option M)
  pub find_in_range : R → Bytes → ℕ → ℕ → MatchAnswer (Option M)
  pub find_all_in_string : R → Bytes → List M
  pub find_all_in_range : R → Bytes → ℕ → ℕ → List M
  pub find_enumerator_in_string : R → Bytes → List M
  pub find_enumerator_in_range : R → Bytes → ℕ → ℕ → List M
  pub replace_in_string : R → Bytes → Bytes → Replaced Bytes
  pub replace_in_string_limit : R → Bytes → Bytes → ℕ → Replaced Bytes
  pub split_string : R → Bytes → List Bytes
  pub split_string_limit : R → Bytes → ℕ → List Bytes
