-- ===== src/StringRegex/Interface/Filled.antt =====
-- The methods of fscript-CLI/StringRegex.h as fscript-CLI/StringRegex.m fills them.
use fscript_extensions.Prelude.{Option, List, Bytes}
use fscript_extensions.StringRegex.{
  Answer, Cache, all_captures, captures, matches, replace_with, replace_with_block, split,
}
use fscript_extensions.Regex.Matches.{FsRegex}
use fscript_extensions.Regex.{Match}
use fscript_extensions.StringRegex.Interface.{StringRegexMethods}

unfoldable pub string_methods :
    (Bytes → Option FsRegex) → (Bytes → List Match) → StringRegexMethods Cache Answer
unfolding split matches replace_with replace_with_block captures all_captures
string_methods compile find_references = record {
  split = split compile;
  matches = matches compile;
  replace_with = replace_with compile find_references;
  replace_with_block = λ s pattern block. replace_with_block compile block s pattern;
  captures = captures compile;
  all_captures = all_captures compile;
}
