-- ===== src/Regex/Interface/Filled.antt =====
-- The methods of fscript-CLI/FSRegex.h as fscript-CLI/FSRegex.m fills them.
use fscript_extensions.Prelude.{ℕ, Option, none, some, List, length, Bytes, ◌+◌}
use fscript_extensions.Regex.Matches.{
  FsRegex, FsRegexMatch, MatchAnswer, answered, count, exec_on, find_in_range, find_in_string,
  group_named, index_out_of_bounds, init_with_pattern, init_with_pattern_options, match_group,
  match_of, no_group_named, range_at_index, range_named, range_out_of_bounds,
}
use fscript_extensions.Regex.{Match, find_all, split_string}
use fscript_extensions.Regex.Interface.{RegexMatchMethods, RegexMethods}
use fscript_extensions.Regex.Replace.{replace_with_string}

unfoldable pub match_methods : RegexMatchMethods FsRegexMatch
unfolding match_group range_at_index group_named range_named
match_methods = record {
  count = count;
  group = λ m. match_group m 0;
  group_at_index = match_group;
  group_named = group_named;
  range = λ m. range_at_index m 0;
  range_at_index = range_at_index;
  range_named = range_named;
  string = λ m. m.string;
}

-- A match that was found, as replacing and splitting see it.
abbrev pub found_match : MatchAnswer (Option FsRegexMatch) → MatchAnswer (Option Match)
found_match (answered none) = answered none
found_match (answered (some m)) = answered (match_of m.string m.vector)
found_match index_out_of_bounds = index_out_of_bounds
found_match no_group_named = no_group_named
found_match range_out_of_bounds = range_out_of_bounds

-- Over `compile`, which is PCRE's, and `find_references`, which finds the matches of `backrefPattern`.
unfoldable pub regex_methods :
    (Bytes → ℕ → Option FsRegex) → (Bytes → List Match) → RegexMethods FsRegex Match
unfolding init_with_pattern_options find_in_range match_of exec_on find_all replace_with_string
    split_string
regex_methods compile find_references = record {
  regex_with_pattern = init_with_pattern compile;
  regex_with_pattern_options = init_with_pattern_options compile;
  init_with_pattern = init_with_pattern compile;
  init_with_pattern_options = init_with_pattern_options compile;
  find_in_string = λ r s. found_match (find_in_string r s);
  find_in_range = λ r s location size. found_match (find_in_range r s location size);
  find_all_in_string = λ r s. find_all (exec_on r s) 0 (length s);
  find_all_in_range = λ r s location size. find_all (exec_on r s) location (location + size);
  find_enumerator_in_string = λ r s. find_all (exec_on r s) 0 (length s);
  find_enumerator_in_range = λ r s location size. find_all (exec_on r s) location (location + size);
  replace_in_string =
      λ r rep s. replace_with_string (exec_on r s) r.string_number find_references rep s 0;
  replace_in_string_limit = λ r rep s limit.
      replace_with_string (exec_on r s) r.string_number find_references rep s limit;
  split_string = λ r s. split_string (exec_on r s) s 0;
  split_string_limit = λ r s limit. split_string (exec_on r s) s limit;
}
