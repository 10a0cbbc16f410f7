-- ===== src/Tests/Replacing.antt =====
-- Replacing matches at concrete inputs.
use fscript_extensions.Prelude.{
  ℕ, refl, false, Option, none, some, List, arith, leb, Bytes, codes, [], ◌∷◌, ◌++◌, ◌≡◌, ◌&&◌,
  if◌then◌else◌,
}
use fscript_extensions.Regex.Matches.{FsRegex, exec_on, match_of}
use fscript_extensions.Regex.Replace.Whole.{IsWhole, replace_with_string-whole}
use fscript_extensions.Regex.{Match, all_objects, find_all, split_string}
use fscript_extensions.Regex.Replace.Plain.{NoGroups, replace_with_string-join}
use fscript_extensions.Regex.Order.{StaysInside}
use fscript_extensions.StringRegex.{
  all_matches, block_rounds, get_regex, gives, match_groups, replace_with_block, with_cache,
}
use fscript_extensions.Regex.Replace.{
  apply_modifiers, build_tokens, replace_rounds, replace_with_string, replaced, replacement,
  token_of,
}
use fscript_extensions.Collections.{join}
use fscript_extensions.StringRegex.WithBlock.{rebuilt, replace_with_block-rebuilt}
use fscript_extensions.Nestings.{start}
use fscript_extensions.PropertyName.{to_upper}

-- `pcre_exec` for the pattern `,` and the string `a,b`.
abbrev comma_at : ℕ → ℕ → Option Match
comma_at start end =
    if leb start 1 && leb 2 end then some (record { location = 1; size = 1; groups = [] }) else none

comma_at-StaysInside : StaysInside comma_at
comma_at-StaysInside start end m h e = ground (arith, e)

-- No names of groups, and no references or one to the whole match.
abbrev no_names : Bytes → Option ℕ
no_names name = none

abbrev no_references : Bytes → List Match
no_references rep = []

abbrev whole_reference : Match
whole_reference = record {
  location = 0;
  size = 2;
  groups = none ∷ some (codes "&") ∷ none ∷ none ∷ none ∷ [];
}

comma_NoGroups : NoGroups (find_all comma_at 0 3)
unfolding find_all all_objects
comma_NoGroups = (refl, tt)

replace_with_string-join_example :
    replace_with_string comma_at no_names no_references (codes "; ") (codes "a,b") 0
    ≡ replaced (join (codes "; ") (split_string comma_at (codes "a,b") 0))
replace_with_string-join_example =
    replace_with_string-join comma_at no_names no_references (codes "; ") (codes "a,b") 0 refl
      comma_NoGroups

semicolon :
    replace_with_string comma_at no_names no_references (codes "; ") (codes "a,b") 0
    ≡ replaced (codes "a; b")
unfolding replace_with_string find_all all_objects replacement build_tokens apply_modifiers
    replace_rounds
semicolon = refl

token-IsWhole : IsWhole whole_reference false
unfolding token_of
token-IsWhole = refl

replace_with_string-whole_example :
    replace_with_string comma_at no_names (λ rep. whole_reference ∷ []) (codes "$&") (codes "a,b") 0
    ≡ replaced (codes "a,b")
replace_with_string-whole_example =
    replace_with_string-whole comma_at no_names (λ rep. whole_reference ∷ []) (codes "$&")
      (codes "a,b") 0 whole_reference false comma_at-StaysInside refl token-IsWhole refl refl

upper_part : apply_modifiers ((1, b'U') ∷ (3, b'E') ∷ (9, b'l') ∷ []) (codes "abcd") ≡ codes "aBCd"
unfolding apply_modifiers to_upper
upper_part = refl

-- The pattern `,` compiled, for the string `a,b`.
abbrev comma_regex : FsRegex
comma_regex = record {
  exec = λ s start end. if leb start 1 && leb 2 end then some (some (1, 1) ∷ []) else none;
  string_number = no_names;
}

abbrev compile_comma : Bytes → Option FsRegex
compile_comma pattern = some comma_regex

comma_exec-StaysInside : StaysInside (exec_on comma_regex (codes "a,b"))
unfolding exec_on match_of
comma_exec-StaysInside start end m h e = ground (arith, e)

comma_gotten :
    get_regex compile_comma (codes ",") [] ≡ some (comma_regex, (codes ",", comma_regex) ∷ [])
unfolding get_regex
comma_gotten = refl

-- A block that doubles the match.
abbrev doubles : List Bytes → Option Bytes
doubles [] = none
doubles (g ∷ groups) = some (g ++ g)

replace_with_block-rebuilt_example :
    replace_with_block compile_comma doubles (codes "a,b") (codes ",") []
    ≡ with_cache
        ((codes ",", comma_regex) ∷ [])
        (rebuilt doubles (codes "a,b") 0 (all_matches comma_regex (codes "a,b")))
replace_with_block-rebuilt_example =
    replace_with_block-rebuilt compile_comma doubles (codes "a,b") (codes ",") []
      ((codes ",", comma_regex) ∷ []) comma_regex comma_gotten comma_exec-StaysInside

doubled :
    replace_with_block compile_comma doubles (codes "a,b") (codes ",") []
    ≡ gives (codes "a,,b") ((codes ",", comma_regex) ∷ [])
unfolding replace_with_block get_regex find_all all_objects exec_on match_of block_rounds
    match_groups
doubled = refl
