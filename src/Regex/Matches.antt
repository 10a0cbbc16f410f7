-- ===== src/Regex/Matches.antt =====
-- `FSRegexMatch` and the making of an `FSRegex`: fscript-CLI/FSRegex.m and fscript-CLI/FSRegex.h. Texts
-- are ASCII, so that bytes and characters agree.
pub mod Options
pub mod Groups
use fscript_extensions.Prelude.{
  ℕ, Bool, not, Option, none, some, List, length, get_elem?, ltb, Bytes, [], ◌∷◌, ◌+◌, ◌/◌, ◌%◌,
  ◌==◌, if◌then◌else◌,
}
use fscript_extensions.Regex.{Match, substring}
use fscript_extensions.Nestings.{start}

-- The options that two or more of which can be combined.
pub data RegexOption : Type 0 where
  case_insensitive dot_all extended lazy multiline : RegexOption

abbrev pub option_value : RegexOption → ℕ
option_value case_insensitive = 1
option_value dot_all = 2
option_value extended = 4
option_value lazy = 8
option_value multiline = 16

-- `PCRE_CASELESS`, `PCRE_DOTALL`, `PCRE_EXTENDED`, `PCRE_UNGREEDY` and `PCRE_MULTILINE` of PCRE.
abbrev pub pcre_option : RegexOption → ℕ
pcre_option case_insensitive = 1
pcre_option dot_all = 4
pcre_option extended = 8
pcre_option lazy = 512
pcre_option multiline = 2

-- `opts & option`
abbrev pub has_option : ℕ → RegexOption → Bool
has_option opts option = not (opts / option_value option % 2 == 0)

abbrev pub pcre_bit : ℕ → RegexOption → ℕ
pcre_bit opts option = if has_option opts option then pcre_option option else 0

-- `copts` without the bit for UTF-8, which a build may add. The bits are different, so that their
-- combination is their sum.
unfoldable pub compile_options : ℕ → ℕ
compile_options opts =
    pcre_bit opts case_insensitive
    + pcre_bit opts dot_all
    + pcre_bit opts extended
    + pcre_bit opts lazy
    + pcre_bit opts multiline

-- What PCRE makes of a pattern: `pcre_exec` on a string from a start to an end, which gives the vector
-- of ranges, and `pcre_get_stringnumber`.
pub record FsRegex : Type 0 where
  pub exec : Bytes → ℕ → ℕ → Option (List (Option (ℕ × ℕ)))
  pub string_number : Bytes → Option ℕ

-- `initWithPattern:options:` over `pcre_compile` and `pcre_fullinfo`; nothing is `nil`.
unfoldable pub init_with_pattern_options : (Bytes → ℕ → Option FsRegex) → Bytes → ℕ → Option FsRegex
unfolding compile_options
init_with_pattern_options compile pattern opts = compile pattern (compile_options opts)

-- `initWithPattern:`
abbrev pub init_with_pattern : (Bytes → ℕ → Option FsRegex) → Bytes → Option FsRegex
init_with_pattern compile pattern = init_with_pattern_options compile pattern 0

-- A match: its string and its vector of ranges, by their start and size; nothing for a group that took
-- no part.
pub record FsRegexMatch : Type 0 where
  pub regex : FsRegex
  pub string : Bytes
  pub vector : List (Option (ℕ × ℕ))

-- The answer, or an exception: an index out of bounds, a name that is no group's, a range out of bounds.
pub data MatchAnswer {ℓ} (A : Type ℓ) : Type ℓ where
  answered : A → MatchAnswer A
  index_out_of_bounds no_group_named range_out_of_bounds : MatchAnswer A

abbrev pub count : FsRegexMatch → ℕ
count m = length m.vector

-- `rangeAtIndex:`; nothing is `{NSNotFound, 0}`.
unfoldable pub range_at_index : FsRegexMatch → ℕ → MatchAnswer (Option (ℕ × ℕ))
range_at_index m idx = elim (get_elem? m.vector idx) [
  | none ↦ index_out_of_bounds
  | some range ↦ answered range
]

abbrev pub text_in : Bytes → Option (ℕ × ℕ) → Option Bytes
text_in s none = none
text_in s (some (location, size)) = some (substring s location size)

-- `groupAtIndex:` of a match object; nothing is `nil`.
unfoldable pub match_group : FsRegexMatch → ℕ → MatchAnswer (Option Bytes)
unfolding range_at_index
match_group m idx = elim (range_at_index m idx) [
  | answered range ↦ answered (text_in m.string range)
  | index_out_of_bounds ↦ index_out_of_bounds
  | no_group_named ↦ no_group_named
  | range_out_of_bounds ↦ range_out_of_bounds
]

-- What a method does with the number of a name.
abbrev pub by_name : {A : Type 0} → FsRegexMatch → Bytes → (ℕ → MatchAnswer A) → MatchAnswer A
by_name m name method = elim (m.regex.string_number name) [
  | none ↦ no_group_named
  | some idx ↦ method idx
]

-- `groupNamed:`
unfoldable pub group_named : FsRegexMatch → Bytes → MatchAnswer (Option Bytes)
unfolding match_group
group_named m name = by_name m name (match_group m)

-- `rangeNamed:`
unfoldable pub range_named : FsRegexMatch → Bytes → MatchAnswer (Option (ℕ × ℕ))
unfolding range_at_index
range_named m name = by_name m name (range_at_index m)

-- `findInString:range:`
unfoldable pub find_in_range : FsRegex → Bytes → ℕ → ℕ → MatchAnswer (Option FsRegexMatch)
find_in_range regex s location size =
    if ltb (length s) (location + size)
    then range_out_of_bounds
    else answered (elim (regex.exec s location (location + size)) [
      | none ↦ none
      | some vector ↦ some (record { regex = regex; string = s; vector = vector })
    ])

-- `findInString:`
abbrev pub find_in_string : FsRegex → Bytes → MatchAnswer (Option FsRegexMatch)
find_in_string regex s = find_in_range regex s 0 (length s)

-- A vector as a match: the range of the whole and the texts of the groups.
abbrev pub texts_in : Bytes → List (Option (ℕ × ℕ)) → List (Option Bytes)
texts_in s [] = []
texts_in s (range ∷ ranges) = text_in s range ∷ texts_in s ranges

-- A vector of PCRE begins with the range of the whole match.
unfoldable pub match_of : Bytes → List (Option (ℕ × ℕ)) → Option Match
match_of s (some (location, size) ∷ ranges) =
    some (record { location = location; size = size; groups = texts_in s ranges })
match_of s _ = none

-- `pcre_exec` on a string as what finds a match.
unfoldable pub exec_on : FsRegex → Bytes → ℕ → ℕ → Option Match
unfolding match_of
exec_on regex s start end = elim (regex.exec s start end) [
  | none ↦ none
  | some vector ↦ match_of s vector
]
