-- ===== src/Regex/Matches/Options.antt =====
-- The options of a pattern (fscript-CLI/FSRegex.m).
use fscript_extensions.Prelude.{ℕ, Bool, not, arith, ◌+◌, ◌/◌, ◌%◌, ◌≡◌, ◌==◌, if◌then◌else◌}
use fscript_extensions.Regex.Matches.{
  RegexOption, case_insensitive, compile_options, dot_all, extended, has_option, lazy, multiline,
  pcre_option,
}

-- Whether an option of PCRE is in a combination.
abbrev pub has_pcre_option : ℕ → RegexOption → Bool
has_pcre_option copts option = not (copts / pcre_option option % 2 == 0)

abbrev bit_of : Bool → ℕ → ℕ
bit_of b n = if b then n else 0

abbrev combined : Bool → Bool → Bool → Bool → Bool → ℕ
combined i s x l m = bit_of i 1 + bit_of s 4 + bit_of x 8 + bit_of l 512 + bit_of m 2

abbrev chosen : Bool → Bool → Bool → Bool → Bool → RegexOption → Bool
chosen i s x l m case_insensitive = i
chosen i s x l m dot_all = s
chosen i s x l m extended = x
chosen i s x l m lazy = l
chosen i s x l m multiline = m

combined-chosen :
    (i s x l m : Bool) (option : RegexOption)
    → has_pcre_option (combined i s x l m) option ≡ chosen i s x l m option
combined-chosen i s x l m case_insensitive = ground arith
combined-chosen i s x l m dot_all = ground arith
combined-chosen i s x l m extended = ground arith
combined-chosen i s x l m lazy = ground arith
combined-chosen i s x l m multiline = ground arith

-- Each of the five options is passed on to PCRE as its own, exactly when it is among those given.
pub compile_options-has_option :
    (opts : ℕ) (option : RegexOption)
    → has_pcre_option (compile_options opts) option ≡ has_option opts option
unfolding compile_options
compile_options-has_option opts case_insensitive =
    combined-chosen (has_option opts case_insensitive) (has_option opts dot_all)
      (has_option opts extended) (has_option opts lazy) (has_option opts multiline) case_insensitive
compile_options-has_option opts dot_all =
    combined-chosen (has_option opts case_insensitive) (has_option opts dot_all)
      (has_option opts extended) (has_option opts lazy) (has_option opts multiline) dot_all
compile_options-has_option opts extended =
    combined-chosen (has_option opts case_insensitive) (has_option opts dot_all)
      (has_option opts extended) (has_option opts lazy) (has_option opts multiline) extended
compile_options-has_option opts lazy =
    combined-chosen (has_option opts case_insensitive) (has_option opts dot_all)
      (has_option opts extended) (has_option opts lazy) (has_option opts multiline) lazy
compile_options-has_option opts multiline =
    combined-chosen (has_option opts case_insensitive) (has_option opts dot_all)
      (has_option opts extended) (has_option opts lazy) (has_option opts multiline) multiline
