-- ===== src/StringRegex.antt =====
-- The regular expressions of strings, fscript-CLI/StringRegex.m, over the methods of an `FSRegex`.
pub mod Cached
pub mod WithBlock
pub mod Interface
use fscript_extensions.Prelude.{
  ℕ, Bool, false, Option, none, some, List, map, length, ltb, Bytes, [], ◌∷◌, ◌+◌, ◌-◌,
}
use fscript_extensions.Dictionary.{Dict, object_for, set_object, string_key, pointer_key}
use fscript_extensions.Regex.Matches.{FsRegex, exec_on}
use fscript_extensions.Regex.{Match, find_all, split_string, substring}
use fscript_extensions.Trampoline.Ia32.{arguments}
use fscript_extensions.Trampoline.Ppc.Dispatch.{found}
use fscript_extensions.Regex.Replace.{
  group_count, replace_range, replace_with_string, replaced, text_or_empty,
}

-- `compiledRegexes`
abbrev pub Cache : Type 0
Cache = Dict Bytes FsRegex

-- An answer with the cache after it. `bad_pattern` is the exception for a pattern that cannot be
-- compiled, and `nil_group` the one for a group that took no part and is put into an array.
pub data Answer {ℓ} (A : Type ℓ) : Type ℓ where
  gives : A → Cache → Answer A
  bad_pattern nil_group block_error replace_error : Answer A

-- `getRegex`
unfoldable pub get_regex : (Bytes → Option FsRegex) → Bytes → Cache → Option (FsRegex × Cache)
get_regex compile pattern compiled = elim (object_for pattern compiled) [
  | some regex ↦ some (regex, compiled)
  | none ↦ elim (compile pattern) [
    | none ↦ none
    | some regex ↦ some (regex, set_object pattern regex compiled)
  ]
]

-- A method that gets the regular expression for the pattern first.
abbrev pub with_regex :
    {A : Type 0}
    → (Bytes → Option FsRegex)
    → Bytes
    → Cache
    → (FsRegex → Cache → Answer A)
    → Answer A
with_regex compile pattern cache method = elim (get_regex compile pattern cache) [
  | none ↦ bad_pattern
  | some (regex, later) ↦ method regex later
]

abbrev pub all_matches : FsRegex → Bytes → List Match
all_matches regex s = find_all (exec_on regex s) 0 (length s)

-- `split:`
unfoldable pub split : (Bytes → Option FsRegex) → Bytes → Bytes → Cache → Answer (List Bytes)
unfolding get_regex split_string exec_on
split compile s pattern cache =
    with_regex compile pattern cache
      (λ regex later. gives (split_string (exec_on regex s) s 0) later)

-- `matches:`: whether `count` of the first match, which is 0 of `nil`, is above 0.
unfoldable pub matches : (Bytes → Option FsRegex) → Bytes → Bytes → Cache → Answer Bool
unfolding get_regex exec_on
matches compile s pattern cache = with_regex compile pattern cache (λ regex later.
    gives (elim (exec_on regex s 0 (length s)) [ none ↦ false | some m ↦ ltb 0 (group_count m) ])
      later)

-- `replace:with:`
unfoldable pub replace_with :
    (Bytes → Option FsRegex) → (Bytes → List Match) → Bytes → Bytes → Bytes → Cache → Answer Bytes
unfolding get_regex replace_with_string exec_on
replace_with compile find_references s pattern rep cache =
    with_regex compile pattern cache (λ regex later.
      elim (replace_with_string (exec_on regex s) regex.string_number find_references rep s 0) [
        | replaced t ↦ gives t later
        | _ ↦ replace_error
      ])

-- The groups of a match as the arguments of a block; a group that took no part cannot be put into the
-- array.
abbrev pub all_present : List (Option Bytes) → Option (List Bytes)
all_present [] = some []
all_present (none ∷ groups) = none
all_present (some g ∷ groups) = elim (all_present groups) [ none ↦ none | some gs ↦ some (g ∷ gs) ]

unfoldable pub match_groups : Bytes → Match → Option (List Bytes)
match_groups s m = all_present (some (substring s m.location m.size) ∷ m.groups)

-- The loop over the matches, on the copy of the string that is changed. `offset` is what was put in
-- less what was taken out. The block gives the description of its value, or raises an exception.
unfoldable pub block_rounds :
    (List Bytes → Option Bytes) → Bytes → List Match → ℕ → ℕ → Bytes → Answer Bytes
unfolding match_groups
block_rounds block s [] put_in taken_out result = gives result []
block_rounds block s (m ∷ found) put_in taken_out result = elim (match_groups s m) [
  | none ↦ nil_group
  | some arguments ↦ elim (block arguments) [
    | none ↦ block_error
    | some text ↦
        block_rounds block s found (put_in + length text) (taken_out + m.size)
          (replace_range (m.location + put_in - taken_out) m.size text result)
  ]
]

-- An answer with another cache.
abbrev pub with_cache : {A : Type 0} → Cache → Answer A → Answer A
with_cache later (gives a _) = gives a later
with_cache later bad_pattern = bad_pattern
with_cache later nil_group = nil_group
with_cache later block_error = block_error
with_cache later replace_error = replace_error

-- `replace:withBlock:`
unfoldable pub replace_with_block :
    (Bytes → Option FsRegex) → (List Bytes → Option Bytes) → Bytes → Bytes → Cache → Answer Bytes
unfolding get_regex find_all exec_on block_rounds
replace_with_block compile block s pattern cache =
    with_regex compile pattern cache
      (λ regex later. with_cache later (block_rounds block s (all_matches regex s) 0 0 s))

-- `captures:`; nothing is `nil`.
unfoldable pub captures :
    (Bytes → Option FsRegex) → Bytes → Bytes → Cache → Answer (Option (List Bytes))
unfolding get_regex exec_on
captures compile s pattern cache = with_regex compile pattern cache (λ regex later.
    elim (exec_on regex s 0 (length s)) [
      | none ↦ gives none later
      | some m ↦ gives (some (substring s m.location m.size ∷ map text_or_empty m.groups)) later
    ])

-- `allCaptures:`
unfoldable pub all_captures : (Bytes → Option FsRegex) → Bytes → Bytes → Cache → Answer (List Match)
unfolding get_regex find_all exec_on
all_captures compile s pattern cache =
    with_regex compile pattern cache (λ regex later. gives (all_matches regex s) later)
