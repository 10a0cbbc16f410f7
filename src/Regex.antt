-- ===== src/Regex.antt =====
-- Finding all matches and splitting strings: fscript-CLI/FSRegex.m. `exec` is `pcre_exec` for a pattern
-- and a string, from a start to an end; a match is the vector that it fills.
pub mod Order
pub mod Splitting
pub mod Replace
pub mod Matches
pub mod Interface
use fscript_extensions.Prelude.{
  ℕ, zero, suc, Option, none, some, List, length, take, drop, ltb, Bytes, [], ◌∷◌, ◌++◌, ◌+◌, ◌-◌,
  ◌==◌, if◌then◌else◌,
}

-- The range of a match and its groups from the first on, nothing for one that took no part.
pub record Match : Type 0 where
  pub location : ℕ
  pub size : ℕ
  pub groups : List (Option Bytes)

abbrev pub behind_match : Match → ℕ
behind_match m = m.location + m.size

-- `range.location` after `nextObject`: one further for an empty match.
abbrev pub next_location : Match → ℕ
next_location m = if m.size == 0 then suc (behind_match m) else behind_match m

-- `nextObject` and `allObjects` of the enumerator, with the range from `location` to `end`. An empty
-- match at the end ends the enumeration.
unfoldable pub all_objects : ℕ → (ℕ → ℕ → Option Match) → ℕ → ℕ → List Match
all_objects zero exec location end = []
all_objects (suc fuel) exec location end = elim (exec location end) [
  | none ↦ []
  | some m ↦
      let rest = all_objects fuel exec (next_location m) end in
      if ltb end (next_location m) then [] else m ∷ rest
]

-- `findAllInString:range:`. Every match but the last moves the location on.
unfoldable pub find_all : (ℕ → ℕ → Option Match) → ℕ → ℕ → List Match
unfolding all_objects
find_all exec location end = all_objects (suc (end - location)) exec location end

abbrev pub substring : Bytes → ℕ → ℕ → Bytes
substring s location size = take size (drop location s)

-- The groups that are not `nil`.
abbrev pub present : List (Option Bytes) → List Bytes
present [] = []
present (none ∷ groups) = present groups
present (some g ∷ groups) = g ∷ present groups

-- The loop of `splitString:limit:` over the matches that the limit leaves, and what follows it.
unfoldable pub split_rounds : Bytes → ℕ → List Match → List Bytes
split_rounds s remain [] = substring s remain (length s - remain) ∷ []
split_rounds s remain (m ∷ matches) =
    substring s remain (m.location - remain)
    ∷ (present m.groups ++ split_rounds s (behind_match m) matches)

-- The matches that the loop takes; the limit 0 stands for any below 1.
abbrev pub limited : ℕ → List Match → List Match
limited zero matches = matches
limited (suc n) matches = take (suc n) matches

-- `splitString:limit:`
unfoldable pub split_string : (ℕ → ℕ → Option Match) → Bytes → ℕ → List Bytes
unfolding find_all split_rounds
split_string exec s limit = split_rounds s 0 (limited limit (find_all exec 0 (length s)))
