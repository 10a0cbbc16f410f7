-- ===== src/Tests/Matches.antt =====
-- Splitting at matches at concrete inputs.
use fscript_extensions.Prelude.{
  ℕ, suc, refl, Option, none, some, arith, leb, codes, [], ◌∷◌, ◌+◌, ◌-◌, ◌≡◌, ◌&&◌, if◌then◌else◌,
}
use fscript_extensions.Regex.Order.{IsOrdered, StaysInside, find_all-IsOrdered}
use fscript_extensions.Regex.{Match, all_objects, find_all, limited, split_rounds, split_string}
use fscript_extensions.Regex.Splitting.{rejoin, rejoin-split_string}
use fscript_extensions.Nestings.{start}

-- `pcre_exec` for the pattern `,` and the string `a,b`.
abbrev comma : ℕ → ℕ → Option Match
comma start end =
    if leb start 1 && leb 2 end then some (record { location = 1; size = 1; groups = [] }) else none

comma-StaysInside : StaysInside comma
comma-StaysInside start end m h e = ground (arith, e)

rejoin-split_string_example :
    rejoin (codes "a,b") (limited 0 (find_all comma 0 3)) (split_string comma (codes "a,b") 0)
    ≡ codes "a,b"
rejoin-split_string_example = rejoin-split_string comma (codes "a,b") 0 comma-StaysInside

split_at_comma : split_string comma (codes "a,b") 0 ≡ codes "a" ∷ codes "b" ∷ []
unfolding split_string find_all all_objects split_rounds
split_at_comma = refl

find_all-IsOrdered_example :
    IsOrdered 0 3 (find_all comma 0 3)
    × (all_objects (suc (3 - 0) + 5) comma 0 3 ≡ find_all comma 0 3)
find_all-IsOrdered_example = find_all-IsOrdered 5 0 3 comma comma-StaysInside (omega arith)
