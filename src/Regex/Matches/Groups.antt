-- ===== src/Regex/Matches/Groups.antt =====
-- The groups of a match object and those that replacing and splitting use (fscript-CLI/FSRegex.m).
use fscript_extensions.Prelude.{
  ℕ, zero, suc, refl, Option, none, some, List, arith, get_elem?, Bytes, [], ◌∷◌, ◌≡◌,
}
use fscript_extensions.Regex.Matches.{
  FsRegex, MatchAnswer, answered, index_out_of_bounds, match_group, match_of, no_group_named,
  range_at_index, range_out_of_bounds, text_in, texts_in,
}
use fscript_extensions.Regex.{Match}
use fscript_extensions.Regex.Replace.{
  Replaced, failed_assertion, group_at_index, group_out_of_range, no_such_backreference, replaced,
}

-- An answer as replacing sees it.
abbrev pub as_replaced : {A : Type 0} → MatchAnswer A → Replaced A
as_replaced (answered a) = replaced a
as_replaced index_out_of_bounds = group_out_of_range
as_replaced no_group_named = no_such_backreference
as_replaced range_out_of_bounds = failed_assertion

get_elem?-texts_in :
    (s : Bytes) (ranges : List (Option (ℕ × ℕ))) (i : ℕ)
    → get_elem? (texts_in s ranges) i
      ≡ (elim (get_elem? ranges i) [ none ↦ none | some range ↦ some (text_in s range) ])
get_elem?-texts_in s [] i = refl
get_elem?-texts_in s (range ∷ ranges) zero = refl
get_elem?-texts_in s (range ∷ ranges) (suc i) = get_elem?-texts_in s ranges i

-- In the match that a vector gives, `groupAtIndex:` answers for every index what replacing and splitting
-- take for that group, also where there is no such index.
pub match_group-group_at_index :
    (regex : FsRegex) (s : Bytes) (location size idx : ℕ) (ranges : List (Option (ℕ × ℕ)))
    (m : Match)
    → match_of s (some (location, size) ∷ ranges) ≡ some m
    → as_replaced (
        match_group
          (record { regex = regex; string = s; vector = some (location, size) ∷ ranges })
          idx)
      ≡ group_at_index s m idx
unfolding match_of match_group range_at_index group_at_index
match_group-group_at_index regex s location size zero ranges m e = ground (arith, e)
match_group-group_at_index regex s location size (suc i) ranges m e =
    let same : m.groups ≡ texts_in s ranges = ground (arith, e) in
    ground (arith, same, get_elem?-texts_in s ranges i)
