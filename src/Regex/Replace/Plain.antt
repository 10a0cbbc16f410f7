-- ===== src/Regex/Replace/Plain.antt =====
-- Replacing by a text without references, and splitting (fscript-CLI/FSRegex.m).
use fscript_extensions.Prelude.{
  ℕ, zero, suc, refl, sym, ap, Option, List, arith, length, take, Bytes, [], ◌∷◌, ◌++◌, ◌-◌, ◌≡◌,
  ◌∙◌,
}
use fscript_extensions.Regex.{
  Match, behind_match, find_all, limited, present, split_rounds, split_string, substring,
}
use fscript_extensions.Regex.Replace.{
  Replaced, apply_modifiers, build_tokens, replace_rounds, replace_with_string, replaced,
  replacement,
}
use fscript_extensions.SystemUtility.Commands.{exec}
use fscript_extensions.Collections.{join}
use fscript_extensions.File.Object.Written.{take-length}

-- Matches without groups that took part.
abbrev pub NoGroups : List Match → Type 0
NoGroups [] = Unit
NoGroups (m ∷ matches) = (present m.groups ≡ []) × NoGroups matches

NoGroups-take : (n : ℕ) (matches : List Match) → NoGroups matches → NoGroups (take n matches)
NoGroups-take zero matches h = tt
NoGroups-take (suc n) [] h = tt
NoGroups-take (suc n) (m ∷ matches) h = (h.0, NoGroups-take n matches h.1)

NoGroups-limited :
    (limit : ℕ) (matches : List Match) → NoGroups matches → NoGroups (limited limit matches)
NoGroups-limited zero matches h = h
NoGroups-limited (suc n) matches h = NoGroups-take (suc n) matches h

take-whole : (s : Bytes) → substring s 0 (length s - 0) ≡ s
take-whole s = ap (λ n. take n s) {x = length s - 0} {y = length s} (omega arith) ∙ take-length s

plain-replacement :
    (string_number : Bytes → Option ℕ) (s rep : Bytes) (m : Match)
    → replacement string_number s rep [] m ≡ replaced rep
unfolding replacement build_tokens apply_modifiers
plain-replacement string_number s rep m = ap (λ t. replaced t) (take-whole rep)

split_rounds-some :
    (s : Bytes) (remain : ℕ) (matches : List Match)
    → (first : Bytes) × (others : List Bytes) × (split_rounds s remain matches ≡ first ∷ others)
unfolding split_rounds
split_rounds-some s remain [] = (substring s remain (length s - remain), [], refl)
split_rounds-some s remain (m ∷ matches) = (
  substring s remain (m.location - remain),
  present m.groups ++ split_rounds s (behind_match m) matches,
  refl,
)

join-split_rounds :
    (rep s : Bytes) (remain : ℕ) (m : Match) (matches : List Match)
    → present m.groups ≡ []
    → join rep (split_rounds s remain (m ∷ matches))
      ≡ substring s remain (m.location - remain)
        ++ (rep ++ join rep (split_rounds s (behind_match m) matches))
unfolding join split_rounds
join-split_rounds rep s remain m matches e =
    let p = substring s remain (m.location - remain) in
    let (first, others, shape) = split_rounds-some s (behind_match m) matches in
    ap (λ gs. join rep (p ∷ (gs ++ split_rounds s (behind_match m) matches))) e
    ∙ ap (λ ps. join rep (p ∷ ps)) shape
    ∙ ap (λ ps. p ++ (rep ++ join rep ps)) (sym shape)

pub replace_rounds-step :
    (by : Match → Replaced Bytes) (s text rest : Bytes) (remain : ℕ) (m : Match)
    (matches : List Match)
    → by m ≡ replaced text
    → replace_rounds by s (behind_match m) matches ≡ replaced rest
    → replace_rounds by s remain (m ∷ matches)
      ≡ replaced (substring s remain (m.location - remain) ++ (text ++ rest))
unfolding replace_rounds
replace_rounds-step by s text rest remain m matches e f = ground (arith, e, f)

rounds-join :
    (rep s : Bytes) (by : Match → Replaced Bytes) (remain : ℕ) (matches : List Match)
    → ((m : Match) → by m ≡ replaced rep)
    → NoGroups matches
    → replace_rounds by s remain matches ≡ replaced (join rep (split_rounds s remain matches))
rounds-join rep s by remain [] e h = unfold replace_rounds split_rounds join in refl
rounds-join rep s by remain (m ∷ matches) e h =
    replace_rounds-step by s rep (join rep (split_rounds s (behind_match m) matches)) remain m
      matches (e m) (rounds-join rep s by (behind_match m) matches e h.1)
    ∙ ap (λ t. replaced t) (sym (join-split_rounds rep s remain m matches h.0))

-- Replacing matches by a text that holds no references, case modifiers or escapes gives the pieces of
-- `splitString:limit:` joined by that text, for every limit, if no match has groups that took part.
pub replace_with_string-join :
    (exec : ℕ → ℕ → Option Match) (string_number : Bytes → Option ℕ)
    (find_references : Bytes → List Match) (rep s : Bytes) (limit : ℕ)
    → find_references rep ≡ []
    → NoGroups (find_all exec 0 (length s))
    → replace_with_string exec string_number find_references rep s limit
      ≡ replaced (join rep (split_string exec s limit))
unfolding replace_with_string split_string
replace_with_string-join exec string_number find_references rep s limit none_found h =
    let matches = limited limit (find_all exec 0 (length s)) in
    rounds-join rep s (replacement string_number s rep (find_references rep)) 0 matches
      (λ m.
        ap (λ rs. replacement string_number s rep rs m) none_found
        ∙ plain-replacement string_number s rep m)
      (NoGroups-limited limit (find_all exec 0 (length s)) h)
