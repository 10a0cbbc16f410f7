-- ===== src/Regex/Splitting.antt =====
-- Splitting a string at the matches (fscript-CLI/FSRegex.m).
use fscript_extensions.Prelude.{
  ℕ, zero, suc, refl, sym, ap, Option, List, arith, length, take, drop, Bytes, take-append-drop,
  length-drop, [], ◌∷◌, ◌++◌, ◌+◌, ◌-◌, ◌≤◌, ◌≡◌, ◌∙◌,
}
use fscript_extensions.Regex.Order.{IsOrdered, StaysInside, find_all-IsOrdered}
use fscript_extensions.Regex.{
  Match, behind_match, find_all, limited, present, split_rounds, split_string, substring,
}
use fscript_extensions.SystemUtility.Commands.{exec}

-- The pieces put together again with the matches between them, without the groups.
abbrev pub rejoin : Bytes → List Match → List Bytes → Bytes
rejoin s [] [] = []
rejoin s [] (p ∷ pieces) = p
rejoin s (m ∷ matches) [] = []
rejoin s (m ∷ matches) (p ∷ pieces) =
    p
    ++ (substring s m.location m.size ++ rejoin s matches (drop (length (present m.groups)) pieces))

drop-nil : (n : ℕ) → drop {A = ℕ} n [] ≡ []
drop-nil zero = refl
drop-nil (suc n) = refl

drop-drop : (a b : ℕ) (s : Bytes) → drop a (drop b s) ≡ drop (b + a) s
drop-drop a zero s = ap (λ n. drop n s) (omega arith)
drop-drop zero (suc b) [] = sym (drop-nil (suc b + 0))
drop-drop (suc a) (suc b) [] = sym (drop-nil (suc b + suc a))
drop-drop a (suc b) (x ∷ s) =
    let count : suc (b + a) ≡ suc b + a = omega arith in
    drop-drop a b s ∙ ap (λ n. drop n (x ∷ s)) count

drop-append : (xs ys : List Bytes) → drop (length xs) (xs ++ ys) ≡ ys
drop-append [] ys = refl
drop-append (x ∷ xs) ys = drop-append xs ys

take-long : (n : ℕ) (s : Bytes) → length s ≤ n → take n s ≡ s
take-long zero [] h = refl
take-long zero (x ∷ s) h = absurd (omega arith)
take-long (suc n) [] h = refl
take-long (suc n) (x ∷ s) h = ap (λ r. x ∷ r) (take-long n s (omega arith))

-- From a place on, the text up to a later place, and the text from there on.
pub cut : (r l : ℕ) (s : Bytes) → r ≤ l → substring s r (l - r) ++ drop l s ≡ drop r s
cut r l s h =
    let there : r + (l - r) ≡ l = omega arith in
    ap (λ n. substring s r (l - r) ++ drop n s) (sym there)
    ∙ ap (λ t. substring s r (l - r) ++ t) (sym (drop-drop (l - r) r s))
    ∙ take-append-drop (l - r) (drop r s)

pub rest-whole : (r : ℕ) (s : Bytes) → substring s r (length s - r) ≡ drop r s
rest-whole r s = take-long (length s - r) (drop r s) (omega (arith, length-drop r s))

rejoin-rounds :
    (s : Bytes) (from : ℕ) (matches : List Match)
    → IsOrdered from (length s) matches
    → rejoin s matches (split_rounds s from matches) ≡ drop from s
unfolding split_rounds
rejoin-rounds s from [] h = rest-whole from s
rejoin-rounds s from (m ∷ matches) h =
    let later = split_rounds s (behind_match m) matches in
    let whole = substring s m.location m.size in
    let size : behind_match m - m.location ≡ m.size = omega arith in
    ap (λ ps. substring s from (m.location - from) ++ (whole ++ rejoin s matches ps))
      (drop-append (present m.groups) later)
    ∙ ap (λ t. substring s from (m.location - from) ++ (whole ++ t))
        (rejoin-rounds s (behind_match m) matches h.1)
    ∙ ap
        (λ n.
          substring s from (m.location - from)
          ++ (substring s m.location n ++ drop (behind_match m) s))
        (sym size)
    ∙ ap (λ t. substring s from (m.location - from) ++ t)
        (cut m.location (behind_match m) s (omega arith))
    ∙ cut from m.location s h.0

pub IsOrdered-le : (from end : ℕ) (matches : List Match) → IsOrdered from end matches → from ≤ end
IsOrdered-le from end [] h = h
IsOrdered-le from end (m ∷ matches) h =
    omega (arith, h.0, IsOrdered-le (behind_match m) end matches h.1)

IsOrdered-take :
    (n from end : ℕ) (matches : List Match)
    → IsOrdered from end matches
    → IsOrdered from end (take n matches)
IsOrdered-take zero from end matches h = IsOrdered-le from end matches h
IsOrdered-take (suc n) from end [] h = h
IsOrdered-take (suc n) from end (m ∷ matches) h =
    (h.0, IsOrdered-take n (behind_match m) end matches h.1)

pub limited-IsOrdered :
    (limit from end : ℕ) (matches : List Match)
    → IsOrdered from end matches
    → IsOrdered from end (limited limit matches)
limited-IsOrdered zero from end matches h = h
limited-IsOrdered (suc n) from end matches h = IsOrdered-take (suc n) from end matches h

-- Splitting loses nothing: the pieces, put together with the matches between them, are the string, for
-- every limit and whatever groups are added, if a match stays inside the range that is searched.
pub rejoin-split_string :
    (exec : ℕ → ℕ → Option Match) (s : Bytes) (limit : ℕ)
    → StaysInside exec
    → rejoin s (limited limit (find_all exec 0 (length s))) (split_string exec s limit) ≡ s
unfolding split_string
rejoin-split_string exec s limit law =
    let (ordered, _) = find_all-IsOrdered 0 0 (length s) exec law (omega arith) in
    rejoin-rounds s 0 (limited limit (find_all exec 0 (length s)))
      (limited-IsOrdered limit 0 (length s) (find_all exec 0 (length s)) ordered)
