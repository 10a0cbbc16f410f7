-- ===== src/Regex/Order.antt =====
-- The order of all matches (fscript-CLI/FSRegex.m).
use fscript_extensions.Prelude.{
  ℕ, zero, suc, sym, ap, true, false, Option, none, some, List, arith, inl, inr, ltb, Bool-cases,
  Option-cases, [], ◌∷◌, ◌+◌, ◌-◌, ◌≤◌, ◌<◌, ◌≡◌, ◌∙◌,
}
use fscript_extensions.Regex.{Match, all_objects, behind_match, find_all, next_location}

-- What PCRE documents of `pcre_exec`: a match begins at the start or behind it and ends at the end or
-- before it.
abbrev pub StaysInside : (ℕ → ℕ → Option Match) → Type 0
StaysInside exec =
    (start end : ℕ) (m : Match)
    → start ≤ end
    → exec start end ≡ some m
    → (start ≤ m.location) × (behind_match m ≤ end)

-- The matches stand one behind the other, from `from` to `end`.
abbrev pub IsOrdered : ℕ → ℕ → List Match → Type 0
IsOrdered from end [] = from ≤ end
IsOrdered from end (m ∷ matches) = (from ≤ m.location) × IsOrdered (behind_match m) end matches

IsOrdered-weaken :
    (from later end : ℕ) (matches : List Match)
    → from ≤ later
    → IsOrdered later end matches
    → IsOrdered from end matches
IsOrdered-weaken from later end [] h k = omega arith
IsOrdered-weaken from later end (m ∷ matches) h k = (omega (arith, k.0), k.1)

next-behind : (m : Match) → (behind_match m ≤ next_location m) × (m.location < next_location m)
next-behind m = (ground arith, ground arith)

no-more :
    (fuel location end : ℕ) (exec : ℕ → ℕ → Option Match)
    → exec location end ≡ none
    → all_objects (suc fuel) exec location end ≡ []
unfolding all_objects
no-more fuel location end exec e = ground (arith, e)

past-end :
    (fuel location end : ℕ) (exec : ℕ → ℕ → Option Match) (m : Match)
    → exec location end ≡ some m
    → ltb end (next_location m) ≡ true
    → all_objects (suc fuel) exec location end ≡ []
unfolding all_objects
past-end fuel location end exec m e b = ground (arith, e, b)

one-more :
    (fuel location end : ℕ) (exec : ℕ → ℕ → Option Match) (m : Match)
    → exec location end ≡ some m
    → ltb end (next_location m) ≡ false
    → all_objects (suc fuel) exec location end ≡ m ∷ all_objects fuel exec (next_location m) end
unfolding all_objects
one-more fuel location end exec m e b = ground (arith, e, b)

-- With fuel for every place that is left, the matches are ordered.
pub all_objects-IsOrdered :
    (fuel location end : ℕ) (exec : ℕ → ℕ → Option Match)
    → StaysInside exec
    → location ≤ end
    → IsOrdered location end (all_objects fuel exec location end)
all_objects-IsOrdered zero location end exec law h = unfold all_objects in h
all_objects-IsOrdered (suc fuel) location end exec law h = elim (Option-cases (exec location end)) [
  | inl e ↦ rw (no-more fuel location end exec e) h
  | inr (m, e) ↦ elim (Bool-cases (ltb end (next_location m))) [
    | inl b ↦ rw (past-end fuel location end exec m e b) h
    | inr b ↦
        let (begins, ends) = law location end m h e in
        let inside : next_location m ≤ end = ground (arith, b) in
        rw (one-more fuel location end exec m e b) (
          begins,
          IsOrdered-weaken (behind_match m) (next_location m) end _ (next-behind m).0
              (all_objects-IsOrdered fuel (next_location m) end exec law inside),
        )
  ]
]

-- More fuel finds no other ones.
all_objects-enough :
    (fuel more location end : ℕ) (exec : ℕ → ℕ → Option Match)
    → StaysInside exec
    → location ≤ end
    → end - location < fuel
    → all_objects (fuel + more) exec location end ≡ all_objects fuel exec location end
all_objects-enough zero more location end exec law h f = absurd (omega arith)
all_objects-enough (suc fuel) more location end exec law h f =
    let count : suc fuel + more ≡ suc (fuel + more) = omega arith in
    ap (λ n. all_objects n exec location end) count ∙ elim (Option-cases (exec location end)) [
      | inl e ↦ no-more (fuel + more) location end exec e ∙ sym (no-more fuel location end exec e)
      | inr (m, e) ↦ elim (Bool-cases (ltb end (next_location m))) [
        | inl b ↦
            past-end (fuel + more) location end exec m e b
            ∙ sym (past-end fuel location end exec m e b)
        | inr b ↦
            let (begins, ends) = law location end m h e in
            let inside : next_location m ≤ end = ground (arith, b) in
            let fewer : end - next_location m < fuel = omega (arith, (next-behind m).1, begins) in
            one-more (fuel + more) location end exec m e b
            ∙ ap (λ ms. m ∷ ms)
                (all_objects-enough fuel more (next_location m) end exec law inside fewer)
            ∙ sym (one-more fuel location end exec m e b)
      ]
    ]

-- If a match stays inside the range that is searched, all matches stand one behind the other without
-- overlapping, inside the range; and the enumeration ends by itself, as no more rounds find another one.
pub find_all-IsOrdered :
    (more location end : ℕ) (exec : ℕ → ℕ → Option Match)
    → StaysInside exec
    → location ≤ end
    → IsOrdered location end (find_all exec location end)
      × (all_objects (suc (end - location) + more) exec location end ≡ find_all exec location end)
unfolding find_all
find_all-IsOrdered more location end exec law h = (
  all_objects-IsOrdered (suc (end - location)) location end exec law h,
  all_objects-enough (suc (end - location)) more location end exec law h (omega arith),
)
