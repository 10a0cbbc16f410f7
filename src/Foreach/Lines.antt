-- ===== src/Foreach/Lines.antt =====
-- Reading line by line with `foreach:` and reading all lines first (fscript-CLI/BlockForeach.m and
-- fscript-CLI/FSFile.m).
use fscript_extensions.Prelude.{
  ℕ, zero, suc, refl, sym, ap, Option, none, some, List, arith, inl, inr, Bytes, Option-cases,
  append-nil, append_assoc, [], ◌∷◌, ◌++◌, ◌≡◌, ◌∙◌, ◌⊎◌,
}
use fscript_extensions.Foreach.{ForeachBlock, foreach}
use fscript_extensions.File.Object.{answer, collect_lines}
use fscript_extensions.Stdin.{readln}

-- `[ file readln ]`, beside what else the blocks can reach.
abbrev pub reading_block :
    {F T : Type 0} → (F → Option (Option Bytes × F)) → ForeachBlock (F × T) Bytes
reading_block readln = record {
  value = λ s. elim (readln s.0) [ none ↦ none | some (line, f) ↦ some (line, (f, s.1)) ];
}

-- A block that does not touch the file.
abbrev pub beside : {F T : Type 0} → (Bytes → T → Option T) → Bytes → F × T → Option (F × T)
beside work line s = elim (work line s.1) [ none ↦ none | some t ↦ some (s.0, t) ]

-- The block for every line of an array.
unfoldable pub for_all_lines : {T : Type 0} → (Bytes → T → Option T) → List Bytes → T → Option T
for_all_lines work [] t = some t
for_all_lines work (line ∷ lines) t = elim (work line t) [
  | none ↦ none
  | some u ↦ for_all_lines work lines u
]

for_all_lines-append :
    {T : Type 0} (work : Bytes → T → Option T) (before after : List Bytes) (t u : T)
    → for_all_lines work before t ≡ some u
    → for_all_lines work (before ++ after) t ≡ for_all_lines work after u
unfolding for_all_lines
for_all_lines-append work [] after t u e = ground (arith, e)
for_all_lines-append work (line ∷ before) after t u e = elim (Option-cases (work line t)) [
  | inl n ↦ ground (arith, n, e)
  | inr (v, s) ↦ ground (arith, s, e, for_all_lines-append work before after v u)
]

for_all_lines-works :
    {T : Type 0} (work : Bytes → T → Option T) (line : Bytes) (more : List Bytes) (t u : T)
    → work line t ≡ some u
    → for_all_lines work (line ∷ more) t ≡ for_all_lines work more u
unfolding for_all_lines
for_all_lines-works work line more t u e = ground (arith, e)

for_all_lines-raises :
    {T : Type 0} (work : Bytes → T → Option T) (line : Bytes) (more : List Bytes) (t : T)
    → work line t ≡ none
    → for_all_lines work (line ∷ more) t ≡ none
unfolding for_all_lines
for_all_lines-raises work line more t e = ground (arith, e)

-- One round of `readlines`, by what the file answers.
collect-cases :
    {F : Type 0} (fuel : ℕ) (readln : F → Option (Option Bytes × F)) (before lines : List Bytes)
    (f g : F)
    → collect_lines (suc fuel) readln before f ≡ some (lines, g)
    → ((readln f ≡ some (none, g)) × (lines ≡ before))
      ⊎ ((line : Bytes) × (h : F) × (readln f ≡ some (some line, h))
          × (collect_lines fuel readln (before ++ line ∷ []) h ≡ some (lines, g)))
unfolding collect_lines
collect-cases fuel readln before lines f g e = elim (Option-cases (readln f)) [
  | inl n ↦ ground (arith, n, e)
  | inr ((none, h), r) ↦ inl (ground (arith, r, e), ground (arith, r, e))
  | inr ((some line, h), r) ↦ inr (line, h, r, ground (arith, r, e))
]

collect-extends :
    {F : Type 0} (fuel : ℕ) (readln : F → Option (Option Bytes × F)) (before lines : List Bytes)
    (f g : F)
    → collect_lines fuel readln before f ≡ some (lines, g)
    → (more : List Bytes) × (lines ≡ before ++ more)
collect-extends zero readln before lines f g e = unfold collect_lines in ground (arith, e)
collect-extends (suc fuel) readln before lines f g e =
    elim (collect-cases fuel readln before lines f g e) [
      | inl (_, same) ↦ ([], same ∙ sym (append-nil before))
      | inr (line, h, _, rest) ↦
          let (more, longer) = collect-extends fuel readln (before ++ line ∷ []) lines h g rest in
          (line ∷ more, longer ∙ append_assoc before (line ∷ []) more)
    ]

-- The result for a file that has been read out to `g`.
abbrev pub with_file : {F T : Type 0} → F → Option T → Option (F × T)
with_file g none = none
with_file g (some t) = some (g, t)

foreach-end :
    {F T : Type 0} (fuel : ℕ) (readln : F → Option (Option Bytes × F)) (work : Bytes → T → Option T)
    (f g : F) (t : T)
    → readln f ≡ some (none, g)
    → foreach (suc fuel) (reading_block readln) (beside work) (f, t) ≡ some (g, t)
unfolding foreach
foreach-end fuel readln work f g t e = ground (arith, e)

foreach-raised :
    {F T : Type 0} (fuel : ℕ) (readln : F → Option (Option Bytes × F)) (work : Bytes → T → Option T)
    (f g : F) (t : T) (line : Bytes)
    → readln f ≡ some (some line, g)
    → work line t ≡ none
    → foreach (suc fuel) (reading_block readln) (beside work) (f, t) ≡ none
unfolding foreach
foreach-raised fuel readln work f g t line e w = ground (arith, e, w)

foreach-line :
    {F T : Type 0} (fuel : ℕ) (readln : F → Option (Option Bytes × F)) (work : Bytes → T → Option T)
    (f g : F) (t u : T) (line : Bytes)
    → readln f ≡ some (some line, g)
    → work line t ≡ some u
    → foreach (suc fuel) (reading_block readln) (beside work) (f, t)
      ≡ foreach fuel (reading_block readln) (beside work) (g, u)
unfolding foreach
foreach-line fuel readln work f g t u line e w = ground (arith, e, w)

foreach-collect :
    {F T : Type 0} (fuel : ℕ) (readln : F → Option (Option Bytes × F)) (work : Bytes → T → Option T)
    (before lines : List Bytes) (f g : F) (initial now : T)
    → for_all_lines work before initial ≡ some now
    → collect_lines fuel readln before f ≡ some (lines, g)
    → foreach fuel (reading_block readln) (beside work) (f, now)
      ≡ with_file g (for_all_lines work lines initial)
unfolding for_all_lines
foreach-collect zero readln work before lines f g initial now done_before e =
    unfold collect_lines in ground (arith, e)
foreach-collect (suc fuel) readln work before lines f g initial now done_before e =
    elim (collect-cases fuel readln before lines f g e) [
      | inl (at_end, same) ↦
          foreach-end fuel readln work f g now at_end
          ∙ ap (with_file g) (sym (ap (λ ls. for_all_lines work ls initial) same ∙ done_before))
      | inr (line, h, answer, rest) ↦ elim (Option-cases (work line now)) [
        | inl raises ↦
            let (more, longer) = collect-extends fuel readln (before ++ line ∷ []) lines h g rest in
            foreach-raised fuel readln work f h now line answer raises
            ∙ ap (with_file g) (
                sym (
                  ap (λ ls. for_all_lines work ls initial)
                    (longer ∙ append_assoc before (line ∷ []) more)
                  ∙ for_all_lines-append work before (line ∷ more) initial now done_before
                  ∙ for_all_lines-raises work line more now raises))
        | inr (u, works) ↦
            foreach-line fuel readln work f h now u line answer works
            ∙ foreach-collect fuel readln work (before ++ line ∷ []) lines h g initial u
                (for_all_lines-append work before (line ∷ []) initial now done_before
                  ∙ for_all_lines-works work line [] now u works)
                rest
      ]
    ]

-- Running a block on each line that `[ file readln ] foreach:` hands out comes to the same as running
-- it on the lines that `readlines` returns, if the block does not touch the file: it ends in the same
-- state, or raises its exception, and the file stands where `readlines` leaves it.
pub foreach-readlines :
    {F T : Type 0} (fuel : ℕ) (readln : F → Option (Option Bytes × F)) (work : Bytes → T → Option T)
    (lines : List Bytes) (f g : F) (t : T)
    → collect_lines fuel readln [] f ≡ some (lines, g)
    → foreach fuel (reading_block readln) (beside work) (f, t)
      ≡ with_file g (for_all_lines work lines t)
foreach-readlines fuel readln work lines f g t e =
    foreach-collect fuel readln work [] lines f g t t (unfold for_all_lines in refl) e
