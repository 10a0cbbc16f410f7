-- ===== src/File/Lines.antt =====
-- Lines, as fscript-CLI/FSFile.m means to read them: a reference definition.
use fscript_extensions.Prelude.{ℕ, List, arith, Bytes, [], ◌∷◌, ◌++◌, ◌≡◌, ◌≢◌, ◌==◌, if◌then◌else◌}

unfoldable pub lines_of : ℕ → Bytes → List Bytes
lines_of c [] = []
lines_of c (x ∷ s) =
    let rest = lines_of c s in
    if x == c
    then [] ∷ rest
    else elim rest [ [] ↦ (x ∷ []) ∷ [] | line ∷ lines ↦ (x ∷ line) ∷ lines ]

abbrev pub Lacks : ℕ → Bytes → Type 0
Lacks c [] = Unit
Lacks c (x ∷ s) = (x ≢ c) × Lacks c s

pub lines_of-line :
    (c : ℕ) (line s : Bytes) → Lacks c line → lines_of c (line ++ c ∷ s) ≡ line ∷ lines_of c s
unfolding lines_of
lines_of-line c [] s h = ground arith
lines_of-line c (x ∷ line) s h = ground (arith, h.0, lines_of-line c line s h.1)

pub lines_of-last : (c x : ℕ) (s : Bytes) → Lacks c (x ∷ s) → lines_of c (x ∷ s) ≡ (x ∷ s) ∷ []
unfolding lines_of
lines_of-last c x [] h = ground (arith, h.0)
lines_of-last c x (y ∷ s) h = ground (arith, h.0, lines_of-last c y s h.1)
