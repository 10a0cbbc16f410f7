-- ===== src/Collections/Join.antt =====
-- Joining an array and splitting the text again (fscript-CLI/ArrayUtil.m, with the separation by a
-- character that fscript-CLI/FSSystemUtility.m uses).
use fscript_extensions.Prelude.{ℕ, refl, ap, List, arith, Bytes, [], ◌∷◌, ◌++◌, ◌≡◌, ◌∙◌}
use fscript_extensions.Collections.{ArrayUtil, join}
use fscript_extensions.File.Lines.{Lacks}
use fscript_extensions.SystemUtility.{components}

abbrev pub text_array : ArrayUtil (List Bytes)
text_array = record { join = join }

-- The parts lack the separator.
abbrev pub AllLack : ℕ → List Bytes → Type 0
AllLack c [] = Unit
AllLack c (s ∷ parts) = Lacks c s × AllLack c parts

components-part :
    (c : ℕ) (s rest : Bytes) → Lacks c s → components c (s ++ c ∷ rest) ≡ s ∷ components c rest
unfolding components
components-part c [] rest h = ground arith
components-part c (x ∷ s) rest h = ground (arith, h.0, components-part c s rest h.1)

components-last : (c : ℕ) (s : Bytes) → Lacks c s → components c s ≡ s ∷ []
unfolding components
components-last c [] h = refl
components-last c (x ∷ s) h = ground (arith, h.0, components-last c s h.1)

-- Directories without a colon that `join:` puts together with colons, as they stand in `PATH` and in
-- `FSCRIPT_LIB`, are separated into the same directories, if there is one at least.
pub components-join :
    (c : ℕ) (s : Bytes) (parts : List Bytes)
    → Lacks c s
    → AllLack c parts
    → components c (join (c ∷ []) (s ∷ parts)) ≡ s ∷ parts
unfolding join
components-join c s [] h k = components-last c s h
components-join c s (t ∷ parts) h k =
    components-part c s (join (c ∷ []) (t ∷ parts)) h
    ∙ ap (λ r. s ∷ r) (components-join c t parts k.0 k.1)
