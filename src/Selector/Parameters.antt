-- ===== src/Selector/Parameters.antt =====
-- The number of parameters of a selector and the type signature of its method
-- (`getSelectorParameterCount` and `createMethodSignature` of FSClass/Functions.m).
use fscript_extensions.Prelude.{
  ◌∙◌, sym, append-nil, ℕ, zero, suc, ◌≡◌, ◌≢◌, refl, arith, true, some, List, [], ◌∷◌, ◌++◌, Bytes,
  length, replicate, ltb, not, ap,
}
use fscript_extensions.Selector.{
  is_start, count_colons, get_selector_parameter_count, create_method_signature,
}
use fscript_extensions.Selector.Grammar.{
  All, AllWord, IsIdentifier, is_word-ne, is_start-ne-colon, spell, spell_cons,
}

count_ne : (c : ℕ) (s : Bytes) → c ≢ b':' → count_colons (c ∷ s) ≡ count_colons s
unfolding count_colons
count_ne c s h = ground arith

count_nil : count_colons [] ≡ 0
unfolding count_colons
count_nil = refl

count_colon : (s : Bytes) → count_colons (b':' ∷ s) ≡ suc (count_colons s)
unfolding count_colons
count_colon s = refl

count_colons-word : (w s : Bytes) → AllWord w → count_colons (w ++ s) ≡ count_colons s
count_colons-word [] s a = refl
count_colons-word (c ∷ w) s a = count_ne c (w ++ s) (is_word-ne c a.0).1 ∙ count_colons-word w s a.1

count_colons-spell : (ws : List Bytes) → All IsIdentifier ws → count_colons (spell ws) ≡ length ws
count_colons-spell [] h = unfold count_colons spell in refl
count_colons-spell ([] ∷ ws) h = absurd h.0
count_colons-spell ((d ∷ v) ∷ ws) ((start, a), h) =
    rw
      (
        spell_cons d v ws,
        count_ne d _ (is_start-ne-colon d start),
        count_colons-word v _ a,
        count_colon,
      )
      (ap suc (count_colons-spell ws h))

parameters_behind_start :
    (d : ℕ) (s : Bytes)
    → is_start d ≡ true
    → get_selector_parameter_count (d ∷ s) ≡ count_colons (d ∷ s)
unfolding get_selector_parameter_count
parameters_behind_start d s h = sym (count_ne d s (is_start-ne-colon d h))

parameters-word : (w : Bytes) → IsIdentifier w → get_selector_parameter_count w ≡ 0
parameters-word [] h = absurd h
parameters-word (c ∷ w) (start, a) =
    rw (parameters_behind_start c w start, count_ne c w (is_start-ne-colon c start))
      (rw append-nil at (count_colons-word w [] a ∙ count_nil))

parameters-spell :
    (ws : List Bytes) → All IsIdentifier ws → get_selector_parameter_count (spell ws) ≡ length ws
parameters-spell [] h = unfold get_selector_parameter_count spell in refl
parameters-spell ([] ∷ ws) h = absurd h.0
parameters-spell ((d ∷ v) ∷ ws) h =
    rw (spell_cons d v ws, parameters_behind_start d _ h.0.0)
      (rw (spell_cons d v ws) at (count_colons-spell ((d ∷ v) ∷ ws) h))

-- `getSelectorParameterCount` finds no parameter in a unary selector, and in a keyword selector as
-- many as it has parts.
pub parameter_count :
    (w : Bytes) (ws : List Bytes)
    → IsIdentifier w
    → All IsIdentifier ws
    → (get_selector_parameter_count w ≡ 0) × (get_selector_parameter_count (spell ws) ≡ length ws)
parameter_count w ws h k = (parameters-word w h, parameters-spell ws k)

-- For every number of arguments the signature is that of a method which takes and returns objects:
-- `@` for the result, `@` for the receiver, `:` for the selector, and an `@` for each argument. It
-- has to be freed exactly if it was not taken from the table.
pub signature_shape :
    (n : ℕ)
    → create_method_signature n ≡ some (b'@' ∷ b'@' ∷ b':' ∷ replicate n b'@', not (ltb n 6))
unfolding create_method_signature
signature_shape zero = refl
signature_shape (suc zero) = refl
signature_shape (suc (suc zero)) = refl
signature_shape (suc (suc (suc zero))) = refl
signature_shape (suc (suc (suc (suc zero)))) = refl
signature_shape (suc (suc (suc (suc (suc zero))))) = refl
signature_shape (suc (suc (suc (suc (suc (suc n)))))) = ground arith
