-- ===== src/Selector/Grammar.antt =====
-- What `isLegitSelector` (FSClass/Functions.m) accepts, against the grammar of selectors.
use mathlib.Core.List.{cons-ne-nil}
use fscript_extensions.Prelude.{
  if◌then◌else◌, ap, ℕ, ◌+◌, ◌≡◌, ◌≢◌, refl, arith, Bool, true, false, ◌⊎◌, inl, inr, ◌↔◌, ◌||◌,
  List, [], ◌∷◌, ◌++◌, Bytes, ◌==◌, Bool-cases, some,
}
use fscript_extensions.Selector.{
  legit_round, legit_c_string, is_numeric, is_start, legit_rest, is_legit_selector, until_null,
  all_ascii,
}

abbrev pub All {ℓ κ} : {A : Type ℓ} → (A → Type κ) → List A → Type κ
All P [] = Unit
All P (x ∷ xs) = P x × All P xs

-- A letter, a digit or an underscore.
unfoldable pub is_word : ℕ → Bool
unfolding is_start is_numeric
is_word c = is_start c || is_numeric c

abbrev pub AllWord : Bytes → Type 0
AllWord = All (λ c. is_word c ≡ true)

-- A letter or an underscore, then letters, digits and underscores.
abbrev pub IsIdentifier : Bytes → Type 0
IsIdentifier [] = ⊥
IsIdentifier (c ∷ s) = (is_start c ≡ true) × AllWord s

-- A keyword selector: every part is followed by a colon.
unfoldable pub spell : List Bytes → Bytes
spell [] = []
spell (w ∷ ws) = w ++ b':' ∷ spell ws

-- A unary selector is one identifier, a keyword selector one or more with a colon behind each.
abbrev pub IsSelector : Bytes → Type 0
IsSelector s =
    IsIdentifier s ⊎ ((ws : List Bytes) × (ws ≢ []) × All IsIdentifier ws × (s ≡ spell ws))

-- Reading on within a part, after `n` colons.
abbrev Continues : ℕ → Bytes → Type 0
Continues n s =
    ((n ≡ 0) × AllWord s)
    ⊎ ((w : Bytes) × (ws : List Bytes) × AllWord w
        × All IsIdentifier ws
        × (s ≡ w ++ b':' ∷ spell ws))

round_last :
    (n c : ℕ) (following : Bool)
    → legit_round n c [] following ≡ true
    → (c ≡ b':') ⊎ ((c ≢ b':') × (n ≡ 0) × (is_word c ≡ true))
unfolding legit_round is_word
round_last n c following h = ground arith

round_inner :
    (n c d : ℕ) (s : Bytes) (following : Bool)
    → d ≢ 0
    → legit_round n c (d ∷ s) following ≡ true
    → (following ≡ true) × (((c ≡ b':') × (is_start d ≡ true)) ⊎ ((c ≢ b':') × (is_word c ≡ true)))
unfolding legit_round is_word
round_inner n c d s following z h = ground arith

pub is_start-ne-colon : (c : ℕ) → is_start c ≡ true → c ≢ b':'
unfolding is_start
is_start-ne-colon c h = ground arith

-- A part that begins with a start character is an identifier.
begins :
    (w : Bytes) (ws : List Bytes) (d : ℕ) (s : Bytes)
    → is_start d ≡ true
    → AllWord w
    → d ∷ s ≡ w ++ b':' ∷ spell ws
    → IsIdentifier w
begins [] ws d s h a e = absurd (is_start-ne-colon d h (cc))
begins (c ∷ w) ws d s h a e = (let same : d ≡ c = cc in rw same at h, a.1)

extend :
    (n c d : ℕ) (s : Bytes)
    → ((c ≡ b':') × (is_start d ≡ true)) ⊎ ((c ≢ b':') × (is_word c ≡ true))
    → Continues (if c == b':' then n + 1 else n) (d ∷ s)
    → Continues n (c ∷ d ∷ s)
extend n c d s (inl (e, start)) (inl (count, a)) = absurd (ground arith)
extend n c d s (inl (e, start)) (inr (w, ws, a, aws, q)) =
    inr ([], w ∷ ws, tt, (begins w ws d s start a q, aws), unfold spell in cc)
extend n c d s (inr (ne, word)) (inl (count, a)) = inl (ground arith, (word, a))
extend n c d s (inr (ne, word)) (inr (w, ws, a, aws, q)) =
    inr (c ∷ w, ws, (word, a), aws, ap (λ r. c ∷ r) q)

legit_rest_sound :
    (n : ℕ) (s : Bytes)
    → (n ≡ 0) ⊎ (s ≢ [])
    → All (λ c. c ≢ 0) s
    → legit_rest n s ≡ true
    → Continues n s
legit_rest_sound n [] (inl e) z h = inl (e, tt)
legit_rest_sound n [] (inr e) z h = absurd (e refl)
legit_rest_sound n (c ∷ []) p z h =
    elim (round_last (if c == b':' then n + 1 else n) c true (unfold legit_rest in h)) [
      | inl e ↦ inr ([], [], tt, tt, unfold spell in cc)
      | inr (ne, e, w) ↦ inl (ground arith, (w, tt))
    ]
legit_rest_sound n (c ∷ d ∷ s) p z h =
    let count = if c == b':' then n + 1 else n in
    let (following, kind) =
      round_inner count c d s (legit_rest count (d ∷ s)) z.1.0 (unfold legit_rest in h) in
    extend n c d s kind (legit_rest_sound count (d ∷ s) (inr (cons-ne-nil d s)) z.1 following)

pub is_word-ne : (c : ℕ) → is_word c ≡ true → (c ≢ 0) × (c ≢ b':')
unfolding is_word
is_word-ne c h = ground arith

pub is_start-is_word : (c : ℕ) → is_start c ≡ true → is_word c ≡ true
unfolding is_word
is_start-is_word c h = ground arith

round_colon :
    (n d : ℕ) (s : Bytes) (following : Bool)
    → is_start d ≡ true
    → legit_round n b':' (d ∷ s) following ≡ following
unfolding legit_round
round_colon n d s following h = ground arith

round_word :
    (n c d : ℕ) (s : Bytes) (following : Bool)
    → is_word c ≡ true
    → d ≢ 0
    → legit_round n c (d ∷ s) following ≡ following
unfolding legit_round is_word
round_word n c d s following h z = ground arith

round_unary :
    (c : ℕ) (following : Bool) → is_word c ≡ true → legit_round 0 c [] following ≡ following
unfolding legit_round is_word
round_unary c following h = ground arith

-- The loop at a character of a part: the number of colons stays.
rest_word :
    (n c : ℕ) (s : Bytes)
    → is_word c ≡ true
    → legit_rest n (c ∷ s) ≡ legit_round n c s (legit_rest n s)
unfolding legit_rest
rest_word n c s h = let (_, ne) = is_word-ne c h in ground arith

legit_unary : (s : Bytes) → AllWord s → legit_rest 0 s ≡ true
legit_unary [] a = unfold legit_rest in refl
legit_unary (c ∷ []) a = rw (rest_word 0 c [] a.0, round_unary c _ a.0) (unfold legit_rest in refl)
legit_unary (c ∷ d ∷ s) a =
    rw (rest_word 0 c (d ∷ s) a.0, round_word 0 c d s _ a.0 (is_word-ne d a.1.0).0)
      (legit_unary (d ∷ s) a.1)

rest_colon :
    (n : ℕ) (s : Bytes)
    → legit_rest n (b':' ∷ s) ≡ legit_round (n + 1) b':' s (legit_rest (n + 1) s)
unfolding legit_rest
rest_colon n s = refl

pub spell_cons :
    (d : ℕ) (v : Bytes) (ws : List Bytes) → spell ((d ∷ v) ∷ ws) ≡ d ∷ (v ++ b':' ∷ spell ws)
unfolding spell
spell_cons d v ws = refl

legit_keywords :
    (n : ℕ) (ws : List Bytes) (w : Bytes)
    → AllWord w
    → All IsIdentifier ws
    → legit_rest n (w ++ b':' ∷ spell ws) ≡ true
legit_keywords n [] [] a h = unfold legit_rest legit_round spell in refl
legit_keywords n ([] ∷ ws) [] a h = absurd h.0
legit_keywords n ((d ∷ v) ∷ ws) [] a ((start, av), h) =
    rw (spell_cons d v ws, rest_colon n _, round_colon (n + 1) d _ _ start)
      (legit_keywords (n + 1) ws (d ∷ v) (is_start-is_word d start, av) h)
legit_keywords n ws (c ∷ []) a h =
    rw (rest_word n c _ a.0, round_word n c b':' _ _ a.0 (omega arith))
      (legit_keywords n ws [] tt h)
legit_keywords n ws (c ∷ d ∷ w) a h =
    rw (rest_word n c _ a.0, round_word n c d _ _ a.0 (is_word-ne d a.1.0).0)
      (legit_keywords n ws (d ∷ w) a.1 h)

legit_c_string_complete : (s : Bytes) → IsSelector s → legit_c_string (some s) ≡ true
legit_c_string_complete [] (inl h) = absurd h
legit_c_string_complete (c ∷ s) (inl (start, a)) = rw (start, legit_unary s a)
legit_c_string_complete s (inr ([], ne, h, e)) = absurd (ne refl)
legit_c_string_complete s (inr ([] ∷ ws, ne, h, e)) = absurd h.0
legit_c_string_complete s (inr ((d ∷ v) ∷ ws, ne, ((start, a), h), e)) =
    rw (e, spell_cons d v ws, start, legit_keywords 0 ws v a h)

legit_c_string_sound :
    (s : Bytes) → All (λ c. c ≢ 0) s → legit_c_string (some s) ≡ true → IsSelector s
legit_c_string_sound [] z h = cc
legit_c_string_sound (c ∷ s) z h =
    let (start, rest) : (is_start c ≡ true) × (legit_rest 0 s ≡ true) = ground arith in
    whole start (legit_rest_sound 0 s (inl refl) z.1 rest)
  where
    whole : is_start c ≡ true → Continues 0 s → IsSelector (c ∷ s)
    whole start (inl (e, a)) = inl (start, a)
    whole start (inr (w, ws, a, h, e)) =
        inr ((c ∷ w) ∷ ws, cons-ne-nil _ _, ((start, a), h), rw (spell_cons c w ws, e))

until_null-ne : (s : Bytes) → All (λ c. c ≢ 0) (until_null s)
unfolding until_null
until_null-ne [] = tt
until_null-ne (c ∷ s) = ground (arith, until_null-ne s)

-- `isLegitSelector` answers yes exactly for the strings of ASCII characters that are, up to the
-- first null, a unary selector (one identifier) or a keyword selector (one or more identifiers,
-- each followed by a colon).
pub is_legit_selector_iff :
    (s : Bytes) → (is_legit_selector s ≡ true) ↔ ((all_ascii s ≡ true) × IsSelector (until_null s))
unfolding is_legit_selector
is_legit_selector_iff s = (to, from)
  where
    to : is_legit_selector s ≡ true → (all_ascii s ≡ true) × IsSelector (until_null s)
    to h = elim (Bool-cases (all_ascii s)) [
      | inl e ↦ (e, legit_c_string_sound (until_null s) (until_null-ne s) (rw (e) at h))
      | inr e ↦ let bad : false ≡ true = rw e at h in cc
    ]

    from : (all_ascii s ≡ true) × IsSelector (until_null s) → is_legit_selector s ≡ true
    from (e, h) = rw e (legit_c_string_complete (until_null s) h)
