-- ===== src/Regex/Replace/Modified.antt =====
-- What case modifiers change (fscript-CLI/FSRegex.m).
use fscript_extensions.Prelude.{
  ℕ, refl, sym, ap, List, map, arith, inl, inr, length, take, drop, ltb, Bytes, Bool-cases,
  take-append-drop, [], ◌∷◌, ◌++◌, ◌+◌, ◌≡◌, ◌∙◌, ◌||◌, ◌==◌,
}
use fscript_extensions.Regex.Replace.{
  apply_modifier, apply_modifiers, change_case, modified_length, replace_range,
}
use fscript_extensions.File.Object.Buffered.{drop-drop}
use fscript_extensions.Regex.{substring}
use fscript_extensions.PropertyName.{to_lower, to_upper}

lower-upper : (c : ℕ) → to_lower (to_upper c) ≡ to_lower c
unfolding to_lower to_upper
lower-upper c = ground arith

lower-lower : (c : ℕ) → to_lower (to_lower c) ≡ to_lower c
unfolding to_lower
lower-lower c = ground arith

-- A text without its case.
abbrev pub folded : Bytes → Bytes
folded s = map to_lower s

folded-append : (s t : Bytes) → folded (s ++ t) ≡ folded s ++ folded t
folded-append [] t = refl
folded-append (x ∷ s) t = ap (λ r. to_lower x ∷ r) (folded-append s t)

folded-upper : (s : Bytes) → folded (map to_upper s) ≡ folded s
folded-upper [] = refl
folded-upper (x ∷ s) = ground (arith, lower-upper x, folded-upper s)

folded-lower : (s : Bytes) → folded (map to_lower s) ≡ folded s
folded-lower [] = refl
folded-lower (x ∷ s) = ground (arith, lower-lower x, folded-lower s)

folded-change_case : (type : ℕ) (s : Bytes) → folded (change_case type s) ≡ folded s
folded-change_case type s = elim (Bool-cases (type == b'u' || type == b'U')) [
  | inl up ↦ rw up (folded-upper s)
  | inr not_up ↦ elim (Bool-cases (type == b'l' || type == b'L')) [
    | inl down ↦ rw (not_up, down) (folded-lower s)
    | inr neither ↦ rw (not_up, neither) refl
  ]
]

-- A part of a text, replaced by one that differs by its case.
folded-replace_range :
    (location size : ℕ) (text s : Bytes)
    → folded text ≡ folded (substring s location size)
    → folded (replace_range location size text s) ≡ folded s
folded-replace_range location size text s e =
    let part = substring s location size in
    let rest = drop (location + size) s in
    folded-append (take location s) (text ++ rest)
    ∙ ap (λ r. folded (take location s) ++ r)
        (folded-append text rest ∙ ap (λ r. r ++ folded rest) e ∙ sym (folded-append part rest))
    ∙ sym (folded-append (take location s) (part ++ rest))
    ∙ ap folded (
        ap (λ r. take location s ++ (part ++ r)) (drop-drop location size s)
        ∙ ap (λ r. take location s ++ r) (take-append-drop size (drop location s))
        ∙ take-append-drop location s)

folded-apply_modifier :
    (location type : ℕ) (later : List (ℕ × ℕ)) (buffer : Bytes)
    → folded (apply_modifier location type later buffer) ≡ folded buffer
folded-apply_modifier location type later buffer =
    let size = modified_length location type later buffer in
    elim (Bool-cases (ltb (length buffer) (location + size))) [
      | inl outside ↦ rw outside refl
      | inr inside ↦ rw inside (
          folded-replace_range location size (change_case type (substring buffer location size))
            buffer (folded-change_case type (substring buffer location size)))
    ]

-- Whatever case modifiers a replacement string holds, they change nothing of the text built from it but
-- the case of its letters.
pub apply_modifiers-folded :
    (modifiers : List (ℕ × ℕ)) (buffer : Bytes)
    → folded (apply_modifiers modifiers buffer) ≡ folded buffer
unfolding apply_modifiers
apply_modifiers-folded [] buffer = refl
apply_modifiers-folded ((location, type) ∷ later) buffer =
    apply_modifiers-folded later (apply_modifier location type later buffer)
    ∙ folded-apply_modifier location type later buffer
