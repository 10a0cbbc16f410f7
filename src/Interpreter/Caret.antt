-- ===== src/Interpreter/Caret.antt =====
-- The mark of an error (fscript-CLI/interpreter.m).
use fscript_extensions.Prelude.{
  ℕ, refl, ap, true, false, none, some, arith, get_elem?, replicate, ltb, Bytes, codes,
  append_assoc, [], ◌∷◌, ◌++◌, ◌+◌, ◌-◌, ◌≤◌, ◌≡◌, ◌∙◌, if◌then◌else◌,
}
use fscript_extensions.Interpreter.{Objects, caret, default_prompt_length, fresh_session, prompt}
use fscript_extensions.Format.{convert, format_loop, formatted, sprintf}
use fscript_extensions.Sprintf.{insert_string}

mark :
    (n : ℕ)
    → 2 ≤ n
    → insert_string true false b' ' (some n) none (codes "^") ≡ replicate (n - 1) b' ' ++ codes "^"
unfolding insert_string
mark n h = let one : (if ltb 1 n then 1 else n) ≡ 1 = ground (arith, h) in rw one refl

caret_lem :
    (objects : Objects) (location : ℕ)
    → ((n : ℕ) → (objects.number n).width_value ≡ n)
    → ((s : Bytes) → (objects.string s).text ≡ s)
    → caret objects location
      ≡ formatted (replicate (default_prompt_length + location) b' ' ++ codes "^\n")
unfolding caret sprintf format_loop convert insert_string
caret_lem objects location h k =
    let n : ℕ = location + default_prompt_length + 1 in
    let places : n - 1 ≡ default_prompt_length + location = omega arith in
    let marked : insert_string true false b' ' (some n) none (codes "^")
        ≡ replicate (default_prompt_length + location) b' ' ++ codes "^" =
      mark n (omega arith) ∙ ap (λ m. replicate m b' ' ++ codes "^") places in
    ap
      (λ w. formatted (
        insert_string true false b' ' (some w) none (objects.string (codes "^")).text
        ++ b'\n' ∷ []))
      (h n)
    ∙ ap (λ s. formatted (insert_string true false b' ' (some n) none s ++ b'\n' ∷ []))
        (k (codes "^"))
    ∙ ap (λ s. formatted (s ++ b'\n' ∷ [])) marked
    ∙ ap formatted
        (append_assoc (replicate (default_prompt_length + location) b' ') (codes "^") (b'\n' ∷ []))

behind_prompt :
    (command : Bytes) (location : ℕ)
    → get_elem? (codes "F-Script> " ++ command) (default_prompt_length + location)
      ≡ get_elem? command location
behind_prompt command location = ground arith

-- If the objects answer the number and the string that they stand for, an error is marked by a caret
-- behind as many spaces as the prompt has characters and its location says, and printing it raises no
-- exception. In a command of one line, that is the column of its character behind the prompt, where
-- this is not colored.
pub caret-under :
    (objects : Objects) (location : ℕ) (command : Bytes)
    → ((n : ℕ) → (objects.number n).width_value ≡ n)
    → ((s : Bytes) → (objects.string s).text ≡ s)
    → (caret objects location
        ≡ formatted (replicate (default_prompt_length + location) b' ' ++ codes "^\n"))
      × ((line : Bytes) × (prompt false fresh_session ≡ some line)
          × (get_elem? (line ++ command) (default_prompt_length + location)
              ≡ get_elem? command location))
unfolding prompt
caret-under objects location command h k =
    (caret_lem objects location h k, (codes "F-Script> ", refl, behind_prompt command location))
