-- ===== src/File/Reading.antt =====
-- Reading lines with a separator of one character (fscript-CLI/FSFile.m).
use fscript_extensions.Prelude.{
  ℕ, zero, suc, refl, sym, ap, Option, none, some, arith, inl, inr, length, take, drop, Bytes,
  Bool-cases, take-append-drop, length-drop, append-nil, append_assoc, [], ◌∷◌, ◌++◌, ◌<◌, ◌≡◌, ◌∙◌,
  ◌≢◌, ◌⊎◌, ◌==◌,
}
use fscript_extensions.File.Lines.{Lacks}
use fscript_extensions.File.{
  State, chunk_size, find_c_string, read_rounds, split_at, split_at_c_string,
}
use fscript_extensions.Trampoline.Ppc.Dispatch.{found}
use fscript_extensions.Selector.{until_null}
use mathlib.Core.List.{cons-ne-nil}

-- No null stands in the text.
abbrev pub NoNull : Bytes → Type 0
NoNull s = Lacks 0 s

-- What one call may answer for the text `s`, and what is left of it: the first line, or all the rest
-- of a text without a separator, or nothing at its end.
abbrev pub IsNextLine : ℕ → Bytes → Option Bytes → Bytes → Type 0
IsNextLine c s none rest = (s ≡ []) × (rest ≡ [])
IsNextLine c s (some line) rest =
    Lacks c line × ((s ≡ line ++ c ∷ rest) ⊎ ((s ≡ line) × (line ≢ []) × (rest ≡ [])))

abbrev pub text_of : State → Bytes
text_of st = st.sustain_buffer ++ st.remaining

pub Lacks-append : (c : ℕ) (s t : Bytes) → Lacks c s → Lacks c t → Lacks c (s ++ t)
Lacks-append c [] t h k = k
Lacks-append c (x ∷ s) t h k = (h.0, Lacks-append c s t h.1 k)

Lacks-take : (c n : ℕ) (s : Bytes) → Lacks c s → Lacks c (take n s)
Lacks-take c zero s h = tt
Lacks-take c (suc n) [] h = tt
Lacks-take c (suc n) (x ∷ s) h = (h.0, Lacks-take c n s h.1)

pub Lacks-drop : (c n : ℕ) (s : Bytes) → Lacks c s → Lacks c (drop n s)
Lacks-drop c zero s h = h
Lacks-drop c (suc n) [] h = tt
Lacks-drop c (suc n) (x ∷ s) h = Lacks-drop c n s h.1

until_null-none : (s : Bytes) → NoNull s → until_null s ≡ s
unfolding until_null
until_null-none [] h = refl
until_null-none (x ∷ s) h = ground (arith, h.0, until_null-none s h.1)

-- A separator of one character is found where it first stands.
pub split_at-one :
    (c : ℕ) (s : Bytes)
    → ((split_at (c ∷ []) s ≡ none) × Lacks c s)
      ⊎ ((before : Bytes) × (after : Bytes) × (split_at (c ∷ []) s ≡ some (before, after))
          × Lacks c before
          × (s ≡ before ++ c ∷ after))
unfolding split_at
split_at-one c [] = inl (refl, tt)
split_at-one c (x ∷ s) = elim (Bool-cases (c == x)) [
  | inl e ↦ inr ([], s, ground (arith, e), tt, ground (arith, e))
  | inr e ↦ elim (split_at-one c s) [
    | inl (f, h) ↦ inl (ground (arith, e, f), (ground (arith, e), h))
    | inr (b, a, f, h, q) ↦
        inr (x ∷ b, a, ground (arith, e, f), (ground (arith, e), h), ap (λ r. x ∷ r) q)
  ]
]

-- Where the separator is not the null, `strstr` finds it as `rangeOfString:` does.
find_c_string-one : (c : ℕ) (s : Bytes) → find_c_string (c ∷ []) 1 s ≡ split_at (c ∷ []) s
unfolding find_c_string split_at
find_c_string-one c [] = refl
find_c_string-one c (x ∷ s) = ground (arith, find_c_string-one c s)

split_at_c_string-one :
    (c : ℕ) (s : Bytes) → c ≢ 0 → split_at_c_string (c ∷ []) s ≡ split_at (c ∷ []) s
unfolding split_at_c_string
split_at_c_string-one c s nz =
    ap (λ needle. find_c_string needle 1 s) (until_null-none (c ∷ []) (λ e. nz e, tt))
    ∙ find_c_string-one c s

-- One round of the loop, by what the chunk holds.
round-found :
    (fuel c x : ℕ) (s sustain before after : Bytes)
    → c ≢ 0
    → NoNull (x ∷ s)
    → split_at (c ∷ []) (take chunk_size (x ∷ s)) ≡ some (before, after)
    → read_rounds (suc fuel) (c ∷ []) (record { remaining = x ∷ s; sustain_buffer = sustain }) ≡ (
      some (sustain ++ before),
      record { remaining = drop chunk_size (x ∷ s); sustain_buffer = after },
    )
unfolding read_rounds
round-found fuel c x s sustain before after nz n h =
    let plain = until_null-none (take chunk_size (x ∷ s)) (Lacks-take 0 chunk_size (x ∷ s) n) in
    ground (arith, plain, split_at_c_string-one c (take chunk_size (x ∷ s)) nz, h)

round-more :
    (fuel c x : ℕ) (s sustain : Bytes)
    → c ≢ 0
    → NoNull (x ∷ s)
    → split_at (c ∷ []) (take chunk_size (x ∷ s)) ≡ none
    → read_rounds (suc fuel) (c ∷ []) (record { remaining = x ∷ s; sustain_buffer = sustain })
      ≡ read_rounds fuel (c ∷ []) (record {
        remaining = drop chunk_size (x ∷ s);
        sustain_buffer = sustain ++ take chunk_size (x ∷ s);
      })
unfolding read_rounds
round-more fuel c x s sustain nz n h =
    let plain = until_null-none (take chunk_size (x ∷ s)) (Lacks-take 0 chunk_size (x ∷ s) n) in
    ground (arith, plain, split_at_c_string-one c (take chunk_size (x ∷ s)) nz, h)

-- What a call leaves: no null either, and the next line.
abbrev pub Answers : ℕ → Bytes → Option Bytes × State → Type 0
Answers c text r = IsNextLine c text r.0 (text_of r.1) × NoNull r.1.remaining

rounds-end :
    (fuel c : ℕ) (sustain : Bytes)
    → Lacks c sustain
    → Answers c
        (sustain ++ [])
        (read_rounds (suc fuel) (c ∷ []) (record { remaining = []; sustain_buffer = sustain }))
unfolding read_rounds
rounds-end fuel c [] h = ((refl, refl), tt)
rounds-end fuel c (x ∷ s) h = ((h, inr (append-nil (x ∷ s), cons-ne-nil x s, refl)), tt)

pub rounds-Answers :
    (fuel c : ℕ) (remaining sustain : Bytes)
    → c ≢ 0
    → length remaining < fuel
    → NoNull remaining
    → Lacks c sustain
    → Answers c
        (sustain ++ remaining)
        (read_rounds fuel (c ∷ []) (record { remaining = remaining; sustain_buffer = sustain }))
rounds-Answers zero c remaining sustain nz f n h = absurd (omega arith)
rounds-Answers (suc fuel) c [] sustain nz f n h = rounds-end fuel c sustain h
rounds-Answers (suc fuel) c (x ∷ s) sustain nz f n h =
    let chunk = take chunk_size (x ∷ s) in
    let later = drop chunk_size (x ∷ s) in
    let whole : chunk ++ later ≡ x ∷ s = take-append-drop chunk_size (x ∷ s) in
    elim (split_at-one c chunk) [
      | inl (none_here, clean) ↦
          let shorter : length later < fuel = omega (arith, length-drop chunk_size (x ∷ s)) in
          let text : (sustain ++ chunk) ++ later ≡ sustain ++ (x ∷ s) =
            append_assoc sustain chunk later ∙ ap (λ r. sustain ++ r) whole in
          rw (round-more fuel c x s sustain nz n none_here, ← text)
            (rounds-Answers fuel c later (sustain ++ chunk) nz shorter
              (Lacks-drop 0 chunk_size (x ∷ s) n) (Lacks-append c sustain chunk h clean))
      | inr (before, after, found, clean, parts) ↦
          let text : sustain ++ (x ∷ s) ≡ (sustain ++ before) ++ c ∷ (after ++ later) =
            ap (λ r. sustain ++ r)
              (sym whole ∙ ap (λ r. r ++ later) parts ∙ append_assoc before (c ∷ after) later)
            ∙ sym (append_assoc sustain before (c ∷ (after ++ later))) in
          rw (round-found fuel c x s sustain before after nz n found)
            ((Lacks-append c sustain before h clean, inl text), Lacks-drop 0 chunk_size (x ∷ s) n)
    ]
