-- ===== src/Loading/Place.antt =====
-- The line and the character of an error that `loadFile` of fscript-CLI/Functions.m counts.
use fscript_extensions.Prelude.{
  ℕ, zero, suc, refl, sym, ap, Bool, false, none, some, arith, inl, inr, length, drop, ltb, Bytes,
  Bool-cases, length-append, append-nil, [], ◌∷◌, ◌++◌, ◌+◌, ◌-◌, ◌≤◌, ◌<◌, ◌≡◌, ◌∙◌, ◌≢◌, ◌⊎◌,
  ◌==◌, if◌then◌else◌,
}
use fscript_extensions.File.Lines.{Lacks}
use fscript_extensions.File.Reading.{Lacks-drop}
use fscript_extensions.File.Object.Buffered.{drop-drop, drop-length}
use fscript_extensions.Loading.{error_place, error_rounds, newline_in}
use fscript_extensions.Trampoline.Ppc.Dispatch.{found}
use fscript_extensions.Trampoline.Create.{lp64}

-- The place `n` characters further on, from a line and a character: a reference definition.
unfoldable pub place : Bytes → ℕ → ℕ → ℕ → ℕ × ℕ
place s zero line char = (line, char)
place [] (suc n) line char = (line, char + suc n)
place (x ∷ s) (suc n) line char =
    place s n (if x == b'\n' then suc line else line) (if x == b'\n' then 1 else suc char)

-- What is found: the text before the newline and behind it.
pub newline-cases :
    (s : Bytes)
    → ((newline_in s ≡ none) × Lacks b'\n' s)
      ⊎ ((before : Bytes) × (after : Bytes) × (newline_in s ≡ some (length before))
          × Lacks b'\n' before
          × (s ≡ before ++ b'\n' ∷ after))
unfolding newline_in
newline-cases [] = inl (refl, tt)
newline-cases (x ∷ s) = elim (Bool-cases (x == b'\n')) [
  | inl e ↦ inr ([], s, ground (arith, e), tt, ground (arith, e))
  | inr e ↦ elim (newline-cases s) [
    | inl (f, h) ↦ inl (ground (arith, e, f), (ground (arith, e), h))
    | inr (b, a, f, h, q) ↦
        inr (x ∷ b, a, ground (arith, e, f), (ground (arith, e), h), ap (λ r. x ∷ r) q)
  ]
]

-- Inside a line only the character moves.
place-inside :
    (s t : Bytes) (n line char : ℕ)
    → Lacks b'\n' s
    → n ≤ length s
    → place (s ++ t) n line char ≡ (line, char + n)
unfolding place
place-inside [] t zero line char l h = ground arith
place-inside (x ∷ s) t zero line char l h = ground arith
place-inside [] t (suc n) line char l h = absurd (omega (arith, h))
place-inside (x ∷ s) t (suc n) line char l h =
    ground (arith, l.0, place-inside s t n line (suc char) l.1 (omega (arith, h)))

-- Behind a newline the next line begins.
pub place-behind :
    (s t : Bytes) (m n line char : ℕ)
    → Lacks b'\n' s
    → m ≡ length s + suc n
    → place (s ++ b'\n' ∷ t) m line char ≡ place t n (suc line) 1
unfolding place
place-behind s t zero n line char l e = absurd (omega (arith, e))
place-behind [] t (suc m) n line char l e =
    ap (λ k. place t k (suc line) 1) {x = m} {y = n} (omega (arith, e))
place-behind (x ∷ s) t (suc m) n line char l e =
    ground (arith, l.0, place-behind s t m n line (suc char) l.1 (omega (arith, e)))

newline_in-none : (s : Bytes) → Lacks b'\n' s → newline_in s ≡ none
unfolding newline_in
newline_in-none [] h = refl
newline_in-none (x ∷ s) h = ground (arith, h.0, newline_in-none s h.1)

-- One round of the loop: past the location, at a newline, and in the last line.
round-past :
    (fuel : ℕ) (lp64 : Bool) (script : Bytes) (location from line char : ℕ)
    → 0 < fuel
    → location < from
    → error_rounds fuel lp64 script location from line char ≡ some (line, char)
unfolding error_rounds
round-past zero lp64 script location from line char f h = absurd (omega (arith, f))
round-past (suc fuel) lp64 script location from line char f h = ground (arith, h)

pub round-newline :
    (fuel : ℕ) (lp64 : Bool) (script : Bytes) (location from line char p : ℕ)
    → from ≤ location
    → newline_in (drop from script) ≡ some p
    → error_rounds (suc fuel) lp64 script location from line char
      ≡ error_rounds fuel lp64 script location (from + (p + 1)) (line + 1) (location + 1 - from)
unfolding error_rounds
round-newline fuel lp64 script location from line char p h e = ground (arith, h, e)

round-last :
    (fuel : ℕ) (script : Bytes) (location from line char : ℕ)
    → from ≤ location
    → newline_in (drop from script) ≡ none
    → error_rounds (suc fuel) false script location from line char
      ≡ some (line + 1, location + 1 - from)
unfolding error_rounds
round-last fuel script location from line char h e = ground (arith, h, e)

-- Where the loop ends: pointers of 32 bits, or a newline at the location or behind it.
abbrev pub Ends : Bool → Bytes → ℕ → Type 0
Ends lp64 script location = (lp64 ≡ false) ⊎ (newline_in (drop location script) ≢ none)

place-last :
    (s : Bytes) (n line : ℕ) → Lacks b'\n' s → n ≤ length s → place s n line 1 ≡ (line, 1 + n)
place-last s n line clean inside =
    ap (λ r. place r n line 1) (sym (append-nil s)) ∙ place-inside s [] n line 1 clean inside

pub drop-behind :
    (before after : Bytes) (c : ℕ) → drop (length before + 1) (before ++ c ∷ after) ≡ after
drop-behind before after c =
    drop-drop (length before) 1 (before ++ c ∷ after)
    ∙ ap (λ r. drop 1 r) (drop-length before (c ∷ after))

rounds-place :
    (fuel : ℕ) (lp64 : Bool) (script : Bytes) (location from n line char : ℕ) (rest : Bytes)
    → drop from script ≡ rest
    → location ≡ from + n
    → n ≤ length rest
    → suc n < fuel
    → Ends lp64 script location
    → error_rounds fuel lp64 script location from line char ≡ some (place rest n (suc line) 1)
rounds-place zero lp64 script location from n line char rest here at inside f ends =
    absurd (omega (arith, f))
rounds-place (suc fuel) lp64 script location from n line char rest here at inside f ends =
    elim (newline-cases rest) [
      | inl (nothing, clean) ↦ elim ends [
        | inl narrow ↦ rw narrow (
            round-last fuel script location from line char (omega (arith, at))
              (ap newline_in here ∙ nothing)
            ∙ ap (λ r. some r) (ground (arith, at, place-last rest n (suc line) clean inside)))
        | inr more ↦ absurd (
            more (
              ap newline_in
                (ap (λ k. drop k script) at ∙ drop-drop from n script ∙ ap (λ r. drop n r) here)
              ∙ newline_in-none (drop n rest) (Lacks-drop b'\n' n rest clean)))
      ]
      | inr (before, after, found, clean, parts) ↦
          round-newline fuel lp64 script location from line char (length before) (omega (arith, at))
            (ap newline_in here ∙ found)
          ∙ (elim (Bool-cases (ltb (length before) n)) [
            | inl more ↦
                let m = n - length before - 1 in
                let behind : drop (from + (length before + 1)) script ≡ after =
                  drop-drop from (length before + 1) script
                  ∙ ap (λ r. drop (length before + 1) r) (here ∙ parts)
                  ∙ drop-behind before after b'\n' in
                let count : n ≡ length before + suc m = ground (arith, more) in
                rounds-place fuel lp64 script location (from + (length before + 1)) m (line + 1)
                  (location + 1 - from) after behind (omega (arith, at, count))
                  (omega
                    (arith, inside, count, ap length parts, length-append before (b'\n' ∷ after)))
                  (omega (arith, f, count)) ends
                ∙ ap (λ r. some r)
                    (ap (λ k. place after m k 1) {x = suc (line + 1)} {y = suc (suc line)}
                        (omega arith)
                      ∙ sym (place-behind before after n m (suc line) 1 clean count)
                      ∙ ap (λ r. place r n (suc line) 1) (sym parts))
            | inr less ↦
                round-past fuel lp64 script location (from + (length before + 1)) (line + 1)
                  (location + 1 - from) (omega (arith, f)) (ground (arith, less, at))
                ∙ ap (λ r. some r)
                    (ground (
                      arith,
                      at,
                      ap (λ r. place r n (suc line) 1) parts
                          ∙ place-inside before (b'\n' ∷ after) n (suc line) 1 clean
                              (ground (arith, less)),
                    ))
          ])
    ]

-- If the location lies in the script, the loop ends and gives the line and the character that one
-- counts from the beginning of the script, the first character of a line being number 1; where pointers
-- have 64 bits this needs a newline at the location or behind it.
pub error_place-place :
    (lp64 : Bool) (script : Bytes) (location line : ℕ)
    → location ≤ length script
    → Ends lp64 script location
    → error_place lp64 script location line ≡ some (place script location (suc line) 1)
unfolding error_place
error_place-place lp64 script location line inside ends =
    rounds-place (suc (suc location)) lp64 script location 0 location line 0 script refl
      (omega arith) inside (omega arith) ends
