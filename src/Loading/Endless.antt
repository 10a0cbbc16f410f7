-- ===== src/Loading/Endless.antt =====
-- Where the loop that counts the lines of an error does not end (fscript-CLI/Functions.m).
use fscript_extensions.Prelude.{
  ℕ, zero, suc, refl, sym, ap, true, none, arith, inl, inr, length, drop, ltb, Bytes, Bool-cases,
  [], ◌∷◌, ◌++◌, ◌+◌, ◌-◌, ◌≤◌, ◌≡◌, ◌∙◌, ◌≢◌,
}
use fscript_extensions.File.{behind}
use fscript_extensions.File.Object.Buffered.{drop-drop}
use fscript_extensions.Loading.{error_rounds, newline_in}
use fscript_extensions.Trampoline.Ppc.Dispatch.{found}
use fscript_extensions.Loading.Place.{newline-cases, round-newline}

newline_in-some :
    (before after : Bytes) (k : ℕ)
    → k ≤ length before
    → newline_in (drop k (before ++ b'\n' ∷ after)) ≢ none
unfolding newline_in
newline_in-some [] after zero h = λ e. ground (arith, e)
newline_in-some [] after (suc k) h = absurd (omega (arith, h))
newline_in-some (x ∷ before) after zero h =
    λ e. newline_in-some before after zero (omega arith) (ground (arith, e))
newline_in-some (x ∷ before) after (suc k) h = newline_in-some before after k (omega (arith, h))

round-anew :
    (fuel : ℕ) (script : Bytes) (location from line char : ℕ)
    → from ≤ location
    → newline_in (drop from script) ≡ none
    → error_rounds (suc fuel) true script location from line char
      ≡ error_rounds fuel true script location 0 (line + 1) (location + 1 - from)
unfolding error_rounds
round-anew fuel script location from line char h e = ground (arith, h, e)

-- Where pointers have 64 bits and no newline stands at the location of the error or behind it, as in
-- the last line of a script without a final newline, the loop goes on for any number of rounds.
pub error_rounds-never :
    (fuel : ℕ) (script : Bytes) (location from line char : ℕ)
    → from ≤ location
    → newline_in (drop location script) ≡ none
    → error_rounds fuel true script location from line char ≡ none
error_rounds-never zero script location from line char h none_behind = unfold error_rounds in refl
error_rounds-never (suc fuel) script location from line char h none_behind =
    elim (newline-cases (drop from script)) [
      | inl (nothing, _) ↦
          round-anew fuel script location from line char h nothing
          ∙ error_rounds-never fuel script location 0 (line + 1) (location + 1 - from) (omega arith)
              none_behind
      | inr (before, after, found, _, parts) ↦
          let p = length before in
          let shifted : drop location script ≡ drop (location - from) (before ++ b'\n' ∷ after) =
            ap (λ k. drop k script) {x = location} {y = from + (location - from)} (omega (arith, h))
            ∙ drop-drop from (location - from) script
            ∙ ap (λ r. drop (location - from) r) parts in
          round-newline fuel true script location from line char p h found
          ∙ (elim (Bool-cases (ltb p (location - from))) [
            | inl inside ↦
                error_rounds-never fuel script location (from + (p + 1)) (line + 1)
                  (location + 1 - from) (ground (arith, inside, h)) none_behind
            | inr behind ↦ absurd (
                newline_in-some before after (location - from) (ground (arith, behind))
                  (sym (ap newline_in shifted) ∙ none_behind))
          ])
    ]
