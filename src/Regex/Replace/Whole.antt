-- ===== src/Regex/Replace/Whole.antt =====
-- Replacing every match by itself (fscript-CLI/FSRegex.m).
use fscript_extensions.Prelude.{
  ℕ, zero, suc, sym, ap, Bool, Option, some, List, arith, length, drop, Bytes, append-nil, [], ◌∷◌,
  ◌++◌, ◌-◌, ◌<◌, ◌≡◌, ◌∙◌,
}
use fscript_extensions.Regex.Replace.{
  Building, Replaced, apply_modifiers, build_token, build_tokens, chop_index, group_at_index,
  group_count, number_reference, replace_rounds, replace_with_string, replaced, replacement,
  token_of,
}
use fscript_extensions.Regex.Order.{IsOrdered, StaysInside, find_all-IsOrdered}
use fscript_extensions.Regex.{Match, behind_match, find_all, limited, substring}
use fscript_extensions.File.{behind}
use fscript_extensions.Regex.Splitting.{cut, limited-IsOrdered, rest-whole}
use fscript_extensions.SystemUtility.Commands.{exec}
use fscript_extensions.Trampoline.Ppc.Dispatch.{found}
use fscript_extensions.Regex.Replace.Plain.{replace_rounds-step}

-- A reference to the whole match, by any number of digits for zero or by `&`.
abbrev pub IsWhole : Match → Bool → Type 0
IsWhole reference braces = token_of reference.groups ≡ some (number_reference braces 0)

chop-zero :
    (count size : ℕ) (braces : Bool)
    → 0 < count
    → chop_index count braces 0 size ≡ replaced (0, size)
unfolding chop_index
chop-zero count zero braces h = ground (arith, h)
chop-zero count (suc size) braces h = ground (arith, h)

build-whole :
    (string_number : Bytes → Option ℕ) (s rep : Bytes) (m reference : Match) (braces : Bool)
    (b : Building)
    → IsWhole reference braces
    → build_token string_number s m rep reference b
      ≡ replaced (record {
        buffer =
            (b.buffer ++ substring rep b.used (reference.location - b.used))
            ++ substring s m.location m.size;
        modifiers = b.modifiers;
        used = behind_match reference;
      })
unfolding build_token group_at_index
build-whole string_number s rep m reference braces b e =
    ground (arith, e, chop-zero (group_count m) reference.size braces (omega arith))

-- The text around a reference to the whole match, with the match in it.
pub whole-replacement :
    (string_number : Bytes → Option ℕ) (s rep : Bytes) (m reference : Match) (braces : Bool)
    → IsWhole reference braces
    → replacement string_number s rep (reference ∷ []) m
      ≡ replaced (
          (substring rep 0 (reference.location - 0) ++ substring s m.location m.size)
          ++ substring rep (behind_match reference) (length rep - behind_match reference))
unfolding replacement build_tokens apply_modifiers
whole-replacement string_number s rep m reference braces e =
    let initial : Building = record { buffer = []; modifiers = []; used = 0 } in
    ground (arith, build-whole string_number s rep m reference braces initial e)

-- The matches, each replaced by itself, with what stands around them.
rounds-whole :
    (by : Match → Replaced Bytes) (s : Bytes) (from : ℕ) (matches : List Match)
    → ((m : Match) → by m ≡ replaced (substring s m.location m.size))
    → IsOrdered from (length s) matches
    → replace_rounds by s from matches ≡ replaced (drop from s)
rounds-whole by s from [] e h = unfold replace_rounds in ap (λ t. replaced t) (rest-whole from s)
rounds-whole by s from (m ∷ matches) e h =
    let whole = substring s m.location m.size in
    let size : behind_match m - m.location ≡ m.size = omega arith in
    replace_rounds-step by s whole (drop (behind_match m) s) from m matches (e m)
      (rounds-whole by s (behind_match m) matches e h.1)
    ∙ ap (λ t. replaced t)
        (ap
            (λ n.
              substring s from (m.location - from)
              ++ (substring s m.location n ++ drop (behind_match m) s))
            (sym size)
          ∙ ap (λ t. substring s from (m.location - from) ++ t)
              (cut m.location (behind_match m) s (omega arith))
          ∙ cut from m.location s h.0)

nothing-behind : (s : Bytes) (n : ℕ) → n ≡ length s → substring s n (length s - n) ≡ []
nothing-behind s n e = ap (λ k. substring s n k) {x = length s - n} {y = 0} (omega (arith, e))

surrounded :
    (rep whole : Bytes) (reference : Match)
    → reference.location ≡ 0
    → behind_match reference ≡ length rep
    → (substring rep 0 (reference.location - 0) ++ whole)
        ++ substring rep (behind_match reference) (length rep - behind_match reference)
      ≡ whole
surrounded rep whole reference at_start behind =
    let empty : substring rep 0 (reference.location - 0) ≡ [] =
      ap (λ n. substring rep 0 n) {x = reference.location - 0} {y = 0} (omega (arith, at_start)) in
    ap
      (λ t.
        (t ++ whole)
        ++ substring rep (behind_match reference) (length rep - behind_match reference))
      empty
    ∙ ap (λ t. whole ++ t) (nothing-behind rep (behind_match reference) behind)
    ∙ append-nil whole

-- Replacing every match by a reference to the whole match, `$&` or `$0` with braces or without, gives the
-- string back, for every limit, if a match stays inside the range that is searched.
pub replace_with_string-whole :
    (exec : ℕ → ℕ → Option Match) (string_number : Bytes → Option ℕ)
    (find_references : Bytes → List Match) (rep s : Bytes) (limit : ℕ) (reference : Match)
    (braces : Bool)
    → StaysInside exec
    → find_references rep ≡ reference ∷ []
    → IsWhole reference braces
    → reference.location ≡ 0
    → reference.size ≡ length rep
    → replace_with_string exec string_number find_references rep s limit ≡ replaced s
unfolding replace_with_string
replace_with_string-whole exec string_number find_references rep s limit reference braces law found
      whole at_start all =
    let (ordered, _) = find_all-IsOrdered 0 0 (length s) exec law (omega arith) in
    let behind : behind_match reference ≡ length rep = omega (arith, at_start, all) in
    rounds-whole (replacement string_number s rep (find_references rep)) s 0
      (limited limit (find_all exec 0 (length s)))
      (λ m.
        ap (λ rs. replacement string_number s rep rs m) found
        ∙ whole-replacement string_number s rep m reference braces whole
        ∙ ap (λ t. replaced t)
            (surrounded rep (substring s m.location m.size) reference at_start behind))
      (limited-IsOrdered limit 0 (length s) (find_all exec 0 (length s)) ordered)
