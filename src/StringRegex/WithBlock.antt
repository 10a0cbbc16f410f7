-- ===== src/StringRegex/WithBlock.antt =====
-- `replace:withBlock:` changes a copy of the string in place; here is what comes of it
-- (fscript-CLI/StringRegex.m).
use fscript_extensions.Prelude.{
  ℕ, suc, refl, sym, ap, Option, none, some, List, arith, inl, inr, length, take, drop, Bytes,
  Option-cases, length-append, length-take, length-drop, append_assoc, [], ◌∷◌, ◌++◌, ◌+◌, ◌-◌, ◌≤◌,
  ◌≡◌, ◌∙◌,
}
use fscript_extensions.StringRegex.{
  Answer, Cache, all_matches, bad_pattern, block_error, block_rounds, get_regex, gives,
  match_groups, nil_group, replace_error, replace_with_block, with_cache,
}
use fscript_extensions.Regex.Matches.{FsRegex, exec_on}
use fscript_extensions.Regex.Order.{IsOrdered, StaysInside, find_all-IsOrdered}
use fscript_extensions.Regex.Splitting.{IsOrdered-le}
use fscript_extensions.Regex.{Match, behind_match, substring}
use fscript_extensions.Trampoline.Ia32.{arguments}
use fscript_extensions.File.Object.Buffered.{drop-drop, drop-length}
use fscript_extensions.Trampoline.Ppc.Dispatch.{found}
use fscript_extensions.Regex.Replace.{replace_range}

abbrev pub prepend : Bytes → Answer Bytes → Answer Bytes
prepend p (gives t cache) = gives (p ++ t) cache
prepend p bad_pattern = bad_pattern
prepend p nil_group = nil_group
prepend p block_error = block_error
prepend p replace_error = replace_error

-- The string put together from the left: what stands between the matches, and what the block gives for
-- each: a reference definition.
unfoldable pub rebuilt : (List Bytes → Option Bytes) → Bytes → ℕ → List Match → Answer Bytes
unfolding match_groups
rebuilt block s from [] = gives (drop from s) []
rebuilt block s from (m ∷ found) =
    let rest = rebuilt block s (behind_match m) found in
    elim (match_groups s m) [
      | none ↦ nil_group
      | some arguments ↦ elim (block arguments) [
        | none ↦ block_error
        | some text ↦ prepend (substring s from (m.location - from) ++ text) rest
      ]
    ]

take-behind : (p t : Bytes) (n : ℕ) → take (length p + n) (p ++ t) ≡ p ++ take n t
take-behind [] t n = ap (λ k. take k t) {x = 0 + n} {y = n} (omega arith)
take-behind (x ∷ p) t n =
    ap (λ k. take k (x ∷ (p ++ t))) {x = length (x ∷ p) + n} {y = suc (length p + n)} (omega arith)
    ∙ ap (λ r. x ∷ r) (take-behind p t n)

drop-behind_prefix : (p t : Bytes) (n : ℕ) → drop (length p + n) (p ++ t) ≡ drop n t
drop-behind_prefix p t n = drop-drop (length p) n (p ++ t) ∙ ap (drop n) (drop-length p t)

-- A range behind a prefix is replaced behind it.
replace_range-behind :
    (p t text : Bytes) (n size location : ℕ)
    → location ≡ length p + n
    → replace_range location size text (p ++ t) ≡ p ++ (take n t ++ (text ++ drop (n + size) t))
replace_range-behind p t text n size location e =
    let there : location + size ≡ length p + (n + size) = omega (arith, e) in
    ap (λ r. r ++ (text ++ drop (location + size) (p ++ t)))
      (ap (λ k. take k (p ++ t)) e ∙ take-behind p t n)
    ∙ ap (λ r. (p ++ take n t) ++ (text ++ r))
        (ap (λ k. drop k (p ++ t)) there ∙ drop-behind_prefix p t (n + size))
    ∙ append_assoc p (take n t) (text ++ drop (n + size) t)

-- A match in what is left of the string behind a place.
replace_range-match :
    (p s text : Bytes) (from location : ℕ) (m : Match)
    → from ≤ m.location
    → location ≡ length p + (m.location - from)
    → replace_range location m.size text (p ++ drop from s)
      ≡ (p ++ (substring s from (m.location - from) ++ text)) ++ drop (behind_match m) s
replace_range-match p s text from location m h e =
    let n = m.location - from in
    let between = substring s from n in
    let there : from + (n + m.size) ≡ behind_match m = omega (arith, h) in
    replace_range-behind p (drop from s) text n m.size location e
    ∙ ap (λ r. p ++ (between ++ (text ++ r)))
        (sym (drop-drop from (n + m.size) s) ∙ ap (λ k. drop k s) there)
    ∙ ap (λ r. p ++ r) (sym (append_assoc between text (drop (behind_match m) s)))
    ∙ sym (append_assoc p (between ++ text) (drop (behind_match m) s))

length-between :
    (s : Bytes) (from : ℕ) (location : ℕ)
    → from ≤ location
    → location ≤ length s
    → length (substring s from (location - from)) ≡ location - from
length-between s from location h k =
    omega (arith, length-take (location - from) (drop from s), length-drop from s)

prepend-prepend : (p q : Bytes) (a : Answer Bytes) → prepend p (prepend q a) ≡ prepend (p ++ q) a
prepend-prepend p q (gives t cache) = ap (λ r. gives r cache) (sym (append_assoc p q t))
prepend-prepend p q bad_pattern = refl
prepend-prepend p q nil_group = refl
prepend-prepend p q block_error = refl
prepend-prepend p q replace_error = refl

-- One round of the loop, by the groups and by the block.
round-nil :
    (block : List Bytes → Option Bytes) (s result : Bytes) (m : Match) (found : List Match)
    (put_in taken_out : ℕ)
    → match_groups s m ≡ none
    → block_rounds block s (m ∷ found) put_in taken_out result ≡ nil_group
unfolding block_rounds
round-nil block s result m found put_in taken_out e = ground (arith, e)

round-error :
    (block : List Bytes → Option Bytes) (s result : Bytes) (m : Match) (found : List Match)
    (put_in taken_out : ℕ) (arguments : List Bytes)
    → match_groups s m ≡ some arguments
    → block arguments ≡ none
    → block_rounds block s (m ∷ found) put_in taken_out result ≡ block_error
unfolding block_rounds
round-error block s result m found put_in taken_out arguments e f = ground (arith, e, f)

round-text :
    (block : List Bytes → Option Bytes) (s result text : Bytes) (m : Match) (found : List Match)
    (put_in taken_out : ℕ) (arguments : List Bytes)
    → match_groups s m ≡ some arguments
    → block arguments ≡ some text
    → block_rounds block s (m ∷ found) put_in taken_out result
      ≡ block_rounds block s found
          (put_in + length text)
          (taken_out + m.size)
          (replace_range (m.location + put_in - taken_out) m.size text result)
unfolding block_rounds
round-text block s result text m found put_in taken_out arguments e f = ground (arith, e, f)

rebuilt-text :
    (block : List Bytes → Option Bytes) (s text : Bytes) (from : ℕ) (m : Match) (found : List Match)
    (arguments : List Bytes)
    → match_groups s m ≡ some arguments
    → block arguments ≡ some text
    → rebuilt block s from (m ∷ found)
      ≡ prepend
          (substring s from (m.location - from) ++ text)
          (rebuilt block s (behind_match m) found)
unfolding rebuilt
rebuilt-text block s text from m found arguments e f = ground (arith, e, f)

rebuilt-nil :
    (block : List Bytes → Option Bytes) (s : Bytes) (from : ℕ) (m : Match) (found : List Match)
    → match_groups s m ≡ none
    → rebuilt block s from (m ∷ found) ≡ nil_group
unfolding rebuilt
rebuilt-nil block s from m found e = ground (arith, e)

rebuilt-error :
    (block : List Bytes → Option Bytes) (s : Bytes) (from : ℕ) (m : Match) (found : List Match)
    (arguments : List Bytes)
    → match_groups s m ≡ some arguments
    → block arguments ≡ none
    → rebuilt block s from (m ∷ found) ≡ block_error
unfolding rebuilt
rebuilt-error block s from m found arguments e f = ground (arith, e, f)

-- The loop from a place on, with what stands before it in the copy already.
block_rounds-rebuilt :
    (block : List Bytes → Option Bytes) (s p : Bytes) (from put_in taken_out : ℕ)
    (found : List Match)
    → IsOrdered from (length s) found
    → length p + taken_out ≡ from + put_in
    → block_rounds block s found put_in taken_out (p ++ drop from s)
      ≡ prepend p (rebuilt block s from found)
block_rounds-rebuilt block s p from put_in taken_out [] h k = unfold block_rounds rebuilt in refl
block_rounds-rebuilt block s p from put_in taken_out (m ∷ found) h k =
    let result = p ++ drop from s in
    elim (Option-cases (match_groups s m)) [
      | inl nil ↦
          round-nil block s result m found put_in taken_out nil
          ∙ ap (prepend p) (sym (rebuilt-nil block s from m found nil))
      | inr (arguments, groups) ↦ elim (Option-cases (block arguments)) [
        | inl bad ↦
            round-error block s result m found put_in taken_out arguments groups bad
            ∙ ap (prepend p) (sym (rebuilt-error block s from m found arguments groups bad))
        | inr (text, value) ↦
            let piece = substring s from (m.location - from) ++ text in
            let end : behind_match m ≤ length s =
              IsOrdered-le (behind_match m) (length s) found h.1 in
            let size : length (substring s from (m.location - from)) ≡ m.location - from =
              length-between s from m.location h.0 (omega (arith, end)) in
            let count : length (p ++ piece) + (taken_out + m.size)
                ≡ behind_match m + (put_in + length text) =
              omega (
                arith,
                h.0,
                k,
                size,
                length-append p piece,
                length-append (substring s from (m.location - from)) text,
              ) in
            round-text block s result text m found put_in taken_out arguments groups value
            ∙ ap (block_rounds block s found (put_in + length text) (taken_out + m.size)) (
                replace_range-match p s text from (m.location + put_in - taken_out) m h.0
                  (omega (arith, h.0, k)))
            ∙ block_rounds-rebuilt block s (p ++ piece) (behind_match m) (put_in + length text)
                (taken_out + m.size) found h.1 count
            ∙ sym (prepend-prepend p piece (rebuilt block s (behind_match m) found))
            ∙ ap (prepend p) (sym (rebuilt-text block s text from m found arguments groups value))
      ]
    ]

prepend-nothing : (a : Answer Bytes) → prepend [] a ≡ a
prepend-nothing (gives t cache) = refl
prepend-nothing bad_pattern = refl
prepend-nothing nil_group = refl
prepend-nothing block_error = refl
prepend-nothing replace_error = refl

replace_with_block-rounds :
    (compile : Bytes → Option FsRegex) (block : List Bytes → Option Bytes) (s pattern : Bytes)
    (cache later : Cache) (regex : FsRegex)
    → get_regex compile pattern cache ≡ some (regex, later)
    → replace_with_block compile block s pattern cache
      ≡ with_cache later (block_rounds block s (all_matches regex s) 0 0 s)
unfolding replace_with_block
replace_with_block-rounds compile block s pattern cache later regex e = ground (arith, e)

-- The changes in place with their running offset come to the same as putting the string together from the
-- left: what stands between the matches of the original string, and for each match what the block gives
-- for its groups; with the same exception where a group took no part or the block raises one. This holds
-- if a match stays inside the range that is searched.
pub replace_with_block-rebuilt :
    (compile : Bytes → Option FsRegex) (block : List Bytes → Option Bytes) (s pattern : Bytes)
    (cache later : Cache) (regex : FsRegex)
    → get_regex compile pattern cache ≡ some (regex, later)
    → StaysInside (exec_on regex s)
    → replace_with_block compile block s pattern cache
      ≡ with_cache later (rebuilt block s 0 (all_matches regex s))
replace_with_block-rebuilt compile block s pattern cache later regex e law =
    let (ordered, _) = find_all-IsOrdered 0 0 (length s) (exec_on regex s) law (omega arith) in
    replace_with_block-rounds compile block s pattern cache later regex e
    ∙ ap (with_cache later) (
        block_rounds-rebuilt block s [] 0 0 0 (all_matches regex s) ordered (omega arith)
        ∙ prepend-nothing (rebuilt block s 0 (all_matches regex s)))
