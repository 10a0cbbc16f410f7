-- ===== src/File/Readlines.antt =====
-- Whole lines of a file (fscript-CLI/FSFile.m).
use fscript_extensions.Prelude.{
  ℕ, zero, suc, refl, ap, none, some, arith, inl, inr, length, Bytes, Option-cases, length-append,
  append_assoc, [], ◌∷◌, ◌++◌, ◌+◌, ◌<◌, ◌≡◌, ◌∙◌, ◌≢◌,
}
use fscript_extensions.File.Reading.{
  Answers, IsNextLine, NoNull, rounds-Answers, split_at-one, text_of,
}
use fscript_extensions.File.{
  State, read_lines, read_rounds, readlines_with_separator, readln_with_separator, split_at,
}
use fscript_extensions.Trampoline.Ppc.Dispatch.{found}
use fscript_extensions.File.Lines.{lines_of, lines_of-last, lines_of-line}

readln-buffered :
    (c : ℕ) (remaining sustain before after : Bytes)
    → split_at (c ∷ []) sustain ≡ some (before, after)
    → readln_with_separator (c ∷ []) (record { remaining = remaining; sustain_buffer = sustain })
      ≡ (some before, record { remaining = remaining; sustain_buffer = after })
unfolding readln_with_separator
readln-buffered c remaining sustain before after h = ground (arith, h)

readln-rounds :
    (c : ℕ) (remaining sustain : Bytes)
    → split_at (c ∷ []) sustain ≡ none
    → readln_with_separator (c ∷ []) (record { remaining = remaining; sustain_buffer = sustain })
      ≡ read_rounds
          (suc (length remaining))
          (c ∷ [])
          (record { remaining = remaining; sustain_buffer = sustain })
unfolding readln_with_separator
readln-rounds c remaining sustain h = ground (arith, h)

-- With a separator of one character other than the null, `readlnWithSeparator:` returns the next line
-- of what is buffered and what is left of the file, without its separator; the rest if there is no
-- separator any more; and `nil` only at the end. It keeps everything behind the line for the next
-- call.
pub readln_next_line :
    (c : ℕ) (remaining sustain : Bytes)
    → c ≢ 0
    → NoNull remaining
    → Answers c (sustain ++ remaining) (
        readln_with_separator (c ∷ []) (record { remaining = remaining; sustain_buffer = sustain }))
readln_next_line c remaining sustain nz n = elim (split_at-one c sustain) [
  | inl (nothing, clean) ↦
      rw (readln-rounds c remaining sustain nothing)
        (rounds-Answers (suc (length remaining)) c remaining sustain nz (omega arith) n clean)
  | inr (before, after, found, clean, parts) ↦
      rw (readln-buffered c remaining sustain before after found) (
        (clean, inl (ap (λ r. r ++ remaining) parts ∙ append_assoc before (c ∷ after) remaining)),
        n,
      )
]

read_lines-none :
    (fuel : ℕ) (separator : Bytes) (st : State)
    → (readln_with_separator separator st).0 ≡ none
    → read_lines (suc fuel) separator st ≡ []
unfolding read_lines
read_lines-none fuel separator st h = ground (arith, h)

read_lines-some :
    (fuel : ℕ) (separator : Bytes) (st : State) (line : Bytes)
    → (readln_with_separator separator st).0 ≡ some line
    → read_lines (suc fuel) separator st
      ≡ line ∷ read_lines fuel separator (readln_with_separator separator st).1
unfolding read_lines
read_lines-some fuel separator st line h = ground (arith, h)

-- One line less, by either kind of line.
pub lines-IsNextLine :
    (c : ℕ) (text line rest : Bytes)
    → IsNextLine c text (some line) rest
    → (lines_of c text ≡ line ∷ lines_of c rest) × (length rest < length text)
lines-IsNextLine c text line rest (clean, inl e) =
    rw e (lines_of-line c line rest clean, omega (arith, length-append line (c ∷ rest)))
lines-IsNextLine c text [] rest (clean, inr (e, some_line, empty)) = absurd (some_line refl)
lines-IsNextLine c text (x ∷ line) rest (clean, inr (e, _, empty)) =
    rw (e, empty) (unfold lines_of in lines_of-last c x line clean, omega arith)

read_lines-lines_of :
    (fuel c : ℕ) (st : State)
    → c ≢ 0
    → length (text_of st) < fuel
    → NoNull st.remaining
    → read_lines fuel (c ∷ []) st ≡ lines_of c (text_of st)
read_lines-lines_of zero c st nz f n = absurd (omega arith)
read_lines-lines_of (suc fuel) c st nz f n =
    let (follows, later) = readln_next_line c st.remaining st.sustain_buffer nz n in
    let r = readln_with_separator (c ∷ []) st in
    elim (Option-cases r.0) [
      | inl e ↦
          let at_end : IsNextLine c (text_of st) none (text_of r.1) = rw e at follows in
          rw (read_lines-none fuel (c ∷ []) st e, at_end.0) (unfold lines_of in refl)
      | inr (line, e) ↦
          let here : IsNextLine c (text_of st) (some line) (text_of r.1) = rw e at follows in
          let (first, shorter) = lines-IsNextLine c (text_of st) line (text_of r.1) here in
          rw (read_lines-some fuel (c ∷ []) st line e, first)
            (ap (λ ls. line ∷ ls)
              (read_lines-lines_of fuel c r.1 nz (omega (arith, f, shorter)) later))
    ]

-- With a separator of one character other than the null, `readlinesWithSeparator:` ends and returns
-- exactly the lines of what is buffered and what is left of the file, wherever the chunks of 99
-- characters end, if no null is left in the file.
pub readlines-lines_of :
    (c : ℕ) (st : State)
    → c ≢ 0
    → NoNull st.remaining
    → readlines_with_separator (c ∷ []) st ≡ lines_of c (text_of st)
unfolding readlines_with_separator
readlines-lines_of c st nz n =
    read_lines-lines_of (suc (length st.sustain_buffer + length st.remaining)) c st nz
      (omega (arith, length-append st.sustain_buffer st.remaining)) n
