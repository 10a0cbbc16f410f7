-- ===== src/File/RoundTrip.antt =====
-- Lines written by `println:` and read again (fscript-CLI/FSFile.m).
use fscript_extensions.Prelude.{
  refl, sym, ap, List, arith, Bytes, append-nil, append_assoc, [], ◌∷◌, ◌++◌, ◌≡◌, ◌∙◌,
}
use fscript_extensions.File.Lines.{Lacks, lines_of, lines_of-line}
use fscript_extensions.File.Reading.{Lacks-append, NoNull}
use fscript_extensions.File.{print_lines, readlines_with_separator}
use fscript_extensions.File.Readlines.{readlines-lines_of}

-- Lines without a newline or a null.
abbrev pub AllPlain : List Bytes → Type 0
AllPlain [] = Unit
AllPlain (line ∷ lines) = Lacks b'\n' line × NoNull line × AllPlain lines

print_lines-append :
    (lines : List Bytes) (written : Bytes)
    → print_lines lines written ≡ written ++ print_lines lines []
unfolding print_lines
print_lines-append [] written = sym (append-nil written)
print_lines-append (line ∷ lines) written =
    let own = line ++ b'\n' ∷ [] in
    print_lines-append lines (written ++ own)
    ∙ append_assoc written own (print_lines lines [])
    ∙ ap (λ r. written ++ r) (sym (print_lines-append lines own))

pub print_lines-cons :
    (line : Bytes) (lines : List Bytes)
    → print_lines (line ∷ lines) [] ≡ line ++ b'\n' ∷ print_lines lines []
unfolding print_lines
print_lines-cons line lines =
    print_lines-append lines (line ++ b'\n' ∷ [])
    ∙ append_assoc line (b'\n' ∷ []) (print_lines lines [])

pub lines_of-print_lines :
    (lines : List Bytes) → AllPlain lines → lines_of b'\n' (print_lines lines []) ≡ lines
lines_of-print_lines [] h = unfold lines_of print_lines in refl
lines_of-print_lines (line ∷ lines) h =
    rw (print_lines-cons line lines, lines_of-line b'\n' line (print_lines lines []) h.0)
      (ap (λ r. line ∷ r) (lines_of-print_lines lines h.2))

pub print_lines-NoNull : (lines : List Bytes) → AllPlain lines → NoNull (print_lines lines [])
print_lines-NoNull [] h = unfold print_lines in tt
print_lines-NoNull (line ∷ lines) h = rw (print_lines-cons line lines) (
    Lacks-append 0 line (b'\n' ∷ print_lines lines []) h.1
      (λ e. ground (arith, e), print_lines-NoNull lines h.2))

-- Lines without newlines and nulls that are written with `println:` into an empty file are read back
-- by `readlines`, empty ones and long ones included.
pub readlines-print_lines :
    (lines : List Bytes)
    → AllPlain lines
    → readlines_with_separator
        (b'\n' ∷ [])
        (record { remaining = print_lines lines []; sustain_buffer = [] })
      ≡ lines
readlines-print_lines lines h =
    readlines-lines_of b'\n' (record { remaining = print_lines lines []; sustain_buffer = [] })
      (λ e. ground (arith, e)) (print_lines-NoNull lines h)
    ∙ lines_of-print_lines lines h
