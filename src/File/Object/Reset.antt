-- ===== src/File/Object/Reset.antt =====
-- Reading all lines of a file after `reset` (fscript-CLI/FSFile.m).
use fscript_extensions.Prelude.{
  ℕ, zero, suc, refl, sym, ap, subst, true, Option, none, some, List, arith, inl, inr, length,
  Bytes, Option-cases, length-append, append-nil, append_assoc, [], ◌∷◌, ◌++◌, ◌+◌, ◌<◌, ◌≡◌, ◌∙◌,
  ◌≢◌,
}
use fscript_extensions.File.Object.{
  FsFile, Method, after_reading, answer, collect_lines, file_readlines, file_readln, reset,
  state_of, truncate_sustain_buffer, ◌>>◌,
}
use fscript_extensions.File.Reading.{IsNextLine, NoNull, text_of}
use fscript_extensions.File.Handle.{NsFileHandle, can_read, ns_seek}
use fscript_extensions.File.Object.Buffered.{
  Readable, Readable-after_reading, file_readln-answer, state_of-after_reading,
}
use fscript_extensions.File.Readlines.{lines-IsNextLine, readln_next_line}
use fscript_extensions.File.Lines.{lines_of}
use fscript_extensions.Stdin.{readln}
use fscript_extensions.File.{readln_with_separator}

collect-end :
    (fuel : ℕ) (readln : Method (Option Bytes)) (lines : List Bytes) (f g : FsFile)
    → readln f ≡ some (none, g)
    → collect_lines (suc fuel) readln lines f ≡ some (lines, g)
unfolding collect_lines
collect-end fuel readln lines f g e = ground (arith, e)

collect-line :
    (fuel : ℕ) (readln : Method (Option Bytes)) (lines : List Bytes) (f g : FsFile) (line : Bytes)
    → readln f ≡ some (some line, g)
    → collect_lines (suc fuel) readln lines f ≡ collect_lines fuel readln (lines ++ line ∷ []) g
unfolding collect_lines
collect-line fuel readln lines f g line e = ground (arith, e)

lines_of-empty : (c : ℕ) → lines_of c [] ≡ []
unfolding lines_of
lines_of-empty c = refl

-- The file after reading has nothing left, and still reads.
abbrev pub IsReadOut : FsFile → Type 0
IsReadOut f = (text_of (state_of f) ≡ []) × Readable f

collect-lines_of :
    (fuel c : ℕ) (lines : List Bytes) (f : FsFile)
    → c ≢ 0
    → length (text_of (state_of f)) < fuel
    → NoNull (state_of f).remaining
    → Readable f
    → (g : FsFile) × (collect_lines fuel (file_readln (c ∷ [])) lines f
        ≡ some (lines ++ lines_of c (text_of (state_of f)), g))
      × IsReadOut g
collect-lines_of zero c lines f nz l n may = absurd (omega arith)
collect-lines_of (suc fuel) c lines f nz l n may =
    let st = state_of f in
    let r = readln_with_separator (c ∷ []) st in
    let g = after_reading f r.1 in
    let (follows, later) = readln_next_line c st.remaining st.sustain_buffer nz n in
    let same = state_of-after_reading (c ∷ []) f in
    let answer = file_readln-answer c [] f may in
    let still = Readable-after_reading f r.1 may in
    elim (Option-cases r.0) [
      | inl e ↦
          let at_end : IsNextLine c (text_of st) none (text_of r.1) = rw e at follows in
          (
            g,
            collect-end fuel (file_readln (c ∷ [])) lines f g (rw (← e) answer)
                ∙ ap (λ ls. some (ls, g))
                    (sym (append-nil lines)
                      ∙ ap (λ ls. lines ++ ls) (sym (lines_of-empty c))
                      ∙ ap (λ s. lines ++ lines_of c s) (sym at_end.0)),
            (ap text_of same ∙ at_end.1, still),
          )
      | inr (line, e) ↦
          let here : IsNextLine c (text_of st) (some line) (text_of r.1) = rw e at follows in
          let (first, shorter) = lines-IsNextLine c (text_of st) line (text_of r.1) here in
          let (last, rest, out) =
            collect-lines_of fuel c (lines ++ line ∷ []) g nz
              (subst (λ s. length (text_of s) < fuel) (sym same) (omega (arith, l, shorter)))
              (subst (λ s. NoNull s.remaining) (sym same) later) still in
          (
            last,
            collect-line fuel (file_readln (c ∷ [])) lines f g line (rw (← e) answer)
                ∙ rest
                ∙ ap (λ ls. some (ls, last))
                    (append_assoc lines (line ∷ []) (lines_of c (text_of (state_of g)))
                      ∙ ap (λ s. lines ++ line ∷ lines_of c (text_of s)) same
                      ∙ ap (λ ls. lines ++ ls) (sym first)),
            out,
          )
    ]

-- `readlines` of a file whose handle may be read, from where it stands.
pub file_readlines-lines_of :
    (c : ℕ) (f : FsFile)
    → c ≢ 0
    → NoNull (state_of f).remaining
    → Readable f
    → (g : FsFile) × (file_readlines (c ∷ []) f ≡ some (lines_of c (text_of (state_of f)), g))
      × IsReadOut g
unfolding file_readlines
file_readlines-lines_of c f nz n may =
    collect-lines_of (suc (suc (length f.sustain_buffer + length (state_of f).remaining))) c [] f nz
      (omega (arith, length-append f.sustain_buffer (state_of f).remaining)) n may

-- `reset`, then `readlinesWithSeparator:`.
abbrev pub read_again : ℕ → Method (List Bytes)
read_again c = do reset; file_readlines (c ∷ [])

abbrev pub rewound : FsFile → NsFileHandle → FsFile
rewound f h = record {
  file_handle = some (record h { offset = 0 });
  location = f.location;
  sustain_buffer = [];
}

reset-rewound :
    (f : FsFile) (h : NsFileHandle)
    → f.file_handle ≡ some h
    → h.is_open ≡ true
    → reset f ≡ some (tt, rewound f h)
unfolding reset truncate_sustain_buffer ns_seek
reset-rewound f h e o = ground (arith, e, o)

read_again-rewound :
    (c : ℕ) (f : FsFile) (h : NsFileHandle)
    → f.file_handle ≡ some h
    → h.is_open ≡ true
    → read_again c f ≡ file_readlines (c ∷ []) (rewound f h)
read_again-rewound c f h e o =
    ap (λ m. elim m [ none ↦ none | some (_, g) ↦ file_readlines (c ∷ []) g ])
      (reset-rewound f h e o)

-- Whatever was read, written or buffered before, `reset` followed by `readlinesWithSeparator:` with a
-- separator of one character, other than the null, answers all lines of the file from its beginning,
-- if its handle is open for reading and the file holds no null; afterwards nothing is left to read.
pub reset-readlines :
    (c : ℕ) (f : FsFile) (h : NsFileHandle)
    → c ≢ 0
    → f.file_handle ≡ some h
    → can_read h ≡ true
    → NoNull h.contents
    → (g : FsFile) × (read_again c f ≡ some (lines_of c h.contents, g)) × IsReadOut g
reset-readlines c f h nz e may n =
    let is_open : h.is_open ≡ true = ground (arith, may) in
    let (g, answer, out) = file_readlines-lines_of c (rewound f h) nz n may in
    (g, read_again-rewound c f h e is_open ∙ answer, out)
