-- ===== src/File/Object/Written.antt =====
-- Lines written by `println:` and read again through one file (fscript-CLI/FSFile.m).
use fscript_extensions.Prelude.{
  ℕ, suc, refl, sym, ap, true, Option, none, some, List, arith, length, take, drop, Bytes,
  length-append, append-nil, append_assoc, [], ◌∷◌, ◌++◌, ◌+◌, ◌-◌, ◌≡◌, ◌∙◌,
}
use fscript_extensions.File.RoundTrip.{
  AllPlain, lines_of-print_lines, print_lines-NoNull, print_lines-cons,
}
use fscript_extensions.File.Object.{FsFile, Method, answer, newln, print, println, ◌>>◌}
use fscript_extensions.File.Object.Reset.{IsReadOut, read_again, reset-readlines}
use fscript_extensions.File.Handle.{NsFileHandle, can_read, can_write, ns_write, written_at}
use fscript_extensions.File.Object.Buffered.{drop-empty}
use fscript_extensions.File.Lines.{lines_of}
use fscript_extensions.File.{print_lines}

pub take-length : (s : Bytes) → take (length s) s ≡ s
take-length [] = refl
take-length (x ∷ s) = ap (λ r. x ∷ r) (take-length s)

drop-beyond : (s : Bytes) (n : ℕ) → drop (length s + n) s ≡ []
drop-beyond [] n = drop-empty (0 + n)
drop-beyond (x ∷ s) n =
    ap (λ k. drop k (x ∷ s)) {x = length (x ∷ s) + n} {y = suc (length s + n)} (omega arith)
    ∙ drop-beyond s n

-- At the end of its contents a handle appends.
pub written_at-end :
    (contents text : Bytes) → written_at (length contents) text contents ≡ contents ++ text
written_at-end contents text =
    let no_gap : length contents - length contents ≡ 0 = omega arith in
    rw (take-length contents, drop-beyond contents (length text), no_gap, append-nil text) refl

-- A file whose handle is open for writing and stands at the end.
abbrev pub IsAppending : FsFile → NsFileHandle → Type 0
IsAppending f h = (f.file_handle ≡ some h) × (can_write h ≡ true) × (h.offset ≡ length h.contents)

abbrev pub appended : Bytes → NsFileHandle → NsFileHandle
appended text h = record h { contents = h.contents ++ text; offset = length (h.contents ++ text) }

abbrev pub with_handle : NsFileHandle → FsFile → FsFile
with_handle h f = record f { file_handle = some h }

pub print-appended :
    (text : Bytes) (f : FsFile) (h : NsFileHandle)
    → IsAppending f h
    → print text f ≡ some (tt, with_handle (appended text h) f)
unfolding print ns_write
print-appended text f h (here, may, at_end) =
    let contents : written_at h.offset text h.contents ≡ h.contents ++ text =
      rw at_end (written_at-end h.contents text) in
    let offset : h.offset + length text ≡ length (h.contents ++ text) =
      omega (arith, at_end, length-append h.contents text) in
    ground (arith, here, may, contents, offset)

-- `println:` of every line.
unfoldable pub println_all : List Bytes → Method (Unit {0})
unfolding println
println_all [] = answer tt
println_all (line ∷ lines) = do println line; println_all lines

after : {A : Type 0} → Option (Unit {0} × FsFile) → Method A → Option (A × FsFile)
after m k = elim m [ none ↦ none | some (_, g) ↦ k g ]

appended_twice : (s t : Bytes) (h : NsFileHandle) → appended t (appended s h) ≡ appended (s ++ t) h
appended_twice s t h =
    ap (λ c. record h { contents = c; offset = length c }) (append_assoc h.contents s t)

println-appended :
    (line : Bytes) (f : FsFile) (h : NsFileHandle)
    → IsAppending f h
    → println line f ≡ some (tt, with_handle (appended (line ++ b'\n' ∷ []) h) f)
unfolding println newln print after
println-appended line f h (here, may, at_end) =
    let second : IsAppending (with_handle (appended line h) f) (appended line h) =
      (refl, may, refl) in
    ap (λ m. after m newln) (print-appended line f h (here, may, at_end))
    ∙ print-appended (b'\n' ∷ []) (with_handle (appended line h) f) (appended line h) second
    ∙ ap (λ g. some (tt, with_handle g f)) (appended_twice line (b'\n' ∷ []) h)

print_lines-nothing : print_lines [] [] ≡ []
unfolding print_lines
print_lines-nothing = refl

println_all-appended :
    (lines : List Bytes) (f : FsFile) (h : NsFileHandle)
    → IsAppending f h
    → println_all lines f ≡ some (tt, with_handle (appended (print_lines lines []) h) f)
unfolding println_all after
println_all-appended [] f h a = ground (arith, a.0, a.2, append-nil h.contents, print_lines-nothing)
println_all-appended (line ∷ lines) f h a =
    let own = line ++ b'\n' ∷ [] in
    let next : IsAppending (with_handle (appended own h) f) (appended own h) = (refl, a.1, refl) in
    ap (λ m. after m (println_all lines)) (println-appended line f h a)
    ∙ println_all-appended lines (with_handle (appended own h) f) (appended own h) next
    ∙ ap (λ g. some (tt, with_handle g f))
        (appended_twice own (print_lines lines []) h
          ∙ ap (λ s. appended s h)
              (append_assoc line (b'\n' ∷ []) (print_lines lines [])
                ∙ sym (print_lines-cons line lines)))

-- All lines written by `println:`, then `reset`, then `readlines`.
abbrev pub write_and_read : List Bytes → Method (List Bytes)
write_and_read lines = do println_all lines; read_again b'\n'

-- Lines without newlines and nulls that `println:` writes through a file open for reading and writing
-- whose file is empty are what `reset` and `readlines` answer through the same file.
pub println-readlines :
    (lines : List Bytes) (f : FsFile) (h : NsFileHandle)
    → AllPlain lines
    → IsAppending f h
    → can_read h ≡ true
    → h.contents ≡ []
    → (g : FsFile) × (write_and_read lines f ≡ some (lines, g)) × IsReadOut g
unfolding after
println-readlines lines f h plain a may empty =
    let written = appended (print_lines lines []) h in
    let text : written.contents ≡ print_lines lines [] = rw empty refl in
    let (g, answer, out) =
      reset-readlines b'\n' (with_handle written f) written (λ e. ground (arith, e)) refl may
        (rw text (print_lines-NoNull lines plain)) in
    (
      g,
      ap (λ m. after m (read_again b'\n')) (println_all-appended lines f h a)
          ∙ answer
          ∙ ap (λ ls. some (ls, g)) (ap (lines_of b'\n') text ∙ lines_of-print_lines lines plain),
      out,
    )
