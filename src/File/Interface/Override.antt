-- ===== src/File/Interface/Override.antt =====
-- The inherited methods of FSFile.m call the class's own `readlnWithSeparator:`.
use fscript_extensions.Prelude.{
  ℕ, zero, suc, refl, Bool, Option, none, some, List, arith, Bytes, [], ◌∷◌, ◌++◌, ◌≡◌,
}
use fscript_extensions.Stdin.{Input}
use fscript_extensions.File.Interface.{LineReading, Message, reading_by}
use fscript_extensions.File.Object.{collect_lines}
use fscript_extensions.Trampoline.Create.{lp64}
use fscript_extensions.Stdin.AtEnd.{stdin_at_end}
use fscript_extensions.File.Interface.Classes.{stdin_reading}

loop-never :
    {File : Type 0} (fuel : ℕ) (own : Message File (Option Bytes)) (before : List Bytes)
    (line : Bytes) (f : File)
    → own f ≡ some (some line, f)
    → collect_lines fuel own before f ≡ none
unfolding collect_lines
loop-never zero own before line f e = refl
loop-never (suc fuel) own before line f e =
    ground (arith, e, loop-never fuel own (before ++ line ∷ []) line f e)

-- A class whose `readlnWithSeparator:` answers the same line again and again without a change of the
-- file: no number of rounds lets `readlinesWithSeparator:` answer.
pub readlines-never :
    {File : Type 0} (rounds : File → ℕ) (own : Bytes → Message File (Option Bytes))
    (separator line : Bytes) (f : File)
    → own separator f ≡ some (some line, f)
    → LineReading.readlines_with_separator (reading_by rounds own) separator f ≡ none
readlines-never rounds own separator line f e = loop-never (rounds f) (own separator) [] line f e

-- So it is with `FSFileStdin` where text without a separator is left at the end of the input: reading
-- a line answers that text each time, and `readlinesWithSeparator:` never answers, however many rounds
-- it runs.
pub stdin_readlines-never :
    (lp64 : Bool) (rounds : ℕ) (separator : Bytes) (c : ℕ) (s : Bytes)
    → let st : Input = record { reads = []; buffer = c ∷ s } in
      let class = stdin_reading lp64 rounds in
      (LineReading.readln_with_separator class separator st ≡ some (some (c ∷ s), st))
      × (LineReading.readlines_with_separator class separator st ≡ none)
unfolding stdin_reading
stdin_readlines-never lp64 rounds separator c s =
    let (again, _) = stdin_at_end lp64 rounds separator c s in
    let st : Input = record { reads = []; buffer = c ∷ s } in
    let own = λ (sep : Bytes) (i : Input).
      LineReading.readln_with_separator (stdin_reading lp64 rounds) sep i in
    let e : own separator st ≡ some (some (c ∷ s), st) = ground (arith, again) in
    (e, readlines-never (λ _. rounds) own separator (c ∷ s) st e)
