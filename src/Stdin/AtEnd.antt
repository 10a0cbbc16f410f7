-- ===== src/Stdin/AtEnd.antt =====
-- The end of the standard input (fscript-CLI/FSFileStdin.m).
use fscript_extensions.Prelude.{ℕ, zero, suc, refl, ap, Bool, some, replicate, Bytes, [], ◌∷◌, ◌≡◌}
use fscript_extensions.Stdin.{line_read, readln, stdin_lines, stdin_rounds}
use fscript_extensions.Trampoline.Create.{lp64}

-- If text without a final separator is left at the end of the input, reading a line returns it and
-- leaves it in the buffer, so that the loop of `readlinesWithSeparator:` never ends: in any number of
-- rounds it collects as many copies.
pub stdin_at_end :
    (lp64 : Bool) (fuel : ℕ) (separator : Bytes) (c : ℕ) (s : Bytes)
    → (readln lp64 separator (record { reads = []; buffer = c ∷ s })
        ≡ line_read (some (c ∷ s)) (record { reads = []; buffer = c ∷ s }))
      × (stdin_lines lp64 fuel separator (record { reads = []; buffer = c ∷ s })
          ≡ replicate fuel (c ∷ s))
unfolding readln stdin_rounds stdin_lines
stdin_at_end lp64 zero separator c s = (refl, refl)
stdin_at_end lp64 (suc fuel) separator c s =
    (refl, ap (λ ls. (c ∷ s) ∷ ls) (stdin_at_end lp64 fuel separator c s).1)
