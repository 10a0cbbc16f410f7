-- ===== src/Tests/Files.antt =====
-- Opening and reading files at concrete inputs.
use fscript_extensions.Prelude.{refl, true, some, arith, codes, [], ◌∷◌, ◌≡◌}
use fscript_extensions.File.RoundTrip.{AllPlain}
use fscript_extensions.File.Reading.{NoNull, text_of}
use fscript_extensions.File.{State, readlines_with_separator}
use fscript_extensions.File.Lines.{lines_of}
use fscript_extensions.File.Open.{mode_flags, open_mode, opened}
use fscript_extensions.File.Readlines.{readlines-lines_of}

plain : AllPlain (codes "ab" ∷ [] ∷ [])
plain = (
  (λ e. ground (arith, e), (λ e. ground (arith, e), tt)),
  (λ e. ground (arith, e), (λ e. ground (arith, e), tt)),
  (tt, tt, tt),
)

abbrev half_read : State
half_read = record { remaining = codes "b,c"; sustain_buffer = codes "a" }

half_read-NoNull : NoNull half_read.remaining
half_read-NoNull = (λ e. ground (arith, e), (λ e. ground (arith, e), (λ e. ground (arith, e), tt)))

readlines-lines_of_example :
    readlines_with_separator (b',' ∷ []) half_read ≡ lines_of b',' (text_of half_read)
readlines-lines_of_example =
    readlines-lines_of b',' half_read (λ e. ground (arith, e)) half_read-NoNull

ab_opened : open_mode (λ _. true) true (some (codes "ab")) (codes "<+") ≡ opened (codes "ab") 0
unfolding open_mode mode_flags
ab_opened = refl
