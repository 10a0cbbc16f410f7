-- ===== src/Format/Fields.antt =====
-- Formats made of text and of string directives (fscript-CLI/StringSprintf.m).
use fscript_extensions.Prelude.{some, List, Bytes, [], ◌∷◌, ◌++◌}
use fscript_extensions.Format.{Formatted, Value, finish, not_enough_values}
use fscript_extensions.File.Lines.{Lacks}
use fscript_extensions.Selector.{until_null}

abbrev pub NoPercent : Bytes → Type 0
NoPercent s = Lacks b'%' s

-- A format of texts, each but the last one followed by `%s`, and what it gives for values.
abbrev pub format_of : List Bytes → Bytes → Bytes
format_of [] tail = tail
format_of (s ∷ texts) tail = s ++ (b'%' ∷ b's' ∷ format_of texts tail)

abbrev pub filled : List Bytes → Bytes → List Value → Bytes → Formatted
filled [] tail values out = finish values (some (out ++ tail))
filled (s ∷ texts) tail [] out = not_enough_values
filled (s ∷ texts) tail (v ∷ values) out =
    filled texts tail values ((out ++ s) ++ until_null v.text)

abbrev pub AllNoPercent : List Bytes → Type 0
AllNoPercent [] = Unit
AllNoPercent (s ∷ texts) = NoPercent s × AllNoPercent texts
