-- ===== src/Format/Interface.antt =====
-- What fscript-CLI/StringSprintf.h declares and describes, and `sprintf:` as that.
use fscript_extensions.Prelude.{List, Bytes}
use fscript_extensions.Format.{Formatted, Value, sprintf}

-- The category of NSString: a format is given an array of values.
pub record StringSprintf : Type 0 where
  pub sprintf : Bytes → List Value → Formatted

unfoldable pub string_sprintf : StringSprintf
unfolding sprintf
string_sprintf = record { sprintf = sprintf }
