-- ===== src/Tests/Sessions.antt =====
-- Sessions of the interpreter at concrete inputs.
use fscript_extensions.Prelude.{
  ℕ, suc, refl, false, some, List, Bytes, codes, get_elem?, replicate, [], ◌∷◌, ◌++◌, ◌≡◌,
}
use fscript_extensions.Interpreter.{
  Execution, Objects, caret, fresh_session, measured, prompt, read_line, result_value,
}
use fscript_extensions.Interpreter.Commands.{commands}
use fscript_extensions.Format.{Value, formatted}
use fscript_extensions.Interpreter.Caret.{caret-under}
use fscript_extensions.Regex.Matches.{count}
use fscript_extensions.Selector.{count_colons, get_selector_parameter_count}
use fscript_extensions.ToolHelp.{forward_invocation, method_signature_for_selector, unknown_message}
use fscript_extensions.Nestings.{
  buffer, c_string_in, find_nestings, nesting_round, nesting_rounds, null_pointer, start,
}

-- An object that answers a text and a number.
abbrev answering : Bytes → ℕ → Value
answering s n = record {
  text = s;
  description = s;
  unichar_string = [];
  is_negative = false;
  magnitude = n;
  width_value = n;
  pointer = 0;
  required_chars = λ b. 0;
  float_text = λ d c. [];
}

abbrev plain_objects : Objects
plain_objects = record { number = λ n. answering [] n; string = λ s. answering s 0 }

abbrev echo : Bytes → ℕ → Execution × ℕ
echo command count = (result_value command, suc count)

abbrev typed : List Bytes
typed = codes "{1,\n" ∷ codes "2}\n" ∷ codes "(3\n" ∷ []

abbrev zeroed : ℕ → Bytes
zeroed k = replicate 80 0

-- One command of two lines is complete, and the third line waits.
one_command : (commands zeroed typed fresh_session).0 ≡ codes "{1,\n2}\n" ∷ []
unfolding commands read_line measured find_nestings nesting_rounds nesting_round start c_string_in
one_command = refl

-- What a line has closed is open again in the next one.
waits_on :
    (commands zeroed (codes "(()\n" ∷ codes ")\n" ∷ []) fresh_session).1.current_command
    ≡ codes "(()\n)\n"
unfolding commands read_line measured find_nestings nesting_rounds nesting_round start c_string_in
waits_on = refl

caret-under_example :
    (caret plain_objects 2 ≡ formatted (codes "            ^\n"))
    × ((line : Bytes) × (prompt false fresh_session ≡ some line)
        × (get_elem? (line ++ codes "1 +\n") 12 ≡ get_elem? (codes "1 +\n") 2))
caret-under_example = caret-under plain_objects 2 (codes "1 +\n") (λ n. refl) (λ s. refl)

-- An apostrophe in a comment opens a string, which the end of the comment closes instead of it.
apostrophe_in_comment :
    find_nestings (replicate 80 0) null_pointer (codes "\"don't\"\n")
    ≡ buffer (b'"' ∷ b'\'' ∷ replicate 78 0)
unfolding find_nestings nesting_rounds nesting_round start
apostrophe_in_comment = refl

help_foo : unknown_message (codes "foo") ≡ some (codes "There is no help avavilable for 'foo'")
unfolding unknown_message method_signature_for_selector forward_invocation
    get_selector_parameter_count count_colons
help_foo = refl
