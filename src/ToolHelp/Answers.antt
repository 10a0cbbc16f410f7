-- ===== src/ToolHelp/Answers.antt =====
-- What unknown help messages are answered (fscript-CLI/FSToolHelp.m).
use fscript_extensions.Prelude.{
  suc, ap, none, some, arith, inl, inr, length, replicate, ltb, Bytes, codes, Bool-cases,
  length-replicate, ◌++◌, ◌+◌, ◌≤◌, ◌≡◌, ◌∙◌, ◌⊎◌,
}
use fscript_extensions.ToolHelp.{forward_invocation, method_signature_for_selector, unknown_message}
use fscript_extensions.Selector.{get_selector_parameter_count}

-- An unknown message with up to eight arguments is answered by a text, which names the message if it has
-- no argument, and with more arguments by an exception; the signature has one `@` for each argument.
pub unknown_message-cases :
    (selector : Bytes)
    → ((get_selector_parameter_count selector ≤ 8)
        × ((text : Bytes) × (unknown_message selector ≡ some text))
        × ((signature : Bytes) × (method_signature_for_selector selector ≡ some signature)
            × (length signature ≡ 3 + get_selector_parameter_count selector)))
      ⊎ ((9 ≤ get_selector_parameter_count selector) × (unknown_message selector ≡ none))
unfolding unknown_message method_signature_for_selector
unknown_message-cases selector = elim (Bool-cases (ltb 8 (get_selector_parameter_count selector))) [
  | inl e ↦ inr (ground (arith, e), ground (arith, e))
  | inr e ↦ inl (
    ground (arith, e),
    (forward_invocation selector, ground (arith, e)),
    (
      codes "@@:" ++ replicate (get_selector_parameter_count selector) b'@',
      ground (arith, e),
      ap (λ n. suc (suc (suc n))) (length-replicate (get_selector_parameter_count selector) b'@')
          ∙ omega arith,
    ),
  )
]
