-- ===== src/ClassModel/Super.antt =====
-- Calls of methods by their blocks, and of superclasses' methods: `runInstanceMethodArgs0` to
-- `classSuperMethodMulti` of FSClass/Callbacks.m. Objects are numbers.
pub mod Arguments
use fscript_extensions.Prelude.{
  ℕ, Bool, not, Option, none, some, List, length, get_elem?, ltb, leb, Bytes, [], ◌∷◌, ◌==◌,
  if◌then◌else◌,
}
use fscript_extensions.ClassModel.{Exception, Outcome, World, chain_of, done, raised}
use fscript_extensions.ClassModel.Introspection.{block_for_class_selector, block_for_selector}
use fscript_extensions.ClassModel.Creation.{class_for_pointer}
use fscript_extensions.Selector.{get_selector_parameter_count}
use fscript_extensions.ClassModel.Methods.{superclass_of}

-- What a method does in the end: `objc_msgSendSuper` from a class of the runtime (`nil` if there is no
-- superclass), or the call of a block with the receiver and the arguments.
pub data Call : Type 0 where
  send_super : ℕ → Option ℕ → Bytes → List ℕ → Call
  call_block : Option ℕ → List ℕ → Call

-- `runInstanceMethodArgs0` to `runInstanceMethodArgs11`, by the shadow of the receiver's class.
unfoldable pub run_instance_method : World → ℕ → ℕ → Bytes → List ℕ → Call
unfolding block_for_selector
run_instance_method w shadow this selector args =
    call_block (block_for_selector w.shadows (chain_of w.shadows shadow) selector) (this ∷ args)

-- `runClassMethodArgs0` to `runClassMethodArgs11`
unfoldable pub run_class_method : World → ℕ → ℕ → Bytes → List ℕ → Call
unfolding block_for_class_selector
run_class_method w shadow this selector args =
    call_block (block_for_class_selector w.shadows shadow selector) (this ∷ args)

-- `CHECK_SUPER_ARGS`, before the rest of the method.
abbrev pub check_super_args {ℓ} : {A : Type ℓ} → ℕ → Bytes → A → Outcome A
check_super_args count selector rest =
    if count == get_selector_parameter_count selector
    then done rest
    else raised Exception.wrong_parameter_count

-- The arguments that `superMethod0` to `superMethod5` pass on, and so `classSuperMethod0` to
-- `classSuperMethod5`.
abbrev pub passed_arguments : List ℕ → List ℕ
passed_arguments (a ∷ b ∷ c ∷ d ∷ e ∷ []) = a ∷ b ∷ c ∷ d ∷ []
passed_arguments args = args

-- `superMethod0` to `superMethod5`; the starting class's superclass is that of the metaclasses too.
unfoldable pub super_method : World → ℕ → ℕ → Bytes → List ℕ → Outcome Call
unfolding get_selector_parameter_count
super_method w receiver starting_class selector args =
    check_super_args (length args) selector
      (send_super receiver (superclass_of w starting_class) selector (passed_arguments args))

-- The parent's shadow of the class `p`.
abbrev pub parent_shadow : World → ℕ → Option ℕ
parent_shadow w p = elim (class_for_pointer w p) [
  | none ↦ none
  | some i ↦ elim (get_elem? w.shadows i) [ none ↦ none | some c ↦ c.parent_class ]
]

-- `superMethodMulti`, for a receiver of the class `p`, and `classSuperMethodMulti`, for the class `p`
-- as receiver. `max_args` is `TRAMPOLINE_MAX_ARG_COUNT`.
unfoldable pub super_method_multi : ℕ → Bool → World → ℕ → ℕ → ℕ → Bytes → List ℕ → Outcome Call
unfolding get_selector_parameter_count block_for_selector block_for_class_selector
super_method_multi max_args instance_method w receiver p starting_class selector args =
    if ltb 12 (length args)
    then raised Exception.too_many_arguments
    else if not (length args == get_selector_parameter_count selector)
    then raised Exception.wrong_parameter_count
    else if leb (length args) max_args
    then done (send_super receiver (superclass_of w starting_class) selector args)
    else elim (parent_shadow w p) [
      | none ↦ done (send_super receiver (superclass_of w starting_class) selector args)
      | some i ↦ done (
          call_block
            (if instance_method
              then block_for_selector w.shadows (chain_of w.shadows i) selector
              else block_for_class_selector w.shadows i selector)
            (receiver ∷ args))
    ]
