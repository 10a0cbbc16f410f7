-- ===== src/ClassModel/Methods.antt =====
-- Installing methods: `_installMethod:...`, `_onMessage:do:instanceMethod:` and the methods that call
-- it, of FSClass/FSClass.m. A selector is given by its name.
pub mod Dispatch
pub mod Answer
use fscript_extensions.Prelude.{
  ℕ, zero, suc, Bool, true, false, not, Option, none, some, get_elem?, leb, Bytes, ◌==◌,
  if◌then◌else◌,
}
use fscript_extensions.Dictionary.{Dict, object_for, set_object, string_key, pointer_key}
use fscript_extensions.ClassModel.{
  Exception, FsClass, Imp, Outcome, RuntimeClass, World, done, raised, update_at, ◌>>=◌,
}
use fscript_extensions.ClassModel.Creation.{add_method, with_shadow}
use fscript_extensions.Selector.{get_selector_parameter_count, is_legit_selector}

-- A block, with the number of its arguments.
pub record Block : Type 0 where
  pub id : ℕ
  pub argument_count : ℕ

-- The table of the class's own methods, or of its metaclass's.
abbrev pub table_of : Bool → RuntimeClass → Dict Bytes Imp
table_of true k = k.imps
table_of false k = k.meta_imps

abbrev pub with_table : Bool → (Dict Bytes Imp → Dict Bytes Imp) → RuntimeClass → RuntimeClass
with_table true f k = record k { imps = f k.imps }
with_table false f k = record k { meta_imps = f k.meta_imps }

abbrev pub own_imp : Bool → World → ℕ → Bytes → Option Imp
own_imp instance_method w p selector = elim (get_elem? w.runtime p) [
  | none ↦ none
  | some k ↦ object_for selector (table_of instance_method k)
]

abbrev pub superclass_of : World → ℕ → Option ℕ
superclass_of w p = elim (get_elem? w.runtime p) [ none ↦ none | some k ↦ k.superclass ]

-- The class that `class_getInstanceMethod` or `class_getClassMethod` finds a method in: the class or
-- the next of its superclasses. A superclass is older, so that the class's number is enough fuel.
unfoldable pub method_class : ℕ → Bool → World → ℕ → Bytes → Option ℕ
method_class zero instance_method w p selector = elim (own_imp instance_method w p selector) [
  | some _ ↦ some p
  | none ↦ none
]
method_class (suc fuel) instance_method w p selector = elim (own_imp instance_method w p selector) [
  | some _ ↦ some p
  | none ↦ elim (superclass_of w p) [
    | none ↦ none
    | some q ↦ method_class fuel instance_method w q selector
  ]
]

-- `method_setImplementation`
abbrev pub set_implementation : Bool → Option ℕ → Bytes → Imp → World → World
set_implementation instance_method none selector imp w = w
set_implementation instance_method (some p) selector imp w = record w {
  runtime = update_at p (with_table instance_method (set_object selector imp)) w.runtime;
}

-- `methods` or `classMethods`.
abbrev pub blocks_of : Bool → FsClass → Dict Bytes ℕ
blocks_of true c = c.methods
blocks_of false c = c.class_methods

abbrev pub with_blocks : Bool → (Dict Bytes ℕ → Dict Bytes ℕ) → FsClass → FsClass
with_blocks true f c = record c { methods = f c.methods }
with_blocks false f c = record c { class_methods = f c.class_methods }

-- Adds a method to the class of the shadow `c`; one that the shadow has a block for is replaced.
unfoldable pub put_method : World → FsClass → Imp → Bool → Bytes → World
unfolding method_class
put_method w c imp instance_method selector =
    let p = c.class_object in
    elim (object_for selector (blocks_of instance_method c)) [
      | none ↦ record w {
        runtime = update_at p (with_table instance_method (add_method selector imp)) w.runtime;
      }
      | some _ ↦
          set_implementation instance_method (method_class p instance_method w p selector) selector
            imp w
    ]

abbrev pub mark_tramped : Bytes → Bool → FsClass → FsClass
mark_tramped selector uses_trampoline c = record c {
  tramped_methods = set_object selector uses_trampoline c.tramped_methods;
}

-- `_installMethod:asInstanceMethod:argCount:selector:usesTrampoline:` of the shadow `i`, which is `c`.
-- The method's signature follows from the number of arguments.
unfoldable pub install_method : World → ℕ → FsClass → Imp → Bool → Bytes → Bool → World
unfolding put_method
install_method w i c imp instance_method selector uses_trampoline =
    with_shadow i (mark_tramped selector uses_trampoline)
      (put_method w c imp instance_method selector)

-- The implementation for a block, and whether it is a trampoline. `max_args` is
-- `TRAMPOLINE_MAX_ARG_COUNT`.
unfoldable pub implementation : ℕ → Bool → ℕ → ℕ → Outcome (Imp × Bool)
implementation max_args instance_method args block =
    if leb args max_args
    then done (Imp.trampoline args block, true)
    else if leb args 11
    then done
        (if instance_method then Imp.run_instance_method args else Imp.run_class_method args, false)
    else raised Exception.too_many_arguments

-- `_onMessage:do:instanceMethod:` of the shadow `i`; the block is nothing for any other object.
unfoldable pub on_message : ℕ → World → ℕ → FsClass → Bytes → Option Block → Bool → Outcome World
unfolding implementation install_method get_selector_parameter_count
on_message max_args w i c selector none instance_method = raised Exception.not_a_block
on_message max_args w i c selector (some block) instance_method =
    let args = get_selector_parameter_count selector in
    if not (suc args == block.argument_count)
    then raised Exception.wrong_parameter_count
    else implementation max_args instance_method args block.id >>= λ r. done (
        with_shadow i (with_blocks instance_method (set_object selector block.id))
          (install_method w i c r.0 instance_method selector r.1))

-- `onMessageName:do:`
unfoldable pub on_message_name : ℕ → World → ℕ → FsClass → Bytes → Option Block → Outcome World
unfolding is_legit_selector on_message
on_message_name max_args w i c name block =
    if not (is_legit_selector name)
    then raised Exception.illegal_message_name
    else on_message max_args w i c name block true
