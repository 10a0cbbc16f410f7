-- ===== src/ClassModel/Methods/Answer.antt =====
-- Which implementation answers a message after `onMessage:do:` of FSClass/FSClass.m.
use fscript_extensions.Prelude.{
  ℕ, suc, refl, Bool, Option, none, some, arith, inl, inr, get_elem?, Bytes, ◌≤◌, ◌≡◌, ◌≢◌, ◌⊎◌,
}
use fscript_extensions.ClassModel.Methods.{Block, blocks_of, on_message, own_imp, table_of}
use fscript_extensions.ClassModel.{FsClass, Imp, RuntimeClass, World, done}
use fscript_extensions.ClassModel.Methods.Dispatch.{
  after_message, block-kept, new_imp, on_message-done, put_again, put_new, put_over_accessor,
}
use fscript_extensions.Selector.{get_selector_parameter_count}
use fscript_extensions.Dictionary.{object_for, string_key, pointer_key}

-- The implementation of a selector, by the block that the shadow had for it, the method that the class
-- had, and the new one.
abbrev pub answer : Option ℕ → Option Imp → Imp → Imp
answer none none imp = imp
answer none (some old) imp = old
answer (some _) _ imp = imp

-- `onMessage:do:` and `onClassMessage:do:` accept a block with one argument more than the selector has
-- parameters, record it, and make a trampoline to it the class's own method, in place of an earlier
-- block's; but if the method is there and is no block's, such as a property's accessor, it stays.
pub on_message-answer :
    (max_args : ℕ) (w : World) (i : ℕ) (c : FsClass) (k : RuntimeClass) (selector : Bytes)
    (block : Block) (b : Bool)
    → get_elem? w.shadows i ≡ some c
    → get_elem? w.runtime c.class_object ≡ some k
    → suc (get_selector_parameter_count selector) ≡ block.argument_count
    → get_selector_parameter_count selector ≤ max_args
    → (object_for selector (blocks_of b c) ≡ none) ⊎ (object_for selector (table_of b k) ≢ none)
    → (new : World) × (d : FsClass) × (on_message max_args w i c selector (some block) b ≡ done new)
      × (get_elem? new.shadows i ≡ some d)
      × (object_for selector (blocks_of b d) ≡ some block.id)
      × (own_imp b new c.class_object selector
          ≡ some (
              answer
                (object_for selector (blocks_of b c))
                (object_for selector (table_of b k))
                (Imp.trampoline (get_selector_parameter_count selector) block.id)))
on_message-answer max_args w i c k selector block b at_shadow at_class counted fits kept =
    let imp = Imp.trampoline (get_selector_parameter_count selector) block.id in
    let (d, at_new, recorded) = block-kept max_args w i c selector block b at_shadow counted fits in
    (
      after_message max_args w i c selector block b at_shadow counted fits,
      d,
      on_message-done max_args w i c selector block b at_shadow counted fits,
      at_new,
      recorded,
      answers (object_for selector (blocks_of b c)) (object_for selector (table_of b k)) refl refl
          kept,
    )
  where
    answers :
        (old_block : Option ℕ) (old : Option Imp)
        → object_for selector (blocks_of b c) ≡ old_block
        → object_for selector (table_of b k) ≡ old
        → (old_block ≡ none) ⊎ (old ≢ none)
        → new_imp b w c k selector
            (Imp.trampoline (get_selector_parameter_count selector) block.id)
            at_class
          ≡ some (
              answer old_block old
                (Imp.trampoline (get_selector_parameter_count selector) block.id))
    answers none none e f h = put_new b w c k selector _ at_class e f
    answers none (some old) e f h = put_over_accessor b w c k selector _ at_class old e f
    answers (some id) (some old) e f h = put_again b w c k selector _ at_class id old e f
    answers (some id) none e f (inl h) = ground (arith, h)
    answers (some id) none e f (inr h) = absurd (h refl)
