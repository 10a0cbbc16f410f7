-- ===== src/ClassModel/Methods/Dispatch.antt =====
-- What a class answers a message with after `onMessage:do:` of FSClass/FSClass.m.
use fscript_extensions.Prelude.{
  ℕ, zero, suc, refl, ap, Bool, true, false, Option, none, some, arith, inl, inr, get_elem?, leb,
  Bytes, Option-cases, ==_iff, ◌≤◌, ◌≡◌, ◌∙◌, ◌==◌,
}
use fscript_extensions.ClassModel.Methods.{
  Block, blocks_of, implementation, install_method, mark_tramped, method_class, on_message, own_imp,
  put_method, table_of, with_blocks, with_table,
}
use fscript_extensions.Dictionary.{Dict, object_for, set_object, string_key, pointer_key}
use fscript_extensions.ClassModel.{FsClass, Imp, RuntimeClass, World, done, update_at}
use fscript_extensions.ClassModel.Creation.{add_method, with_shadow}
use fscript_extensions.ClassModel.Store.{get_elem?-update_same}
use fscript_extensions.Selector.{get_selector_parameter_count}
use fscript_extensions.Dictionary.Laws.{object_for-set_object}

method_class-own :
    (fuel : ℕ) (b : Bool) (w : World) (p : ℕ) (selector : Bytes) (imp : Imp)
    → own_imp b w p selector ≡ some imp
    → method_class fuel b w p selector ≡ some p
unfolding method_class
method_class-own zero b w p selector imp h = ground (arith, h)
method_class-own (suc fuel) b w p selector imp h = ground (arith, h)

table-with_table :
    (b : Bool) (f : Dict Bytes Imp → Dict Bytes Imp) (k : RuntimeClass)
    → table_of b (with_table b f k) ≡ f (table_of b k)
table-with_table true f k = refl
table-with_table false f k = refl

blocks-with_blocks :
    (b : Bool) (f : Dict Bytes ℕ → Dict Bytes ℕ) (c : FsClass)
    → blocks_of b (with_blocks b f c) ≡ f (blocks_of b c)
blocks-with_blocks true f c = refl
blocks-with_blocks false f c = refl

own_imp-get :
    (b : Bool) (w : World) (p : ℕ) (selector : Bytes) (k : RuntimeClass)
    → get_elem? w.runtime p ≡ some k
    → own_imp b w p selector ≡ object_for selector (table_of b k)
own_imp-get b w p selector k h = ground (arith, h)

own_imp-updated :
    (b : Bool) (w new : World) (p : ℕ) (selector : Bytes) (k : RuntimeClass)
    (f : Dict Bytes Imp → Dict Bytes Imp)
    → get_elem? w.runtime p ≡ some k
    → new.runtime ≡ update_at p (with_table b f) w.runtime
    → own_imp b new p selector ≡ object_for selector (f (table_of b k))
own_imp-updated b w new p selector k f h e =
    own_imp-get b new p selector (with_table b f k)
      (ap (λ r. get_elem? r p) e ∙ get_elem?-update_same p (with_table b f) w.runtime k h)
    ∙ ap (λ r. object_for selector r) (table-with_table b f k)

add_method-new :
    (selector : Bytes) (imp : Imp) (table : Dict Bytes Imp)
    → object_for selector table ≡ none
    → add_method selector imp table ≡ set_object selector imp table
add_method-new selector imp table h = ground (arith, h)

add_method-old :
    (selector : Bytes) (imp old : Imp) (table : Dict Bytes Imp)
    → object_for selector table ≡ some old
    → add_method selector imp table ≡ table
add_method-old selector imp old table h = ground (arith, h)

pub put-shadows :
    (w : World) (c : FsClass) (imp : Imp) (b : Bool) (selector : Bytes)
    → (put_method w c imp b selector).shadows ≡ w.shadows
unfolding put_method
put-shadows w c imp b selector = elim (Option-cases (object_for selector (blocks_of b c))) [
  | inl e ↦ ground (arith, e)
  | inr (k, e) ↦ elim (Option-cases (method_class c.class_object b w c.class_object selector)) [
    | inl m ↦ ground (arith, e, m)
    | inr (p, m) ↦ ground (arith, e, m)
  ]
]

module _ (b : Bool) (w : World) (c : FsClass) (k : RuntimeClass) (selector : Bytes) (imp : Imp)
    (at_class : get_elem? w.runtime c.class_object ≡ some k) where
  abbrev pub new_imp : Option Imp
  new_imp = own_imp b (put_method w c imp b selector) c.class_object selector

  put_added :
      object_for selector (blocks_of b c) ≡ none
      → new_imp ≡ object_for selector (add_method selector imp (table_of b k))
  unfolding put_method
  put_added no_block =
      own_imp-updated b w (put_method w c imp b selector) c.class_object selector k
        (add_method selector imp) at_class (ground (arith, no_block))

  pub put_new :
      object_for selector (blocks_of b c) ≡ none
      → object_for selector (table_of b k) ≡ none
      → new_imp ≡ some imp
  put_new no_block free =
      put_added no_block
      ∙ ap (λ r. object_for selector r) (add_method-new selector imp (table_of b k) free)
      ∙ object_for-set_object selector imp (table_of b k)

  pub put_over_accessor :
      (old : Imp)
      → object_for selector (blocks_of b c) ≡ none
      → object_for selector (table_of b k) ≡ some old
      → new_imp ≡ some old
  put_over_accessor old no_block taken =
      put_added no_block
      ∙ ap (λ r. object_for selector r) (add_method-old selector imp old (table_of b k) taken)
      ∙ taken

  pub put_again :
      (block : ℕ) (old : Imp)
      → object_for selector (blocks_of b c) ≡ some block
      → object_for selector (table_of b k) ≡ some old
      → new_imp ≡ some imp
  unfolding put_method
  put_again block old has_block taken =
      let own = own_imp-get b w c.class_object selector k at_class ∙ taken in
      own_imp-updated b w (put_method w c imp b selector) c.class_object selector k
        (set_object selector imp) at_class
        (ground
          (arith, has_block, method_class-own c.class_object b w c.class_object selector old own))
      ∙ object_for-set_object selector imp (table_of b k)

-- `onMessage:do:` of a block with the right number of arguments, as many as a trampoline can have.
module _ (max_args : ℕ) (w : World) (i : ℕ) (c : FsClass) (selector : Bytes) (block : Block)
    (b : Bool) (at_shadow : get_elem? w.shadows i ≡ some c)
    (counted : suc (get_selector_parameter_count selector) ≡ block.argument_count)
    (fits : get_selector_parameter_count selector ≤ max_args) where
  abbrev pub imp_of : Imp
  imp_of = Imp.trampoline (get_selector_parameter_count selector) block.id

  abbrev pub after_message : World
  after_message =
      with_shadow i (with_blocks b (set_object selector block.id))
        (with_shadow i (mark_tramped selector true) (put_method w c imp_of b selector))

  pub on_message-done : on_message max_args w i c selector (some block) b ≡ done after_message
  unfolding on_message implementation install_method
  on_message-done =
      let matching : (suc (get_selector_parameter_count selector) == block.argument_count) ≡ true =
        (==_iff _ _).1 counted in
      let small : leb (get_selector_parameter_count selector) max_args ≡ true =
        ground (arith, fits) in
      rw (matching, small) refl

  pub block-kept :
      (d : FsClass) × (get_elem? after_message.shadows i ≡ some d)
      × (object_for selector (blocks_of b d) ≡ some block.id)
  block-kept =
      let start = ap (λ r. get_elem? r i) (put-shadows w c imp_of b selector) ∙ at_shadow in
      let marked = get_elem?-update_same i (mark_tramped selector true) _ c start in
      (
        _,
        get_elem?-update_same i (with_blocks b (set_object selector block.id)) _ _ marked,
        ap (λ r. object_for selector r) (blocks-with_blocks b (set_object selector block.id) _)
            ∙ object_for-set_object selector block.id _,
      )
