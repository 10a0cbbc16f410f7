-- ===== src/ClassModel/Creation/Subclass.antt =====
-- `subclass` and `subclass:` of FSClass/FSClass.m.
use fscript_extensions.Prelude.{ℕ, refl, true, Option, none, some, arith, Bytes, ◌≡◌}
use fscript_extensions.ClassModel.{Exception, Outcome, World, raised}
use fscript_extensions.Selector.{all_ascii, until_null}
use fscript_extensions.ClassModel.Creation.{
  create_new_class, init, init_new_class, init_regular_ivars_class, instance_id, new_class,
  objc_look_up_class, register_class,
}

-- `subclass:` and `subclass` of a shadow. The parent that they pass is the shadow, an instance of the
-- class `FSClass`, whose number is `fs_class`.
unfoldable pub subclass_named : World → ℕ → Option Bytes → Outcome (World × Option ℕ)
unfolding new_class
subclass_named w fs_class name = new_class w name (instance_id fs_class)

unfoldable pub subclass : World → ℕ → Outcome (World × Option ℕ)
unfolding new_class
subclass w fs_class = new_class w none (instance_id fs_class)

-- `subclass` raises an exception, whatever the receiver is. `subclass:` with a new ASCII name reads the
-- shadow, an instance of `FSClass`, as a class.
pub subclass_of_receiver :
    (w : World) (fs_class : ℕ) (name : Bytes)
    → all_ascii name ≡ true
    → objc_look_up_class w (until_null name) ≡ none
    → (subclass w fs_class ≡ raised Exception.bad_class_name)
      × (subclass_named w fs_class (some name) ≡ raised Exception.instance_as_class)
unfolding subclass subclass_named new_class init_regular_ivars_class init_new_class create_new_class
    init register_class
subclass_of_receiver w fs_class name ascii free = (refl, ground (arith, ascii, free))
