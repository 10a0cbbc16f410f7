-- ===== src/ClassModel/Anonymous.antt =====
-- Classes without a name, and the utility methods of FSClass/FSClassCreation.m.
pub mod Names
use fscript_extensions.Prelude.{
  ℕ, suc, false, not, Option, some, Bytes, codes, [], ◌++◌, if◌then◌else◌,
}
use fscript_extensions.ClassModel.Creation.{AnyObject, class_id, new_class, objc_look_up_class}
use fscript_extensions.Sprintf.{Base, print_digits}
use fscript_extensions.ClassModel.{Exception, Outcome, World, done, raised}
use fscript_extensions.ClassModel.Wrapped.{Reply, with_answer}
use fscript_extensions.Selector.{is_legit_selector}

-- `_getAnonymousClassName`: `FSClass` and the number of the class.
unfoldable pub get_anonymous_class_name : World → World × Bytes
unfolding print_digits
get_anonymous_class_name w =
    let counter = suc w.class_counter in
    (
      record w { class_counter = counter },
      codes "FSClass" ++ print_digits counter Base.decimal false counter [],
    )

-- `newClassWithParent:`; the number is used up even if an exception is raised.
unfoldable pub new_class_with_parent : World → AnyObject → Reply (Option ℕ)
unfolding get_anonymous_class_name new_class
new_class_with_parent w parent =
    let r = get_anonymous_class_name w in with_answer r.0 (new_class r.0 (some r.1) parent)

-- `newClass`; `ns_object` is the number of the class `NSObject`.
unfoldable pub new_anonymous_class : World → ℕ → Reply (Option ℕ)
unfolding new_class_with_parent
new_anonymous_class w ns_object = new_class_with_parent w (class_id ns_object)

-- `stringFromSelector:` and `selectorFromString:`; a selector is given by its name.
unfoldable pub string_from_selector : Bytes → Bytes
string_from_selector selector = selector

unfoldable pub selector_from_string : Bytes → Outcome Bytes
unfolding is_legit_selector
selector_from_string s =
    if not (is_legit_selector s) then raised Exception.illegal_message_name else done s

-- `getClass:`
unfoldable pub get_class : World → Bytes → Option ℕ
get_class w name = objc_look_up_class w name
