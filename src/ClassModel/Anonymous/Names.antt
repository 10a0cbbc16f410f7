-- ===== src/ClassModel/Anonymous/Names.antt =====
-- What `newClassWithParent:` of FSClass/FSClassCreation.m makes.
use fscript_extensions.Prelude.{
  ℕ, zero, suc, refl, sym, ap, true, false, Option, none, some, arith, drop, Bytes, codes, [], ◌∷◌,
  ◌++◌, ◌/◌, ◌%◌, ◌<◌, ◌≡◌, ◌∙◌, ◌≢◌,
}
use fscript_extensions.ClassModel.Creation.{
  AnyObject, init, is_class, new_class, objc_look_up_class, register_class,
}
use fscript_extensions.Sprintf.{Base, digit, print_digits}
use fscript_extensions.ClassModel.Creation.Registry.{IsRegistered, NamesDiffer}
use fscript_extensions.ClassModel.{Outcome, World, done, raised}
use fscript_extensions.Selector.{all_ascii, until_null}
use fscript_extensions.ClassModel.Anonymous.{get_anonymous_class_name, new_class_with_parent}
use fscript_extensions.ClassModel.Creation.NewClass.{new_class-IsRegistered, new_class-made}
use fscript_extensions.Sprintf.Integers.{value-print_digits, value_of}
use fscript_extensions.ClassModel.Wrapped.{with_answer}

digit-ascii :
    (d : ℕ) (s : Bytes) → d < 10 → all_ascii s ≡ true → all_ascii (digit false d ∷ s) ≡ true
unfolding all_ascii
digit-ascii d s h k = ground (arith, h, k)

digits-ascii :
    (fuel n : ℕ) (s : Bytes)
    → all_ascii s ≡ true
    → all_ascii (print_digits fuel Base.decimal false n s) ≡ true
unfolding print_digits
digits-ascii zero n s h = h
digits-ascii (suc fuel) zero s h = h
digits-ascii (suc fuel) (suc n) s h =
    let more =
      digits-ascii fuel (suc n / 10) (digit false (suc n % 10) ∷ s)
        (digit-ascii (suc n % 10) s (omega arith) h) in
    ground (arith, more)

-- The number in a name.
abbrev number_in : Bytes → ℕ
number_in s = value_of Base.decimal (drop 7 s) 0

number-in_name : (w : World) → number_in (get_anonymous_class_name w).1 ≡ suc w.class_counter
unfolding get_anonymous_class_name value_of
number-in_name w =
    value-print_digits (suc w.class_counter) Base.decimal false (suc w.class_counter) []
      (omega arith)

digit-until_null :
    (d : ℕ) (s : Bytes)
    → d < 10
    → until_null s ≡ s
    → until_null (digit false d ∷ s) ≡ digit false d ∷ s
unfolding until_null
digit-until_null d s h k = ground (arith, h, k)

digits-until_null :
    (fuel n : ℕ) (s : Bytes)
    → until_null s ≡ s
    → until_null (print_digits fuel Base.decimal false n s)
      ≡ print_digits fuel Base.decimal false n s
unfolding print_digits
digits-until_null zero n s h = h
digits-until_null (suc fuel) zero s h = h
digits-until_null (suc fuel) (suc n) s h =
    let more =
      digits-until_null fuel (suc n / 10) (digit false (suc n % 10) ∷ s)
        (digit-until_null (suc n % 10) s (omega arith) h) in
    ground (arith, more)

name-until_null :
    (w : World) → until_null (get_anonymous_class_name w).1 ≡ (get_anonymous_class_name w).1
unfolding get_anonymous_class_name until_null
name-until_null w =
    ap (λ s. codes "FSClass" ++ s)
      (digits-until_null (suc w.class_counter) (suc w.class_counter) [] refl)

name-ascii : (w : World) → all_ascii (get_anonymous_class_name w).1 ≡ true
unfolding get_anonymous_class_name all_ascii
name-ascii w = digits-ascii (suc w.class_counter) (suc w.class_counter) [] refl

-- The state once the number is used up.
abbrev pub counted : World → World
counted w = (get_anonymous_class_name w).0

counted-IsRegistered : (w : World) → IsRegistered w → IsRegistered (counted w)
unfolding get_anonymous_class_name
counted-IsRegistered w r = record {
  found = r.found;
  by_pointer = r.by_pointer;
  by_name = r.by_name;
  parents = r.parents;
}

counted-NamesDiffer : (w : World) → NamesDiffer w → NamesDiffer (counted w)
unfolding get_anonymous_class_name
counted-NamesDiffer w differ = differ

counted-free :
    (w : World) (name : Bytes)
    → objc_look_up_class w name ≡ none
    → objc_look_up_class (counted w) name ≡ none
unfolding get_anonymous_class_name
counted-free w name free = free

counted-counter : (w : World) → (counted w).class_counter ≡ suc w.class_counter
unfolding get_anonymous_class_name
counted-counter w = refl

abbrev counter_of : Outcome (World × Option ℕ) → ℕ
counter_of (raised e) = 0
counter_of (done r) = r.0.class_counter

made-counter :
    (w new : World) (p : ℕ) (name : Bytes) (parent : AnyObject)
    → is_class parent ≡ true
    → all_ascii name ≡ true
    → until_null name ≡ name
    → objc_look_up_class w name ≡ none
    → new_class w (some name) parent ≡ done (new, some p)
    → new.class_counter ≡ w.class_counter
unfolding register_class init
made-counter w new p name parent a_class ascii whole free h =
    ap counter_of (sym h ∙ new_class-made w name parent a_class ascii whole free)

-- Equal names have equal numbers.
pub anonymous_name-injective :
    (v w : World)
    → (get_anonymous_class_name v).1 ≡ (get_anonymous_class_name w).1
    → v.class_counter ≡ w.class_counter
anonymous_name-injective v w h = ground (arith, ap number_in h, number-in_name v, number-in_name w)

-- From a state whose registries are in order, `newClassWithParent:` with a class as parent makes a
-- class, if no class has the name that it comes up with; the registries stay in order, names stay
-- different, and the name that it comes up with next is another one.
pub new_class_with_parent-anew :
    (w : World) (parent : AnyObject)
    → IsRegistered w
    → NamesDiffer w
    → is_class parent ≡ true
    → objc_look_up_class w (get_anonymous_class_name w).1 ≡ none
    → (new : World) × (p : ℕ) × (new_class_with_parent w parent ≡ (new, done (some p)))
      × IsRegistered new
      × NamesDiffer new
      × ((get_anonymous_class_name new).1 ≢ (get_anonymous_class_name w).1)
unfolding new_class_with_parent
new_class_with_parent-anew w parent r differ a_class free =
    let name = (get_anonymous_class_name w).1 in
    let ascii = name-ascii w in
    let whole = name-until_null w in
    let still_free = counted-free w name free in
    let (new, p, h, kept, distinct, _) =
      new_class-IsRegistered (counted w) name parent (counted-IsRegistered w r)
        (counted-NamesDiffer w differ) a_class ascii whole still_free in
    let same = made-counter (counted w) new p name parent a_class ascii whole still_free h in
    (
      new,
      p,
      ap (with_answer (counted w)) h,
      kept,
      distinct,
      λ e. ground (arith, anonymous_name-injective new w e, same, counted-counter w),
    )
