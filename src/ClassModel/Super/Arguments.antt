-- ===== src/ClassModel/Super/Arguments.antt =====
-- The arguments of calls of superclasses' methods (FSClass/Callbacks.m).
use fscript_extensions.Prelude.{
  ℕ, refl, Bool, true, false, List, arith, inl, inr, length, ltb, leb, Bytes, Bool-cases, [], ◌∷◌,
  ◌≤◌, ◌≡◌, ◌==◌,
}
use fscript_extensions.ClassModel.{World, done}
use fscript_extensions.Selector.{get_selector_parameter_count}
use fscript_extensions.ClassModel.Super.{
  passed_arguments, send_super, super_method, super_method_multi,
}
use fscript_extensions.ClassModel.Methods.{superclass_of}

passed-few : (args : List ℕ) → length args ≤ 4 → passed_arguments args ≡ args
passed-few [] h = refl
passed-few (a ∷ []) h = refl
passed-few (a ∷ b ∷ []) h = refl
passed-few (a ∷ b ∷ c ∷ []) h = refl
passed-few (a ∷ b ∷ c ∷ d ∷ []) h = refl
passed-few (a ∷ b ∷ c ∷ d ∷ e ∷ rest) h = absurd (omega arith)

-- With at most four arguments, no more than a trampoline takes, the variants of a super call for a
-- fixed number of arguments and the one for an array of them do the same, errors included.
pub super_method-eq-multi :
    (max_args : ℕ) (b : Bool) (w : World) (receiver p starting_class : ℕ) (selector : Bytes)
    (args : List ℕ)
    → length args ≤ 4
    → length args ≤ max_args
    → super_method w receiver starting_class selector args
      ≡ super_method_multi max_args b w receiver p starting_class selector args
unfolding super_method super_method_multi
super_method-eq-multi max_args b w receiver p starting_class selector args few fits =
    let small : ltb 12 (length args) ≡ false = ground (arith, few) in
    let below : leb (length args) max_args ≡ true = ground (arith, fits) in
    elim (Bool-cases (length args == get_selector_parameter_count selector)) [
      | inl e ↦ rw (small, below, e, passed-few args few) refl
      | inr e ↦ rw (small, e) refl
    ]

-- With five arguments, the variant for a fixed number passes on only the first four of them; the one
-- for an array passes on all five, if it sends a message at all.
pub super_method5 :
    (max_args : ℕ) (w : World) (receiver p starting_class : ℕ) (selector : Bytes) (a b c d e : ℕ)
    → get_selector_parameter_count selector ≡ 5
    → 5 ≤ max_args
    → (super_method w receiver starting_class selector (a ∷ b ∷ c ∷ d ∷ e ∷ [])
        ≡ done (send_super receiver (superclass_of w starting_class) selector (a ∷ b ∷ c ∷ d ∷ [])))
      × (super_method_multi max_args true w receiver p starting_class selector
            (a ∷ b ∷ c ∷ d ∷ e ∷ [])
          ≡ done (
              send_super receiver
                (superclass_of w starting_class)
                selector
                (a ∷ b ∷ c ∷ d ∷ e ∷ [])))
unfolding super_method super_method_multi
super_method5 max_args w receiver p starting_class selector a b c d e count fits =
    let matching : (5 == get_selector_parameter_count selector) ≡ true = ground (arith, count) in
    let below : leb 5 max_args ≡ true = ground (arith, fits) in
    (rw matching refl, rw (matching, below) refl)
