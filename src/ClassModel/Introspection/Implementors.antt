-- ===== src/ClassModel/Introspection/Implementors.antt =====
-- The class that a method is taken from (FSClass/FSClass.m).
use fscript_extensions.Prelude.{
  ℕ, refl, Option, none, List, arith, inl, inr, Bytes, Option-cases, [], ◌∷◌, ◌≡◌, ◌≢◌, ◌⊎◌,
}
use fscript_extensions.ClassModel.{FsClass}
use fscript_extensions.ClassModel.Introspection.{
  block_at, block_for_class_selector, block_for_selector, class_block_at, class_method_implementor,
  class_object_at, method_implementor,
}
use fscript_extensions.ClassModel.Wrapped.Reflected.{own}

-- The shadow `i` is the first of the chain that has a block of its own for the selector.
abbrev pub IsTakenFrom : (ℕ → Option ℕ) → List ℕ → ℕ → Type 0
IsTakenFrom own [] i = ⊥
IsTakenFrom own (j ∷ l) i = ((j ≡ i) × (own j ≢ none)) ⊎ ((own j ≡ none) × IsTakenFrom own l i)

block-taken :
    (cs : List FsClass) (l : List ℕ) (selector : Bytes) (i : ℕ)
    → IsTakenFrom (λ j. block_at cs j selector) l i
    → (block_for_selector cs l selector ≡ block_at cs i selector)
      × (method_implementor cs l selector ≡ class_object_at cs i)
unfolding block_for_selector method_implementor
block-taken cs [] selector i h = absurd h
block-taken cs (j ∷ l) selector i (inl (same, own)) = elim (Option-cases (block_at cs j selector)) [
  | inl e ↦ absurd (own e)
  | inr (b, e) ↦ ground (arith, e, same)
]
block-taken cs (j ∷ l) selector i (inr (nothing, h)) =
    ground (arith, nothing, block-taken cs l selector i h)

class_block-taken :
    (cs : List FsClass) (l : List ℕ) (selector : Bytes) (i : ℕ)
    → IsTakenFrom (λ j. class_block_at cs j selector) l i
    → (block_for_class_selector cs i selector ≢ none)
      × (class_method_implementor cs l selector ≡ class_object_at cs i)
unfolding class_method_implementor block_for_class_selector
class_block-taken cs [] selector i h = absurd h
class_block-taken cs (j ∷ l) selector i (inl (same, own)) =
    elim (Option-cases (class_block_at cs j selector)) [
      | inl e ↦ absurd (own e)
      | inr (b, e) ↦ (rw (← same) own, ground (arith, e, same))
    ]
class_block-taken cs (j ∷ l) selector i (inr (nothing, h)) =
    let (own, here) = class_block-taken cs l selector i h in (own, ground (arith, nothing, here))

-- No shadow of the chain has one.
abbrev pub Lacks : (ℕ → Option ℕ) → List ℕ → Type 0
Lacks own [] = Unit
Lacks own (i ∷ l) = (own i ≡ none) × Lacks own l

first_or_none : (own : ℕ → Option ℕ) (l : List ℕ) → ((i : ℕ) × IsTakenFrom own l i) ⊎ Lacks own l
first_or_none own [] = inr tt
first_or_none own (j ∷ l) = elim (Option-cases (own j)) [
  | inr (b, e) ↦ inl (j, inl (refl, λ h. ground (arith, h, e)))
  | inl e ↦ elim (first_or_none own l) [ inl (i, h) ↦ inl (i, inr (e, h)) | inr h ↦ inr (e, h) ]
]

block-lacking :
    (cs : List FsClass) (l : List ℕ) (selector : Bytes)
    → Lacks (λ j. block_at cs j selector) l
    → (block_for_selector cs l selector ≡ none) × (method_implementor cs l selector ≡ none)
unfolding block_for_selector method_implementor
block-lacking cs [] selector h = (refl, refl)
block-lacking cs (j ∷ l) selector (e, h) = ground (arith, e, block-lacking cs l selector h)

class_block-lacking :
    (cs : List FsClass) (l : List ℕ) (selector : Bytes)
    → Lacks (λ j. class_block_at cs j selector) l
    → class_method_implementor cs l selector ≡ none
unfolding class_method_implementor block_for_class_selector
class_block-lacking cs [] selector h = refl
class_block-lacking cs (j ∷ l) selector (e, h) =
    ground (arith, e, class_block-lacking cs l selector h)

-- `methodImplementor:` and `blockForSelector:` answer for the same class: the first of the receiver and
-- its parents that has a block of its own for the selector; both answer `nil` if there is none.
-- `classMethodImplementor:` answers the first that has a block of its own as a class method, but
-- `blockForClassSelector:` the block of the receiver itself: it answers one exactly if the receiver is
-- that class.
pub implementor-block :
    (cs : List FsClass) (receiver : ℕ) (parents : List ℕ) (selector : Bytes)
    → let l = receiver ∷ parents in
      (((i : ℕ) × IsTakenFrom (λ j. block_at cs j selector) l i
          × (block_for_selector cs l selector ≡ block_at cs i selector)
          × (method_implementor cs l selector ≡ class_object_at cs i))
        ⊎ ((block_for_selector cs l selector ≡ none) × (method_implementor cs l selector ≡ none)))
      × (((block_for_class_selector cs receiver selector ≢ none)
            × (class_method_implementor cs l selector ≡ class_object_at cs receiver))
          ⊎ (((i : ℕ) × IsTakenFrom (λ j. class_block_at cs j selector) parents i
                × (block_for_class_selector cs receiver selector ≡ none)
                × (class_method_implementor cs l selector ≡ class_object_at cs i))
              ⊎ ((block_for_class_selector cs receiver selector ≡ none)
                  × (class_method_implementor cs l selector ≡ none))))
unfolding block_for_class_selector
implementor-block cs receiver parents selector =
    let l = receiver ∷ parents in
    (
      elim (first_or_none (λ j. block_at cs j selector) l) [
        | inl (i, h) ↦ let (a, b) = block-taken cs l selector i h in inl (i, h, a, b)
        | inr h ↦ inr (block-lacking cs l selector h)
      ],
      elim (first_or_none (λ j. class_block_at cs j selector) l) [
        | inl (i, inl (same, own)) ↦
            inl (own, (class_block-taken cs l selector receiver (inl (refl, own))).1)
        | inl (i, inr (nothing, h)) ↦
            inr (inl (i, h, nothing, (class_block-taken cs l selector i (inr (nothing, h))).1))
        | inr (nothing, h) ↦ inr (inr (nothing, class_block-lacking cs l selector (nothing, h)))
      ],
    )
