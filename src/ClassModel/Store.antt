-- ===== src/ClassModel/Store.antt =====
-- Reading and replacing the shadow objects of a list.
use fscript_extensions.Prelude.{
  ℕ, zero, suc, refl, sym, ap, Option, none, some, List, arith, inl, inr, length, get_elem?,
  Option-cases, [], ◌∷◌, ◌≡◌, ◌∙◌, ◌≢◌,
}
use fscript_extensions.ClassModel.{FsClass, chain, update_at}

module _ {ℓ} {A : Type ℓ} where
  pub get_elem?-update_same :
      (i : ℕ) (f : A → A) (xs : List A) (a : A)
      → get_elem? xs i ≡ some a
      → get_elem? (update_at i f xs) i ≡ some (f a)
  get_elem?-update_same i f [] a h = ground (arith, h)
  get_elem?-update_same zero f (x ∷ xs) a h = ground (arith, h)
  get_elem?-update_same (suc i) f (x ∷ xs) a h = get_elem?-update_same i f xs a h

  pub get_elem?-update_other :
      (i j : ℕ) (f : A → A) (xs : List A) → j ≢ i → get_elem? (update_at i f xs) j ≡ get_elem? xs j
  get_elem?-update_other i j f [] h = refl
  get_elem?-update_other zero zero f (x ∷ xs) h = absurd (h refl)
  get_elem?-update_other zero (suc j) f (x ∷ xs) h = refl
  get_elem?-update_other (suc i) zero f (x ∷ xs) h = refl
  get_elem?-update_other (suc i) (suc j) f (x ∷ xs) h =
      get_elem?-update_other i j f xs (λ e. h (ap suc e))

  pub length-update_at : (i : ℕ) (f : A → A) (xs : List A) → length (update_at i f xs) ≡ length xs
  length-update_at i f [] = refl
  length-update_at zero f (x ∷ xs) = refl
  length-update_at (suc i) f (x ∷ xs) = ap suc (length-update_at i f xs)

-- The parent of a shadow, by its number.
abbrev pub parent_at : List FsClass → ℕ → Option (Option ℕ)
parent_at cs i = elim (get_elem? cs i) [ none ↦ none | some c ↦ some c.parent_class ]

parent-update :
    (i : ℕ) (f : FsClass → FsClass) (cs : List FsClass) (j : ℕ)
    → ((c : FsClass) → (f c).parent_class ≡ c.parent_class)
    → parent_at (update_at i f cs) j ≡ parent_at cs j
parent-update i f [] j h = refl
parent-update zero f (c ∷ cs) zero h = ap some (h c)
parent-update zero f (c ∷ cs) (suc j) h = refl
parent-update (suc i) f (c ∷ cs) zero h = refl
parent-update (suc i) f (c ∷ cs) (suc j) h = parent-update i f cs j h

chain_by_parent : (fuel : ℕ) (cs : List FsClass) (i : ℕ) → List ℕ
chain_by_parent zero cs i = []
chain_by_parent (suc fuel) cs i = elim (parent_at cs i) [
  | none ↦ []
  | some none ↦ i ∷ []
  | some (some q) ↦ i ∷ chain_by_parent fuel cs q
]

chain-eq-by_parent :
    (fuel : ℕ) (cs : List FsClass) (i : ℕ) → chain fuel cs i ≡ chain_by_parent fuel cs i
unfolding chain chain_by_parent
chain-eq-by_parent zero cs i = refl
chain-eq-by_parent (suc fuel) cs i = elim (Option-cases (get_elem? cs i)) [
  | inl e ↦ ground (arith, e)
  | inr (c, e) ↦ elim (Option-cases c.parent_class) [
    | inl p ↦ ground (arith, e, p)
    | inr (q, p) ↦ ground (arith, e, p, chain-eq-by_parent fuel cs q)
  ]
]

by_parent-update :
    (fuel i : ℕ) (f : FsClass → FsClass) (cs : List FsClass) (j : ℕ)
    → ((c : FsClass) → (f c).parent_class ≡ c.parent_class)
    → chain_by_parent fuel (update_at i f cs) j ≡ chain_by_parent fuel cs j
unfolding chain_by_parent
by_parent-update zero i f cs j h = refl
by_parent-update (suc fuel) i f cs j h = elim (Option-cases (parent_at cs j)) [
  | inl e ↦ ground (arith, e, parent-update i f cs j h)
  | inr (none, e) ↦ ground (arith, e, parent-update i f cs j h)
  | inr (some q, e) ↦ ground (arith, e, parent-update i f cs j h, by_parent-update fuel i f cs q h)
]

-- Changing a shadow but for its parent changes no chain.
pub chain-update_at :
    (fuel i : ℕ) (f : FsClass → FsClass) (cs : List FsClass) (j : ℕ)
    → ((c : FsClass) → (f c).parent_class ≡ c.parent_class)
    → chain fuel (update_at i f cs) j ≡ chain fuel cs j
chain-update_at fuel i f cs j h =
    chain-eq-by_parent fuel (update_at i f cs) j
    ∙ by_parent-update fuel i f cs j h
    ∙ sym (chain-eq-by_parent fuel cs j)
