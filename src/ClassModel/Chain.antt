-- ===== src/ClassModel/Chain.antt =====
-- Following `parentClass` of FSClass/FSClass.m from a shadow to the last of its parents.
use fscript_extensions.Prelude.{
  ℕ, zero, suc, refl, sym, ap, Option, none, some, List, arith, inl, inr, get_elem?, Option-cases,
  [], ◌∷◌, ◌<◌, ◌≡◌, ◌∙◌,
}
use fscript_extensions.ClassModel.{FsClass, chain, chain_of}

-- Every parent is an older shadow.
abbrev pub ParentsOlder : List FsClass → Type 0
ParentsOlder cs =
    (i q : ℕ) (c : FsClass)
    → get_elem? cs i ≡ some c
    → c.parent_class ≡ some q
    → (q < i) × ((d : FsClass) × (get_elem? cs q ≡ some d))

pub chain_absent :
    (fuel : ℕ) (cs : List FsClass) (i : ℕ) → get_elem? cs i ≡ none → chain fuel cs i ≡ []
unfolding chain
chain_absent zero cs i e = refl
chain_absent (suc fuel) cs i e = ground (arith, e)

pub chain_root :
    (fuel : ℕ) (cs : List FsClass) (i : ℕ) (c : FsClass)
    → get_elem? cs i ≡ some c
    → c.parent_class ≡ none
    → chain (suc fuel) cs i ≡ i ∷ []
unfolding chain
chain_root fuel cs i c e p = ground (arith, e, p)

pub chain_child :
    (fuel : ℕ) (cs : List FsClass) (i q : ℕ) (c : FsClass)
    → get_elem? cs i ≡ some c
    → c.parent_class ≡ some q
    → chain (suc fuel) cs i ≡ i ∷ chain fuel cs q
unfolding chain
chain_child fuel cs i q c e p = ground (arith, e, p)

pub chain_fuels :
    (f g : ℕ) (cs : List FsClass) (i : ℕ)
    → ParentsOlder cs
    → i < f
    → i < g
    → chain f cs i ≡ chain g cs i
chain_fuels zero g cs i w h k = absurd (omega arith)
chain_fuels (suc f) zero cs i w h k = absurd (omega arith)
chain_fuels (suc f) (suc g) cs i w h k = elim (Option-cases (get_elem? cs i)) [
  | inl e ↦ chain_absent (suc f) cs i e ∙ sym (chain_absent (suc g) cs i e)
  | inr (c, e) ↦ elim (Option-cases c.parent_class) [
    | inl p ↦ chain_root f cs i c e p ∙ sym (chain_root g cs i c e p)
    | inr (q, p) ↦
        let older : q < i = (w i q c e p).0 in
        chain_child f cs i q c e p
        ∙ ap (λ r. i ∷ r) (chain_fuels f g cs q w (omega arith) (omega arith))
        ∙ sym (chain_child g cs i q c e p)
  ]
]

-- The chain of a parent, nothing if there is none.
abbrev pub chain_of_parent : List FsClass → Option ℕ → List ℕ
chain_of_parent cs none = []
chain_of_parent cs (some q) = chain_of cs q

-- The parents are followed to their end: if every parent is older than its children, the chain of a
-- shadow is the shadow itself, and then nothing if it has no parent, and otherwise the whole chain of
-- its parent.
pub chain_of_shadow :
    (cs : List FsClass) (i : ℕ) (c : FsClass)
    → ParentsOlder cs
    → get_elem? cs i ≡ some c
    → chain_of cs i ≡ i ∷ chain_of_parent cs c.parent_class
chain_of_shadow cs i c w e = elim (Option-cases c.parent_class) [
  | inl p ↦ rw p (chain_root i cs i c e p)
  | inr (q, p) ↦
      let older : q < i = (w i q c e p).0 in
      rw p (
        chain_child i cs i q c e p
        ∙ ap (λ r. i ∷ r) (chain_fuels i (suc q) cs q w older (omega arith)))
]
