-- ===== src/Dictionary/Laws.antt =====
-- What the operations of a dictionary promise each other.
use fscript_extensions.Prelude.{
  refl, sym, ap, true, false, some, arith, inl, inr, Bool-cases, [], ◌∷◌, ◌≡◌, ◌∙◌, ◌≢◌, ◌⊎◌,
  if◌then◌else◌,
}
use fscript_extensions.Dictionary.{Dict, Key, object_for, set_object}

module _ {ℓ} {K : Type ℓ} ⦃d : Key K⦄ where
  pub equal_self : (k : K) → d.equal k k ≡ true
  equal_self k = (d.equal_iff k k).1 refl

  pub equal_ne : (k l : K) → k ≢ l → d.equal k l ≡ false
  equal_ne k l h = elim (Bool-cases (d.equal k l)) [
    | inl e ↦ absurd (h ((d.equal_iff k l).0 e))
    | inr e ↦ e
  ]

module _ {ℓ κ} {K : Type ℓ} {V : Type κ} ⦃d : Key K⦄ where
  pub object_for-set_object :
      (k : K) (v : V) (t : Dict K V) → object_for k (set_object k v t) ≡ some v
  object_for-set_object k v [] = rw (equal_self k) refl
  object_for-set_object k v ((l, w) ∷ t) = elim (Bool-cases (d.equal k l)) [
    | inl e ↦ rw (e, e) refl
    | inr e ↦ rw (e, e) (object_for-set_object k v t)
  ]

  pub object_for-set_other :
      (k l : K) (v : V) (t : Dict K V) → k ≢ l → object_for k (set_object l v t) ≡ object_for k t
  object_for-set_other k l v [] h = rw (equal_ne k l h) refl
  object_for-set_other k l v ((m, w) ∷ t) h = elim (Bool-cases (d.equal l m)) [
    | inl e ↦
        let n : d.equal k m ≡ false = equal_ne k m (λ q. h (q ∙ sym ((d.equal_iff l m).0 e))) in
        rw (e, n) refl
    | inr e ↦ rw e (ap (λ r. if d.equal k m then some w else r) (object_for-set_other k l v t h))
  ]

  pub object_for-set_cases :
      (k l : K) (v u : V) (t : Dict K V)
      → object_for k (set_object l v t) ≡ some u
      → ((k ≡ l) × (u ≡ v)) ⊎ ((k ≢ l) × (object_for k t ≡ some u))
  object_for-set_cases k l v u t h = elim (Bool-cases (d.equal k l)) [
    | inl e ↦
        let same = (d.equal_iff k l).0 e in
        inl (same, ground (arith, object_for-set_object l v t, rw same at h))
    | inr e ↦
        let ne : k ≢ l = λ q. ground (arith, (d.equal_iff k l).1 q, e) in
        inr (ne, sym (object_for-set_other k l v t ne) ∙ h)
  ]
