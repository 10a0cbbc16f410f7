-- ===== src/ClassModel/Creation/Update.antt =====
-- Changing a shadow in a way that the registries of FSClass/FSClassCreation.m do not see.
use fscript_extensions.Prelude.{
  ℕ, zero, suc, refl, sym, some, List, arith, get_elem?, [], ◌∷◌, ◌≡◌, ◌∙◌,
}
use fscript_extensions.ClassModel.{FsClass, World, update_at}
use fscript_extensions.ClassModel.Creation.Registry.{IsRegistered}
use fscript_extensions.ClassModel.Creation.{with_shadow}

-- Two states of a shadow that have the same class, name and parent.
abbrev pub Alike : FsClass → FsClass → Type 0
Alike c d =
    (c.class_object ≡ d.class_object)
    × (c.class_name ≡ d.class_name)
    × (c.parent_class ≡ d.parent_class)

module _ (f : FsClass → FsClass) (alike : (c : FsClass) → Alike (f c) c) where
  before :
      (j i : ℕ) (cs : List FsClass) (c : FsClass)
      → get_elem? (update_at j f cs) i ≡ some c
      → (d : FsClass) × (get_elem? cs i ≡ some d) × Alike c d
  before j i [] c h = ground (arith, h)
  before zero zero (d ∷ cs) c h =
      let same : c ≡ f d = ground (arith, h) in (d, refl, rw same (alike d))
  before (suc j) zero (d ∷ cs) c h = (c, h, (refl, refl, refl))
  before zero (suc i) (d ∷ cs) c h = (c, h, (refl, refl, refl))
  before (suc j) (suc i) (d ∷ cs) c h = before j i cs c h

  after :
      (j i : ℕ) (cs : List FsClass) (c : FsClass)
      → get_elem? cs i ≡ some c
      → (d : FsClass) × (get_elem? (update_at j f cs) i ≡ some d) × Alike d c
  after j i [] c h = ground (arith, h)
  after zero zero (d ∷ cs) c h =
      let same : d ≡ c = ground (arith, h) in (f d, refl, rw same (alike c))
  after (suc j) zero (d ∷ cs) c h = (c, h, (refl, refl, refl))
  after zero (suc i) (d ∷ cs) c h = (c, h, (refl, refl, refl))
  after (suc j) (suc i) (d ∷ cs) c h = after j i cs c h

  pub with_shadow-IsRegistered :
      (j : ℕ) (w : World) → IsRegistered w → IsRegistered (with_shadow j f w)
  with_shadow-IsRegistered j w r = record {
    found = λ i c e.
        let (d, at_i, (o, n, p)) = before j i w.shadows c e in rw (o, n) (r.found i d at_i);
    by_pointer = λ p name h.
        let (i, c, e, q) = r.by_pointer p name h in
        let (d, at_i, (o, _, _)) = after j i w.shadows c e in (i, d, at_i, o ∙ q);
    by_name = λ name i h.
        let (c, e, q) = r.by_name name i h in
        let (d, at_i, (_, n, _)) = after j i w.shadows c e in (d, at_i, n ∙ q);
    parents = λ i q c e p.
        let (d, at_i, (_, _, same)) = before j i w.shadows c e in
        let (older, (a, b)) = r.parents i q d at_i (sym same ∙ p) in
        let (g, at_q, _) = after j q w.shadows a b in (older, (g, at_q));
  }
