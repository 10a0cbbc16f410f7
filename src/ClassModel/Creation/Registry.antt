-- ===== src/ClassModel/Creation/Registry.antt =====
-- The registries of FSClass/FSClassCreation.m: what `registerClass:forName:` keeps.
use fscript_extensions.Prelude.{
  ℕ, sym, none, some, arith, inl, inr, length, get_elem?, Bytes, get_elem?-append_old,
  get_elem?-append_new, get_elem?-append_cases, get_elem?-length, [], ◌∷◌, ◌≡◌, ◌∙◌,
}
use fscript_extensions.ClassModel.{FsClass, World}
use fscript_extensions.ClassModel.Chain.{ParentsOlder}
use fscript_extensions.ClassModel.Creation.{class_for_pointer, register_class, runtime_name}
use fscript_extensions.Dictionary.{object_for, string_key, pointer_key}
use fscript_extensions.Dictionary.Laws.{
  object_for-set_cases, object_for-set_object, object_for-set_other,
}

-- The two registries and the shadows agree: a shadow is found under its class's pointer and under
-- its name, which is the name of that class; and what is found is a shadow. Parents are older.
pub record IsRegistered (w : World) : Type 0 where
  pub found :
      (i : ℕ) (c : FsClass)
      → get_elem? w.shadows i ≡ some c
      → (object_for c.class_object w.class_names_by_pointer ≡ some c.class_name)
        × (object_for c.class_name w.class_definitions ≡ some i)
        × (runtime_name w c.class_object ≡ some c.class_name)
  pub by_pointer :
      (p : ℕ) (name : Bytes)
      → object_for p w.class_names_by_pointer ≡ some name
      → (i : ℕ) × (c : FsClass) × (get_elem? w.shadows i ≡ some c) × (c.class_object ≡ p)
  pub by_name :
      (name : Bytes) (i : ℕ)
      → object_for name w.class_definitions ≡ some i
      → (c : FsClass) × (get_elem? w.shadows i ≡ some c) × (c.class_name ≡ name)
  pub parents : ParentsOlder w.shadows

abbrev pub NamesDiffer : World → Type 0
NamesDiffer w =
    (p q : ℕ) (name : Bytes) → runtime_name w p ≡ some name → runtime_name w q ≡ some name → p ≡ q

pub pointer-registered :
    (w : World) (p : ℕ) (name : Bytes)
    → IsRegistered w
    → object_for p w.class_names_by_pointer ≡ some name
    → (runtime_name w p ≡ some name)
      × ((i : ℕ) × (class_for_pointer w p ≡ some i)
          × ((c : FsClass) × (get_elem? w.shadows i ≡ some c) × (c.class_object ≡ p)))
pointer-registered w p name r h =
    let (i, c, e, q) = r.by_pointer p name h in
    let (a, b, n) = r.found i c e in
    let same : c.class_name ≡ name = ground (arith, a, q, h) in
    (rw (q, same) at n, (i, ground (arith, h, b, same), (c, e, q)))

-- Registering a new shadow of a class that has none keeps the registries.
pub register-IsRegistered :
    (c : FsClass) (w : World)
    → IsRegistered w
    → object_for c.class_object w.class_names_by_pointer ≡ none
    → object_for c.class_name w.class_definitions ≡ none
    → runtime_name w c.class_object ≡ some c.class_name
    → ((q : ℕ) → c.parent_class ≡ some q → (d : FsClass) × (get_elem? w.shadows q ≡ some d))
    → IsRegistered (register_class c w)
unfolding register_class
register-IsRegistered c w r fresh_pointer fresh_name named parent = record {
  found = λ i d e. elim (get_elem?-append_cases w.shadows c i d e) [
    | inl old ↦
        let (a, b, n) = r.found i d old in
        (
          object_for-set_other d.class_object c.class_object c.class_name w.class_names_by_pointer
                (λ q. ground (arith, rw q at a, fresh_pointer))
              ∙ a,
          object_for-set_other d.class_name c.class_name (length w.shadows) w.class_definitions
                (λ q. ground (arith, rw q at b, fresh_name))
              ∙ b,
          n,
        )
    | inr (at_end, same) ↦
        rw (at_end, same)
          (
            object_for-set_object c.class_object c.class_name w.class_names_by_pointer,
            object_for-set_object c.class_name (length w.shadows) w.class_definitions,
            named,
          )
  ];
  by_pointer = λ p name h.
      elim (object_for-set_cases p c.class_object c.class_name name w.class_names_by_pointer h) [
        | inl (same, _) ↦ (length w.shadows, c, get_elem?-append_new w.shadows c, sym same)
        | inr (_, old) ↦
            let (i, d, e, q) = r.by_pointer p name old in
            (i, d, get_elem?-append_old w.shadows (c ∷ []) i d e, q)
      ];
  by_name = λ name i h.
      elim (object_for-set_cases name c.class_name (length w.shadows) i w.class_definitions h) [
        | inl (same, at_end) ↦ (c, rw at_end (get_elem?-append_new w.shadows c), sym same)
        | inr (_, old) ↦
            let (d, e, q) = r.by_name name i old in
            (d, get_elem?-append_old w.shadows (c ∷ []) i d e, q)
      ];
  parents = λ i q d e p. elim (get_elem?-append_cases w.shadows c i d e) [
    | inl old ↦
        let (older, (f, g)) = r.parents i q d old p in
        (older, (f, get_elem?-append_old w.shadows (c ∷ []) q f g))
    | inr (at_end, same) ↦
        let (f, g) = parent q (rw same at p) in
        (
          rw at_end (get_elem?-length w.shadows q f g),
          (f, get_elem?-append_old w.shadows (c ∷ []) q f g),
        )
  ];
}
