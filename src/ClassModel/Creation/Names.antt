-- ===== src/ClassModel/Creation/Names.antt =====
-- The names of the runtime's classes, and a class more (`createNewClass` of
-- FSClass/FSClassCreation.m).
use fscript_extensions.Prelude.{
  ℕ, zero, suc, sym, ap, none, some, List, arith, inl, inr, length, get_elem?, Bytes, bytes_eq,
  bytes_eq_iff, Bool-cases, Option-cases, get_elem?-append_old, get_elem?-append_new,
  get_elem?-append_cases, [], ◌∷◌, ◌++◌, ◌≡◌, ◌∙◌, ◌≢◌,
}
use fscript_extensions.ClassModel.Creation.Registry.{IsRegistered, NamesDiffer}
use fscript_extensions.ClassModel.{RuntimeClass, World}
use fscript_extensions.ClassModel.Creation.{look_up_from, objc_look_up_class, runtime_name}

pub look_up_from-none :
    (k : ℕ) (name : Bytes) (cs : List RuntimeClass) (p : ℕ) (c : RuntimeClass)
    → look_up_from k name cs ≡ none
    → get_elem? cs p ≡ some c
    → c.name ≢ name
look_up_from-none k name [] p c h e q = ground (arith, e)
look_up_from-none k name (d ∷ cs) zero c h e q =
    let same : d ≡ c = ground (arith, e) in
    ground (arith, h, (bytes_eq_iff name d.name).1 (sym (ap (λ r. r.name) same ∙ q)))
look_up_from-none k name (d ∷ cs) (suc p) c h e q = elim (Bool-cases (bytes_eq name d.name)) [
  | inl b ↦ ground (arith, h, b)
  | inr b ↦ look_up_from-none (suc k) name cs p c (ground (arith, h, b)) e q
]

-- A class more in the runtime.
abbrev pub with_class : RuntimeClass → World → World
with_class c w = record w { runtime = w.runtime ++ c ∷ [] }

runtime_name-old :
    (c : RuntimeClass) (w : World) (p : ℕ) (name : Bytes)
    → runtime_name w p ≡ some name
    → runtime_name (with_class c w) p ≡ some name
runtime_name-old c w p name h = elim (Option-cases (get_elem? w.runtime p)) [
  | inl e ↦ ground (arith, h, e)
  | inr (d, e) ↦ ground (arith, h, e, get_elem?-append_old w.runtime (c ∷ []) p d e)
]

pub runtime_name-new :
    (c : RuntimeClass) (w : World) → runtime_name (with_class c w) (length w.runtime) ≡ some c.name
runtime_name-new c w = ground (arith, get_elem?-append_new w.runtime c)

pub runtime_name-get :
    (w : World) (p : ℕ) (name : Bytes)
    → runtime_name w p ≡ some name
    → (c : RuntimeClass) × (get_elem? w.runtime p ≡ some c) × (c.name ≡ name)
runtime_name-get w p name h = elim (Option-cases (get_elem? w.runtime p)) [
  | inl e ↦ ground (arith, h, e)
  | inr (d, e) ↦ (d, e, ground (arith, h, e))
]

pub with_class-NamesDiffer :
    (c : RuntimeClass) (w : World)
    → objc_look_up_class w c.name ≡ none
    → NamesDiffer w
    → NamesDiffer (with_class c w)
with_class-NamesDiffer c w free differ p q name h k =
    let (a, at_p, same_p) = runtime_name-get (with_class c w) p name h in
    let (b, at_q, same_q) = runtime_name-get (with_class c w) q name k in
    elim (get_elem?-append_cases w.runtime c p a at_p) [
      | inl old_p ↦ elim (get_elem?-append_cases w.runtime c q b at_q) [
        | inl old_q ↦
            differ p q name (ground (arith, old_p, same_p)) (ground (arith, old_q, same_q))
        | inr (_, new_q) ↦ absurd (
            look_up_from-none 0 c.name w.runtime p a free old_p
              (same_p ∙ sym same_q ∙ ap (λ r. r.name) new_q))
      ]
      | inr (end_p, new_p) ↦ elim (get_elem?-append_cases w.runtime c q b at_q) [
        | inl old_q ↦ absurd (
            look_up_from-none 0 c.name w.runtime q b free old_q
              (same_q ∙ sym same_p ∙ ap (λ r. r.name) new_p))
        | inr (end_q, _) ↦ end_p ∙ sym end_q
      ]
    ]

pub with_class-IsRegistered :
    (c : RuntimeClass) (w : World) → IsRegistered w → IsRegistered (with_class c w)
with_class-IsRegistered c w r = record {
  found = λ i d e.
      let (a, b, n) = r.found i d e in (a, b, runtime_name-old c w d.class_object d.class_name n);
  by_pointer = r.by_pointer;
  by_name = r.by_name;
  parents = r.parents;
}
