-- ===== src/ClassModel/Creation/Shadows.antt =====
-- The proxies that `shadowForClass:` of FSClass/FSClassCreation.m makes.
use fscript_extensions.Prelude.{
  ℕ, refl, true, none, some, arith, inl, inr, length, get_elem?, Bytes, Option-cases,
  get_elem?-append_new, ◌≡◌,
}
use fscript_extensions.ClassModel.{FsClass, World, done}
use fscript_extensions.ClassModel.Creation.Registry.{
  IsRegistered, NamesDiffer, register-IsRegistered,
}
use fscript_extensions.ClassModel.Creation.{
  init, init_proxy_class, register_class, runtime_name, shadow_for_class,
}
use fscript_extensions.Dictionary.{object_for, string_key, pointer_key}

pub name-fresh :
    (w : World) (p : ℕ) (name : Bytes)
    → IsRegistered w
    → NamesDiffer w
    → runtime_name w p ≡ some name
    → object_for p w.class_names_by_pointer ≡ none
    → object_for name w.class_definitions ≡ none
name-fresh w p name r differ n fresh = elim (Option-cases (object_for name w.class_definitions)) [
  | inl e ↦ e
  | inr (i, e) ↦
      let (c, at_i, q) = r.by_name name i e in
      let (a, b, m) = r.found i c at_i in
      let same : c.class_object ≡ p = differ c.class_object p name (rw q at m) n in
      absurd (ground (arith, rw same at a, fresh))
]

register_class-runtime :
    (c : FsClass) (w : World) (p : ℕ) → runtime_name (register_class c w) p ≡ runtime_name w p
unfolding register_class
register_class-runtime c w p = refl

-- The proxy that `initProxyClass:` registers.
abbrev pub proxy_of : ℕ → Bytes → FsClass
proxy_of p name = record (init name) { class_object = p; is_objective_c = true }

pub proxy-IsRegistered :
    (w : World) (p : ℕ) (name : Bytes)
    → IsRegistered w
    → NamesDiffer w
    → runtime_name w p ≡ some name
    → object_for p w.class_names_by_pointer ≡ none
    → IsRegistered (register_class (proxy_of p name) w)
unfolding init
proxy-IsRegistered w p name r differ n fresh =
    register-IsRegistered (proxy_of p name) w r fresh (name-fresh w p name r differ n fresh) n
      (λ q h. ground (arith, h))

shadow-registered :
    (w : World) (p i : ℕ) (name : Bytes)
    → object_for p w.class_names_by_pointer ≡ some name
    → object_for name w.class_definitions ≡ some i
    → shadow_for_class w p ≡ done (w, some i)
unfolding shadow_for_class
shadow-registered w p i name h k = ground (arith, h, k)

shadow-made :
    (w : World) (p : ℕ) (name : Bytes)
    → object_for p w.class_names_by_pointer ≡ none
    → runtime_name w p ≡ some name
    → shadow_for_class w p ≡ done (register_class (proxy_of p name) w, some (length w.shadows))
unfolding shadow_for_class init_proxy_class
shadow-made w p name h n = ground (arith, h, n)

-- For every class of the runtime, `shadowForClass:` returns a shadow of that class and keeps the
-- registries in order, and asked again it returns the same shadow and changes nothing.
pub shadow_for_class-IsRegistered :
    (w : World) (p : ℕ) (name : Bytes)
    → IsRegistered w
    → NamesDiffer w
    → runtime_name w p ≡ some name
    → (new : World) × (i : ℕ) × (shadow_for_class w p ≡ done (new, some i))
      × IsRegistered new
      × ((c : FsClass) × (get_elem? new.shadows i ≡ some c) × (c.class_object ≡ p))
      × (shadow_for_class new p ≡ done (new, some i))
shadow_for_class-IsRegistered w p name r differ n =
    elim (Option-cases (object_for p w.class_names_by_pointer)) [
      | inr (m, e) ↦
          let (i, c, at_i, q) = r.by_pointer p m e in
          let (a, b, k) = r.found i c at_i in
          let same : c.class_name ≡ m = ground (arith, rw q at a, e) in
          let again = shadow-registered w p i m e (rw same at b) in
          (w, i, again, r, (c, at_i, q), again)
      | inl e ↦
          let new = register_class (proxy_of p name) w in
          let kept = proxy-IsRegistered w p name r differ n e in
          let at_end : get_elem? new.shadows (length w.shadows) ≡ some (proxy_of p name) =
            unfold register_class in get_elem?-append_new w.shadows (proxy_of p name) in
          let (a, b, k) = kept.found (length w.shadows) (proxy_of p name) at_end in
          (
            new,
            length w.shadows,
            shadow-made w p name e n,
            kept,
            (proxy_of p name, at_end, refl),
            shadow-registered new p (length w.shadows) (proxy_of p name).class_name a b,
          )
    ]
