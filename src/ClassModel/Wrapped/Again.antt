-- ===== src/ClassModel/Wrapped/Again.antt =====
-- Messages to the shadow of a class that answer without a change (FSClass/MethodImplementations.m).
use fscript_extensions.Prelude.{ℕ, sym, ap, Option, none, some, arith, get_elem?, Bytes, ◌≡◌, ◌∙◌}
use fscript_extensions.ClassModel.{FsClass, Outcome, World, done, raised}
use fscript_extensions.ClassModel.Creation.Registry.{IsRegistered, NamesDiffer}
use fscript_extensions.ClassModel.Wrapped.{Reply, reading, to_shadow}
use fscript_extensions.ClassModel.Creation.{class_for_pointer, runtime_name, shadow_for_class}
use fscript_extensions.ClassModel.Creation.Shadows.{shadow_for_class-IsRegistered}

-- What is found once `shadowForClass:` has answered.
pub to_shadow-found {ℓ} :
    {A : Type ℓ} (w v : World) (p i : ℕ) (c : FsClass) (idle : A)
    (message : World → ℕ → FsClass → Reply A)
    → shadow_for_class w p ≡ done (v, some i)
    → get_elem? v.shadows i ≡ some c
    → to_shadow w p idle message ≡ message v i c
unfolding to_shadow
to_shadow-found w v p i c idle message h k = ground (arith, h, k)

-- A message that is only a question may be sent to every class of the runtime, from a state whose
-- registries are in order. It is answered by a shadow of that class and leaves the registries in order;
-- sent again, to the state that it leaves, it has the same answer and changes nothing.
pub to_shadow-again {ℓ} :
    {A : Type ℓ} (w : World) (p : ℕ) (name : Bytes) (idle : A) (f : World → ℕ → FsClass → A)
    → IsRegistered w
    → NamesDiffer w
    → runtime_name w p ≡ some name
    → (new : World) × (i : ℕ) × (c : FsClass) × (get_elem? new.shadows i ≡ some c)
      × (c.class_object ≡ p)
      × (to_shadow w p idle (reading f) ≡ (new, done (f new i c)))
      × IsRegistered new
      × (to_shadow new p idle (reading f) ≡ to_shadow w p idle (reading f))
to_shadow-again w p name idle f r differ n =
    let (new, i, h, kept, (c, at_i, q), again) =
      shadow_for_class-IsRegistered w p name r differ n in
    let first = to_shadow-found w new p i c idle (reading f) h at_i in
    (
      new,
      i,
      c,
      at_i,
      q,
      first,
      kept,
      to_shadow-found new new p i c idle (reading f) again at_i ∙ sym first,
    )

abbrev answered_world : World → Outcome (World × Option ℕ) → World
answered_world w (raised e) = w
answered_world w (done r) = r.0

abbrev answered_shadow : Outcome (World × Option ℕ) → Option ℕ
answered_shadow (raised e) = none
answered_shadow (done r) = r.1

-- `shadowForClass:` registers the shadow that it answers.
pub shadow_for_class-pointer :
    (w v : World) (p i : ℕ) (name : Bytes)
    → IsRegistered w
    → NamesDiffer w
    → runtime_name w p ≡ some name
    → shadow_for_class w p ≡ done (v, some i)
    → class_for_pointer v p ≡ some i
shadow_for_class-pointer w v p i name r differ n h =
    let (new, j, first, kept, (c, at_j, q), again) =
      shadow_for_class-IsRegistered w p name r differ n in
    let (a, b, _) = kept.found j c at_j in
    let found : class_for_pointer new p ≡ some j = ground (arith, rw q at a, b) in
    let same = sym first ∙ h in
    let same_world : new ≡ v = ap (answered_world w) same in
    let same_shadow : some j ≡ some i = ap answered_shadow same in
    ap (λ x. class_for_pointer x p) (sym same_world) ∙ found ∙ same_shadow
