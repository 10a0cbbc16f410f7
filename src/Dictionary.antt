-- ===== src/Dictionary.antt =====
-- `NSMutableDictionary` as the sources use it: `objectForKey:`, `setObject:forKey:`, `allKeys` and
-- `removeObjectForKey:` on a list of entries.
pub mod Laws
use fscript_extensions.Prelude.{
  ℕ, ◌≡◌, refl, ◌↔◌, Bool, true, false, Option, none, some, List, [], ◌∷◌, Bytes, bytes_eq, ◌==◌,
  if◌then◌else◌, ==_iff, bytes_eq_iff,
}

-- What `isEqual:` of a key decides.
pub record Key {ℓ} (K : Type ℓ) : Type ℓ where
  pub equal : K → K → Bool
  pub equal_iff : (a b : K) → (equal a b ≡ true) ↔ (a ≡ b)

instance abbrev pub string_key : Key Bytes
string_key = record { equal = bytes_eq; equal_iff = bytes_eq_iff }

instance abbrev pub pointer_key : Key ℕ
pointer_key = record { equal = λ a b. a == b; equal_iff = ==_iff }

abbrev pub Dict {ℓ κ} : Type ℓ → Type κ → Type (ℓ ⊔ κ)
Dict K V = List (K × V)

module _ {ℓ κ} {K : Type ℓ} {V : Type κ} ⦃d : Key K⦄ where
  abbrev pub object_for : K → Dict K V → Option V
  object_for k [] = none
  object_for k ((l, v) ∷ rest) = if d.equal k l then some v else object_for k rest

  abbrev pub set_object : K → V → Dict K V → Dict K V
  set_object k v [] = (k, v) ∷ []
  set_object k v ((l, w) ∷ rest) =
      if d.equal k l then (l, v) ∷ rest else (l, w) ∷ set_object k v rest

module _ {ℓ κ} {K : Type ℓ} {V : Type κ} where
  abbrev pub all_keys : Dict K V → List K
  all_keys [] = []
  all_keys ((k, v) ∷ rest) = k ∷ all_keys rest
