-- ===== src/Foreach.antt =====
-- `foreach:` of fscript-CLI/BlockForeach.m. The two blocks act on what they both can reach; nothing
-- stands for an exception.
pub mod Lines
use fscript_extensions.Prelude.{ℕ, zero, suc, Option, none, some}

pub record ForeachBlock (S A : Type 0) : Type 0 where
  pub value : S → Option (Option A × S)

-- The loop, with fuel for its rounds: `nil` from the receiver ends it.
unfoldable pub foreach : {S A : Type 0} → ℕ → ForeachBlock S A → (A → S → Option S) → S → Option S
foreach zero block iterator s = none
foreach (suc fuel) block iterator s = elim (block.value s) [
  | none ↦ none
  | some (none, t) ↦ some t
  | some (some a, t) ↦ elim (iterator a t) [ none ↦ none | some u ↦ foreach fuel block iterator u ]
]
