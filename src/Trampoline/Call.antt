-- ===== src/Trampoline/Call.antt =====
-- What both ends of a trampoline see: the memory it reads, and a function call by its target, its
-- return address and its arguments (FSClass/Trampoline.h, the comment at its top).
use fscript_extensions.Prelude.{ℕ, List, [], ◌∷◌, Bytes, ◌==◌, if◌then◌else◌}

-- Pointer-sized words by their address, and the machine code that stands at an address.
pub record Memory : Type 0 where
  pub word : ℕ → ℕ
  pub text : ℕ → Bytes

abbrev pub store_word : ℕ → ℕ → Memory → Memory
store_word a v m = record m { word = λ b. if b == a then v else m.word b }

abbrev pub store_text : ℕ → Bytes → Memory → Memory
store_text a code m = record m { text = λ b. if b == a then code else m.text b }

pub record Call : Type 0 where
  pub target : ℕ
  pub return_to : ℕ
  pub arguments : List ℕ

-- The arguments that a trampoline has to pass on of those it receives: from `self,
-- @selector(method:), arg1, …` to `block, @selector(value:), self, arg1, …`.
abbrev pub redirect : ℕ → ℕ → List ℕ → List ℕ
redirect block selector (self ∷ cmd ∷ args) = block ∷ selector ∷ self ∷ args
redirect block selector _ = []
