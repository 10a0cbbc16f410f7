-- ===== src/Trampoline/Create/Installed.antt =====
-- A built trampoline in memory: its header and code, and the step from its code to the call that
-- `createMethodTrampoline` (FSClass/Trampoline.m) makes possible.
use fscript_extensions.Prelude.{
  ℕ, zero, suc, refl, false, Option, none, some, arith, inl, inr, take, Bytes, [], ◌+◌, ◌*◌, ◌≤◌,
  ◌≡◌, ◌≢◌, ◌⊎◌,
}
use fscript_extensions.Trampoline.Create.{
  Arch, Created, Protection, build, code_offset, create_method_trampoline, granted, i386, installed,
  lp64, made, method_code, msgsend_offset, nearest_page, page_size, ppc, ppc64, protect,
  selector_offset, value_selector, x86_64,
}
use fscript_extensions.Trampoline.Call.{Call, Memory}

-- The bytes that `COPY_TRAMPOLINE` copies; none where there is no such trampoline.
abbrev pub copied_bytes : Option (Bytes × ℕ) → Bytes
copied_bytes none = []
copied_bytes (some (code, len)) = take len code

abbrev pub copied : Arch → ℕ → Bytes
copied a n = copied_bytes (method_code a n)

-- A trampoline was made, and calling its code ends in the call that is expected.
abbrev pub Dispatches : Option Call → (ℕ → Memory → Option Call) → Created → Type 0
Dispatches expected invoke (made t m) = invoke t m ≡ expected
Dispatches expected invoke _ = ⊥

pub installed_header :
    (a : Arch) (code : Bytes) (t block selector msgsend : ℕ) (m : Memory)
    → let m' = installed a code t block selector msgsend m in
      (m'.word t ≡ block)
      × (m'.word (t + selector_offset a) ≡ selector)
      × (m'.word (t + msgsend_offset a) ≡ msgsend)
      × (m'.text (t + code_offset a) ≡ code)
installed_header ppc code t block selector msgsend m = ground arith
installed_header ppc64 code t block selector msgsend m = ground arith
installed_header i386 code t block selector msgsend m = ground arith
installed_header x86_64 code t block selector msgsend m = ground arith

-- Where `mprotect` is called, it succeeds whatever it is asked for.
abbrev pub Grants : (ℕ → ℕ → Protection) → Type 0
Grants mprotect = (address length : ℕ) → mprotect address length ≡ granted

pub protect-made :
    (a : Arch) (mprotect : ℕ → ℕ → Protection) (t : ℕ) (m : Memory)
    → (lp64 a ≡ false) ⊎ Grants mprotect
    → protect a mprotect t m ≡ made t m
unfolding protect
protect-made a mprotect t m (inl h) = ground (arith, h)
protect-made a mprotect t m (inr h) = rw (h (nearest_page t) (2 * page_size)) (ground arith)

build-Dispatches :
    (a : Arch) (selector msgsend b : ℕ) (r : ℕ → ℕ → Protection) (block : ℕ) (m : Memory)
    (expected : Option Call) (invoke : ℕ → Memory → Option Call) (o : Option (Bytes × ℕ))
    → (lp64 a ≡ false) ⊎ Grants r
    → o ≢ none
    → invoke b (installed a (copied_bytes o) b block selector msgsend m) ≡ expected
    → Dispatches expected invoke (build a selector msgsend b r block m o)
unfolding build
build-Dispatches a selector msgsend b r block m expected invoke none ok known h =
    absurd (known refl)
build-Dispatches a selector msgsend b r block m expected invoke (some (code, len)) ok known h =
    rw (protect-made a r b _ ok) h

-- To see what a trampoline does, it is enough to run its code in the memory that is installed.
pub create-Dispatches :
    (a : Arch) (selector_address : Bytes → ℕ) (msgsend b : ℕ) (r : ℕ → ℕ → Protection) (n block : ℕ)
    (m : Memory) (expected : Option Call) (invoke : ℕ → Memory → Option Call)
    → (lp64 a ≡ false) ⊎ Grants r
    → method_code a n ≢ none
    → invoke b (installed a (copied a n) b block (selector_address (value_selector n)) msgsend m)
      ≡ expected
    → Dispatches expected invoke (create_method_trampoline a selector_address msgsend b r n block m)
unfolding create_method_trampoline
create-Dispatches a sa msgsend b r n block m expected invoke =
    build-Dispatches a (sa (value_selector n)) msgsend b r block m expected invoke (method_code a n)

pub method_code-ne-none : (a : Arch) (n : ℕ) → n ≤ 5 → method_code a n ≢ none
method_code-ne-none ppc zero h = cc
method_code-ne-none ppc (suc zero) h = cc
method_code-ne-none ppc (suc (suc zero)) h = cc
method_code-ne-none ppc (suc (suc (suc zero))) h = cc
method_code-ne-none ppc (suc (suc (suc (suc zero)))) h = cc
method_code-ne-none ppc (suc (suc (suc (suc (suc zero))))) h = cc
method_code-ne-none ppc (suc (suc (suc (suc (suc (suc n)))))) h = absurd (omega arith)
method_code-ne-none ppc64 zero h = cc
method_code-ne-none ppc64 (suc zero) h = cc
method_code-ne-none ppc64 (suc (suc zero)) h = cc
method_code-ne-none ppc64 (suc (suc (suc zero))) h = cc
method_code-ne-none ppc64 (suc (suc (suc (suc zero)))) h = cc
method_code-ne-none ppc64 (suc (suc (suc (suc (suc zero))))) h = cc
method_code-ne-none ppc64 (suc (suc (suc (suc (suc (suc n)))))) h = absurd (omega arith)
method_code-ne-none i386 zero h = cc
method_code-ne-none i386 (suc zero) h = cc
method_code-ne-none i386 (suc (suc zero)) h = cc
method_code-ne-none i386 (suc (suc (suc zero))) h = cc
method_code-ne-none i386 (suc (suc (suc (suc zero)))) h = cc
method_code-ne-none i386 (suc (suc (suc (suc (suc zero))))) h = cc
method_code-ne-none i386 (suc (suc (suc (suc (suc (suc n)))))) h = absurd (omega arith)
method_code-ne-none x86_64 zero h = cc
method_code-ne-none x86_64 (suc zero) h = cc
method_code-ne-none x86_64 (suc (suc zero)) h = cc
method_code-ne-none x86_64 (suc (suc (suc zero))) h = cc
method_code-ne-none x86_64 (suc (suc (suc (suc zero)))) h = cc
method_code-ne-none x86_64 (suc (suc (suc (suc (suc zero))))) h = cc
method_code-ne-none x86_64 (suc (suc (suc (suc (suc (suc n)))))) h = absurd (omega arith)
