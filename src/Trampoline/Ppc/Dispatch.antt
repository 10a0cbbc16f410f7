-- ===== src/Trampoline/Ppc/Dispatch.antt =====
-- What the 32-bit PowerPC trampolines do (FSClass/trampolines/ppc/trampoline-ppc.c).
use fscript_extensions.Prelude.{
  ℕ, zero, suc, refl, some, arith, inl, Bytes, ==_self, ◌+◌, ◌-◌, ◌%◌, ◌^◌, ◌≤◌, ◌<◌, ◌≡◌,
}
use fscript_extensions.Trampoline.Powerpc.{Cpu, arguments, outgoing, run}
use fscript_extensions.Trampoline.Create.Installed.{
  Dispatches, copied, create-Dispatches, installed_header, method_code-ne-none,
}
use fscript_extensions.Trampoline.Call.{Memory, redirect}
use fscript_extensions.Trampoline.Create.{Protection, create_method_trampoline, ppc, value_selector}

-- An address in the header, as the code computes it from the address of its fourth instruction.
abbrev pub found : ℕ → ℕ → ℕ
found b k = ((b + 16 + 4 + 4 + 4) % 2 ^ 32 + (2 ^ 32 - 28)) % 2 ^ 32 + k

pub found_lem : (b k : ℕ) → b + k < 2 ^ 32 → found b k % 2 ^ 32 ≡ b + k
found_lem b k h = omega arith

found_base : (b : ℕ) → b < 2 ^ 32 → found b 0 % 2 ^ 32 ≡ b
found_base b h = omega arith

module _ (load : ℕ → ℕ) (b block selector msgsend : ℕ)
    (at_target : load (found b 0 % 2 ^ 32) ≡ block)
    (at_selector : load (found b 4 % 2 ^ 32) ≡ selector)
    (at_msgsend : load (found b 8 % 2 ^ 32) ≡ msgsend) (c : Cpu) where
  code_dispatch :
      (n : ℕ)
      → n ≤ 5
      → outgoing (suc (suc (suc n))) (run 32 load (copied ppc n) (b + 16) c)
        ≡ some (record {
          target = msgsend;
          return_to = c.lr;
          arguments = redirect block selector (arguments (suc (suc n)) c);
        })
  unfolding run
  code_dispatch zero h = ground arith
  code_dispatch (suc zero) h = ground arith
  code_dispatch (suc (suc zero)) h = ground arith
  code_dispatch (suc (suc (suc zero))) h = ground arith
  code_dispatch (suc (suc (suc (suc zero)))) h = ground arith
  code_dispatch (suc (suc (suc (suc (suc zero))))) h = ground arith
  code_dispatch (suc (suc (suc (suc (suc (suc n)))))) h = absurd (omega arith)

-- For every number of parameters up to five, `createMethodTrampoline` makes a trampoline whose code
-- enters `objc_msgSend` with the caller's return address and the arguments block, `value:…`
-- selector, receiver and the message's arguments. The header has to lie in the address space.
pub ppc_dispatch :
    (selector_address : Bytes → ℕ) (msgsend b : ℕ) (mprotect : ℕ → ℕ → Protection) (n block : ℕ)
    (m : Memory) (c : Cpu)
    → n ≤ 5
    → b + 8 < 2 ^ 32
    → Dispatches
        (some (record {
          target = msgsend;
          return_to = c.lr;
          arguments =
              redirect block (selector_address (value_selector n)) (arguments (suc (suc n)) c);
        }))
        (λ t m'. outgoing (suc (suc (suc n))) (run 32 m'.word (m'.text (t + 16)) (t + 16) c))
        (create_method_trampoline ppc selector_address msgsend b mprotect n block m)
ppc_dispatch sa msgsend b mprotect n block m c h fits =
    let header = installed_header ppc (copied ppc n) b block (sa (value_selector n)) msgsend m in
    create-Dispatches ppc sa msgsend b mprotect n block m _ _ (inl refl)
      (method_code-ne-none ppc n h)
      (rw (==_self (b + 16)) (
        code_dispatch _ b block (sa (value_selector n)) msgsend
          (rw (found_base b (omega arith)) header.0) (rw (found_lem b 4 (omega arith)) header.1)
          (rw (found_lem b 8 fits) header.2) c n h))
