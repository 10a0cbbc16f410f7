-- ===== src/Trampoline/X8664/Dispatch.antt =====
-- What the x86-64 trampolines do (FSClass/trampolines/x86-64/trampoline-x86-64.c).
use fscript_extensions.Prelude.{
  ℕ, zero, suc, some, arith, inr, Bytes, ==_self, ◌+◌, ◌-◌, ◌%◌, ◌^◌, ◌≤◌, ◌<◌, ◌≡◌,
}
use fscript_extensions.Trampoline.Amd64.{Cpu, arguments, outgoing, run}
use fscript_extensions.Trampoline.Create.Installed.{
  Dispatches, Grants, copied, create-Dispatches, installed_header, method_code-ne-none,
}
use fscript_extensions.Trampoline.Call.{Memory, redirect}
use fscript_extensions.Trampoline.Create.{
  Protection, create_method_trampoline, value_selector, x86_64,
}

-- An address in the header, as the code computes it from the return address of its first
-- instruction, a call of the second.
abbrev pub found : ℕ → ℕ → ℕ
found b k = ((b + 32 + 5) % 2 ^ 64 + 2 ^ 64 - 37) % 2 ^ 64 + k

pub found_lem : (b k : ℕ) → b + k < 2 ^ 64 → found b k % 2 ^ 64 ≡ b + k
found_lem b k h = omega arith

found_base : (b : ℕ) → b < 2 ^ 64 → found b 0 % 2 ^ 64 ≡ b
found_base b h = omega arith

module _ (load : ℕ → ℕ) (b block selector msgsend : ℕ)
    (at_target : load (found b 0 % 2 ^ 64) ≡ block)
    (at_selector : load (found b 8 % 2 ^ 64) ≡ selector)
    (at_msgsend : load (found b 16 % 2 ^ 64) ≡ msgsend) (c : Cpu) where
  code_dispatch :
      (n : ℕ)
      → n ≤ 3
      → outgoing (suc (suc (suc n))) (run 24 load (copied x86_64 n) (b + 32) c)
        ≡ some (record {
          target = msgsend;
          return_to = c.stack 0;
          arguments = redirect block selector (arguments (suc (suc n)) c);
        })
  unfolding run
  code_dispatch zero h = ground arith
  code_dispatch (suc zero) h = ground arith
  code_dispatch (suc (suc zero)) h = ground arith
  code_dispatch (suc (suc (suc zero))) h = ground arith
  code_dispatch (suc (suc (suc (suc n)))) h = absurd (omega arith)

-- For every number of parameters up to three, `createMethodTrampoline` makes a trampoline whose code
-- enters `objc_msgSend` with the caller's return address and the arguments block, `value:…`
-- selector, receiver and the message's arguments. The header has to lie in the address space, and
-- `mprotect` to succeed.
pub x86_64_dispatch :
    (selector_address : Bytes → ℕ) (msgsend b : ℕ) (mprotect : ℕ → ℕ → Protection) (n block : ℕ)
    (m : Memory) (c : Cpu)
    → Grants mprotect
    → n ≤ 3
    → b + 16 < 2 ^ 64
    → Dispatches
        (some (record {
          target = msgsend;
          return_to = c.stack 0;
          arguments =
              redirect block (selector_address (value_selector n)) (arguments (suc (suc n)) c);
        }))
        (λ t m'. outgoing (suc (suc (suc n))) (run 24 m'.word (m'.text (t + 32)) (t + 32) c))
        (create_method_trampoline x86_64 selector_address msgsend b mprotect n block m)
x86_64_dispatch sa msgsend b mprotect n block m c grants h fits =
    let header =
      installed_header x86_64 (copied x86_64 n) b block (sa (value_selector n)) msgsend m in
    create-Dispatches x86_64 sa msgsend b mprotect n block m _ _ (inr grants)
      (method_code-ne-none x86_64 n (omega arith))
      (rw (==_self (b + 32)) (
        code_dispatch _ b block (sa (value_selector n)) msgsend
          (rw (found_base b (omega arith)) header.0) (rw (found_lem b 8 (omega arith)) header.1)
          (rw (found_lem b 16 fits) header.2) c n h))
