-- ===== src/Trampoline/Ppc/Registers.antt =====
-- Which registers the 32-bit PowerPC trampolines change (FSClass/trampolines/ppc/trampoline-ppc.c).
use fscript_extensions.Prelude.{
  ℕ, zero, suc, ◌+◌, ◌^◌, ◌%◌, ◌≤◌, ◌<◌, ◌≡◌, arith, Option, none, some,
}
use fscript_extensions.Trampoline.Create.{ppc}
use fscript_extensions.Trampoline.Create.Installed.{copied}
use fscript_extensions.Trampoline.Powerpc.{Cpu, Stop, jumped, run}
use fscript_extensions.Trampoline.Ppc.Dispatch.{found, found_lem}

-- A register at the jump into `objc_msgSend`.
abbrev pub reg_at_jump : ℕ → Stop → Option ℕ
reg_at_jump r (jumped t c) = some (c.regs r)
reg_at_jump r _ = none

module _ (load : ℕ → ℕ) (b msgsend : ℕ) (at_msgsend : load (found b 8 % 2 ^ 32) ≡ msgsend) (c : Cpu)
    (r : ℕ) (high : 17 ≤ r) where
  code_registers :
      (n : ℕ)
      → n ≤ 5
      → (reg_at_jump 1 (run 32 load (copied ppc n) (b + 16) c) ≡ some (c.regs 1))
        × (reg_at_jump 15 (run 32 load (copied ppc n) (b + 16) c) ≡ some msgsend)
        × (reg_at_jump 16 (run 32 load (copied ppc n) (b + 16) c) ≡ some 0)
        × (reg_at_jump r (run 32 load (copied ppc n) (b + 16) c) ≡ some (c.regs r))
  unfolding run
  code_registers zero h = ground arith
  code_registers (suc zero) h = ground arith
  code_registers (suc (suc zero)) h = ground arith
  code_registers (suc (suc (suc zero))) h = ground arith
  code_registers (suc (suc (suc (suc zero)))) h = ground arith
  code_registers (suc (suc (suc (suc (suc zero))))) h = ground arith
  code_registers (suc (suc (suc (suc (suc (suc n)))))) h = absurd (omega arith)

-- Every method trampoline enters `objc_msgSend` with the stack pointer and the registers from 17 on
-- as its caller left them, but with the address of `objc_msgSend` in register 15 and 0 in
-- register 16.
pub registers_15_and_16_lost :
    (load : ℕ → ℕ) (b : ℕ) (c : Cpu) (r n : ℕ)
    → b + 8 < 2 ^ 32
    → 17 ≤ r
    → n ≤ 5
    → (reg_at_jump 1 (run 32 load (copied ppc n) (b + 16) c) ≡ some (c.regs 1))
      × (reg_at_jump 15 (run 32 load (copied ppc n) (b + 16) c) ≡ some (load (b + 8)))
      × (reg_at_jump 16 (run 32 load (copied ppc n) (b + 16) c) ≡ some 0)
      × (reg_at_jump r (run 32 load (copied ppc n) (b + 16) c) ≡ some (c.regs r))
registers_15_and_16_lost load b c r n fits high h =
    code_registers load b (load (b + 8)) (rw (found_lem b 8 fits)) c r high n h
