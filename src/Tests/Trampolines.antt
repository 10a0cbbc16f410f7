-- ===== src/Tests/Trampolines.antt =====
-- The trampolines at concrete machine states.
use fscript_extensions.Prelude.{ℕ, refl, false, some, arith, length, Bytes, [], ◌∷◌, ◌+◌}
use fscript_extensions.Trampoline.Create.Installed.{Dispatches}
use fscript_extensions.Trampoline.Call.{Memory}
use fscript_extensions.Trampoline.Create.{
  create_method_trampoline, granted, i386, ppc, ppc64, value_selector, x86_64,
}
use fscript_extensions.Trampoline.Powerpc
use fscript_extensions.Trampoline.Ia32
use fscript_extensions.Trampoline.Amd64
use fscript_extensions.Trampoline.Ppc64
use fscript_extensions.Trampoline.Ppc.Dispatch as PpcDispatch
use fscript_extensions.Trampoline.Ppc64.Dispatch as Ppc64Dispatch
use fscript_extensions.Trampoline.I386.Dispatch as I386Dispatch
use fscript_extensions.Trampoline.X8664.Dispatch as X8664Dispatch

-- A selector's address stands for the number of its parameters.
abbrev address_of : Bytes → ℕ
address_of s = 7000 + length s

abbrev empty_memory : Memory
empty_memory = record { word = λ a. 0; text = λ a. [] }

-- Register or stack slot `k` holds `100 + k`.
abbrev power_cpu : Powerpc.Cpu
power_cpu = record { regs = λ r. 100 + r; lr = 9000; ctr = 0; eq = false }

abbrev ia32_cpu : Ia32.Cpu
ia32_cpu = record { eax = 0; ecx = 0; edx = 0; stack = λ k. 100 + k }

abbrev amd64_cpu : Amd64.Cpu
amd64_cpu = record { regs = λ r. 200 + r; stack = λ k. 100 + k }

ppc_dispatch_example :
    Dispatches
      (some (record {
        target = 5000;
        return_to = 9000;
        arguments = 77 ∷ address_of (value_selector 2) ∷ 103 ∷ 105 ∷ 106 ∷ [];
      }))
      (λ t m. Powerpc.outgoing 5 (Powerpc.run 32 m.word (m.text (t + 16)) (t + 16) power_cpu))
      (create_method_trampoline ppc address_of 5000 4096 (λ p l. granted) 2 77 empty_memory)
ppc_dispatch_example =
    PpcDispatch.ppc_dispatch address_of 5000 4096 (λ p l. granted) 2 77 empty_memory power_cpu
      (omega arith) (omega arith)

ppc64_dispatch_example :
    Dispatches
      (some (record {
        target = 5000;
        return_to = 9000;
        arguments = 77 ∷ address_of (value_selector 5) ∷ 103 ∷ 105 ∷ 106 ∷ 107 ∷ 108 ∷ 109 ∷ [];
      }))
      (λ t m. Powerpc.outgoing 8 (Powerpc.run 64 m.word (m.text (t + 32)) (t + 32) power_cpu))
      (create_method_trampoline ppc64 address_of 5000 4096 (λ p l. granted) 5 77 empty_memory)
ppc64_dispatch_example =
    Ppc64Dispatch.ppc64_dispatch address_of 5000 4096 (λ p l. granted) 5 77 empty_memory power_cpu
      (λ p l. refl) (omega arith) (omega arith)

i386_dispatch_example :
    Dispatches
      (some (record {
        target = 5000;
        return_to = 100;
        arguments = 77 ∷ address_of (value_selector 3) ∷ 101 ∷ 103 ∷ 104 ∷ 105 ∷ [];
      }))
      (λ t m. Ia32.outgoing 6 (Ia32.run 24 m.word (m.text (t + 16)) (t + 16) ia32_cpu))
      (create_method_trampoline i386 address_of 5000 4096 (λ p l. granted) 3 77 empty_memory)
i386_dispatch_example =
    I386Dispatch.i386_dispatch address_of 5000 4096 (λ p l. granted) 3 77 empty_memory ia32_cpu
      (omega arith) (omega arith)

x86_64_dispatch_example :
    Dispatches
      (some (record {
        target = 5000;
        return_to = 100;
        arguments = 77 ∷ address_of (value_selector 3) ∷ 207 ∷ 202 ∷ 201 ∷ 208 ∷ [];
      }))
      (λ t m. Amd64.outgoing 6 (Amd64.run 24 m.word (m.text (t + 32)) (t + 32) amd64_cpu))
      (create_method_trampoline x86_64 address_of 5000 4096 (λ p l. granted) 3 77 empty_memory)
x86_64_dispatch_example =
    X8664Dispatch.x86_64_dispatch address_of 5000 4096 (λ p l. granted) 3 77 empty_memory amd64_cpu
      (λ p l. refl) (omega arith) (omega arith)
