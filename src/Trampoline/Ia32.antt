-- ===== src/Trampoline/Ia32.antt =====
-- An interpreter of the 32-bit x86 instructions that the trampolines of
-- FSClass/trampolines/x86/trampoline-x86.c are made of. The encodings are those of the
-- architecture's manual; any other byte, and a stack access that is not to a whole word, is a
-- fault. Of the registers only those that these instructions name are kept.
use fscript_extensions.Trampoline.Call.{Call}
use fscript_extensions.Prelude.{
  List, [], ℕ, zero, suc, ◌+◌, ◌-◌, ◌*◌, ◌/◌, ◌%◌, ◌^◌, Option, none, some, [], ◌∷◌, Bytes, ltb,
  ◌==◌, if◌then◌else◌,
}

-- `stack k` is the word at `esp + 4 * k`.
pub record Cpu : Type 0 where
  pub eax : ℕ
  pub ecx : ℕ
  pub edx : ℕ
  pub stack : ℕ → ℕ

pub data Stop : Type 0 where
  jumped : ℕ → Cpu → Stop
  returned : ℕ → Cpu → Stop
  fault : Stop

pub data Instr : Type 0 where
  call_rel sub_ecx : ℕ → Instr
  mov_edx_stack mov_stack_edx add_edx_stack mov_edx_ecx : ℕ → Instr
  pop_ecx mov_eax_edx jmp_edx ret : Instr

-- An instruction, its length, and the code behind it.
abbrev pub Decoded : Type 0
Decoded = Option (Instr × ℕ × Bytes)

abbrev imm32 : (ℕ → Instr) → ℕ → Bytes → Decoded
imm32 f n (a ∷ b ∷ c ∷ d ∷ code) = some (f (a + b * 2 ^ 8 + c * 2 ^ 16 + d * 2 ^ 24), n, code)
imm32 f n _ = none

-- A displacement of one byte; negative ones are not used.
abbrev disp8 : (ℕ → Instr) → ℕ → Bytes → Decoded
disp8 f n (a ∷ code) = if ltb a 128 then some (f a, n, code) else none
disp8 f n _ = none

-- The operand `[esp + disp8]` needs the byte 0x24 before the displacement.
abbrev esp8 : (ℕ → Instr) → ℕ → Bytes → Decoded
esp8 f n (a ∷ code) = if a == 0x24 then disp8 f n code else none
esp8 f n _ = none

abbrev mov_load : Bytes → Decoded
mov_load (a ∷ code) =
    if a == 0x11
    then some (mov_edx_ecx 0, 2, code)
    else if a == 0x51
    then disp8 mov_edx_ecx 3 code
    else if a == 0x54
    then esp8 mov_edx_stack 4 code
    else if a == 0x02
    then some (mov_eax_edx, 2, code)
    else none
mov_load _ = none

abbrev second : ℕ → Decoded → Bytes → Decoded
second b d (a ∷ code) = if a == b then d else none
second b d _ = none

abbrev tail_of : Bytes → Bytes
tail_of (a ∷ code) = code
tail_of _ = []

abbrev decode : Bytes → Decoded
decode (a ∷ code) =
    if a == 0xe8
    then imm32 call_rel 5 code
    else if a == 0x59
    then some (pop_ecx, 1, code)
    else if a == 0x81
    then second 0xe9 (imm32 sub_ecx 6 (tail_of code)) code
    else if a == 0x8b
    then mov_load code
    else if a == 0x89
    then second 0x54 (esp8 mov_stack_edx 4 (tail_of code)) code
    else if a == 0x03
    then second 0x54 (esp8 add_edx_stack 4 (tail_of code)) code
    else if a == 0xff
    then second 0xe2 (some (jmp_edx, 2, tail_of code)) code
    else if a == 0xc3
    then some (ret, 1, code)
    else none
decode _ = none

pub data Step : Type 0 where
  next : Cpu → Step
  stop : Stop → Step

abbrev push : ℕ → Cpu → Cpu
push v c = record c { stack = elim [ zero ↦ v | suc k ↦ c.stack k ] }

abbrev pop : Cpu → Cpu
pop c = record c { stack = λ k. c.stack (suc k) }

-- An access to the stack at a displacement that is a whole number of words.
abbrev at_slot : ℕ → (ℕ → Cpu) → Step
at_slot d f = if d % 4 == 0 then next (f (d / 4)) else stop fault

-- `pc` is the address of the next instruction. Only a call of the next instruction is followed.
abbrev step : (ℕ → ℕ) → Instr → ℕ → Cpu → Step
step load (call_rel d) pc c = if d == 0 then next (push pc c) else stop fault
step load (sub_ecx v) pc c = next (record c { ecx = (c.ecx + 2 ^ 32 - v) % 2 ^ 32 })
step load (mov_edx_stack d) pc c = at_slot d λ k. record c { edx = c.stack k }
step load (mov_stack_edx d) pc c =
    at_slot d λ k. record c { stack = λ j. if j == k then c.edx else c.stack j }
step load (add_edx_stack d) pc c = at_slot d λ k. record c { edx = (c.edx + c.stack k) % 2 ^ 32 }
step load (mov_edx_ecx d) pc c = next (record c { edx = load ((c.ecx + d) % 2 ^ 32) })
step load pop_ecx pc c = next (record (pop c) { ecx = c.stack 0 })
step load mov_eax_edx pc c = next (record c { eax = load c.edx })
step load jmp_edx pc c = stop (jumped c.edx c)
step load ret pc c = stop (returned (c.stack 0) (pop c))

-- The fuel is the number of instructions.
unfoldable pub run : ℕ → (ℕ → ℕ) → Bytes → ℕ → Cpu → Stop
run zero load code pc c = fault
run (suc f) load code pc c = elim (decode code) [
  | none ↦ fault
  | some (i, n, rest) ↦ elim (step load i ((pc + n) % 2 ^ 32) c) [
    | next c' ↦ run f load rest ((pc + n) % 2 ^ 32) c'
    | stop s ↦ s
  ]
]

-- The arguments of a call of `n` words stand above the return address.
abbrev arguments_from : ℕ → ℕ → Cpu → List ℕ
arguments_from zero k c = []
arguments_from (suc n) k c = c.stack k ∷ arguments_from n (suc k) c

abbrev pub arguments : ℕ → Cpu → List ℕ
arguments n = arguments_from n 1

-- The call that a jump out of the code makes.
abbrev pub outgoing : ℕ → Stop → Option Call
outgoing n (jumped t c) =
    some (record { target = t; return_to = c.stack 0; arguments = arguments n c })
outgoing n _ = none
