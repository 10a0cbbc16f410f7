-- ===== src/Trampoline/Amd64.antt =====
-- An interpreter of the x86-64 instructions that the trampolines of
-- FSClass/trampolines/x86-64/trampoline-x86-64.c are made of. The encodings are those of the
-- architecture's manual; any other byte is a fault.
use fscript_extensions.Trampoline.Call.{Call}
use fscript_extensions.Prelude.{
  List, [], map, take, ℕ, zero, suc, ◌+◌, ◌-◌, ◌*◌, ◌/◌, ◌%◌, ◌^◌, Option, none, some, ◌∷◌, Bytes,
  ltb, leb, ◌==◌, if◌then◌else◌, ◌&&◌,
}

-- The registers by their number in the encoding: rcx is 1, rdx 2, rsi 6, rdi 7, r8 8 and so on.
-- `stack k` is the word at `rsp + 8 * k`.
pub record Cpu : Type 0 where
  pub regs : ℕ → ℕ
  pub stack : ℕ → ℕ

pub data Stop : Type 0 where
  jumped : ℕ → Cpu → Stop
  fault : Stop

pub data Instr : Type 0 where
  call_rel pop jmp : ℕ → Instr
  sub_imm mov : ℕ → ℕ → Instr
  mov_load : ℕ → ℕ → ℕ → Instr

abbrev pub Decoded : Type 0
Decoded = Option (Instr × ℕ × Bytes)

abbrev imm32 : (ℕ → Instr) → ℕ → Bytes → Decoded
imm32 f n (a ∷ b ∷ c ∷ d ∷ code) =
    if ltb d 128 then some (f (a + b * 2 ^ 8 + c * 2 ^ 16 + d * 2 ^ 24), n, code) else none
imm32 f n _ = none

abbrev disp8 : (ℕ → Instr) → ℕ → Bytes → Decoded
disp8 f n (a ∷ code) = if ltb a 128 then some (f a, n, code) else none
disp8 f n _ = none

-- The two registers of an operand byte, widened by the bits R and B of the prefix.
abbrev reg_of : ℕ → ℕ → ℕ
reg_of rex m = (rex / 4) % 2 * 8 + (m / 8) % 8

abbrev rm_of : ℕ → ℕ → ℕ
rm_of rex m = rex % 2 * 8 + m % 8

abbrev mode : ℕ → ℕ
mode m = m / 64

-- Behind a prefix with the bit W: `mov`, `sub` and `jmp`.
abbrev wide : ℕ → Bytes → Decoded
wide rex (op ∷ m ∷ code) =
    if op == 0x89 && mode m == 3
    then some (mov (rm_of rex m) (reg_of rex m), 3, code)
    else if op == 0x8b && mode m == 0 && ltb (m % 8) 4
    then some (mov_load (reg_of rex m) (rm_of rex m) 0, 3, code)
    else if op == 0x8b && mode m == 1 && ltb (m % 8) 4
    then disp8 (mov_load (reg_of rex m) (rm_of rex m)) 4 code
    else if op == 0x81 && mode m == 3 && (m / 8) % 8 == 5
    then imm32 (sub_imm (rm_of rex m)) 7 code
    else if op == 0xff && mode m == 3 && (m / 8) % 8 == 4
    then some (jmp (rm_of rex m), 3, code)
    else none
wide rex _ = none

-- Behind the prefix 0x41: `pop` of one of the upper registers.
abbrev narrow : Bytes → Decoded
narrow (op ∷ code) =
    if leb 0x58 op && leb op 0x5f then some (pop (op - 0x58 + 8), 2, code) else none
narrow _ = none

abbrev decode : Bytes → Decoded
decode (a ∷ code) =
    if a == 0xe8
    then imm32 call_rel 5 code
    else if a == 0x41
    then narrow code
    else if leb 0x48 a && leb a 0x4f
    then wide a code
    else none
decode _ = none

pub data Step : Type 0 where
  next : Cpu → Step
  stop : Stop → Step

abbrev set_reg : ℕ → ℕ → Cpu → Cpu
set_reg r v c = record c { regs = λ j. if j == r then v else c.regs j }

-- `pc` is the address of the next instruction. Only a call of the next instruction is followed.
abbrev step : (ℕ → ℕ) → Instr → ℕ → Cpu → Step
step load (call_rel d) pc c =
    if d == 0
    then next (record c { stack = elim [ zero ↦ pc | suc k ↦ c.stack k ] })
    else stop fault
step load (pop r) pc c = next (record (set_reg r (c.stack 0) c) { stack = λ k. c.stack (suc k) })
step load (jmp r) pc c = stop (jumped (c.regs r) c)
step load (sub_imm r v) pc c = next (set_reg r ((c.regs r + 2 ^ 64 - v) % 2 ^ 64) c)
step load (mov to from) pc c = next (set_reg to (c.regs from) c)
step load (mov_load to from d) pc c = next (set_reg to (load ((c.regs from + d) % 2 ^ 64)) c)

-- The fuel is the number of instructions.
unfoldable pub run : ℕ → (ℕ → ℕ) → Bytes → ℕ → Cpu → Stop
run zero load code pc c = fault
run (suc f) load code pc c = elim (decode code) [
  | none ↦ fault
  | some (i, n, rest) ↦ elim (step load i ((pc + n) % 2 ^ 64) c) [
    | next c' ↦ run f load rest ((pc + n) % 2 ^ 64) c'
    | stop s ↦ s
  ]
]

-- The integer arguments of a call, the first six of which stand in rdi, rsi, rdx, rcx, r8 and r9.
abbrev argument_registers : List ℕ
argument_registers = 7 ∷ 6 ∷ 2 ∷ 1 ∷ 8 ∷ 9 ∷ []

abbrev pub arguments : ℕ → Cpu → List ℕ
arguments n c = map c.regs (take n argument_registers)

-- The call that a jump out of the code makes.
abbrev pub outgoing : ℕ → Stop → Option Call
outgoing n (jumped t c) =
    some (record { target = t; return_to = c.stack 0; arguments = arguments n c })
outgoing n _ = none
