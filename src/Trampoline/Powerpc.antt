-- ===== src/Trampoline/Powerpc.antt =====
-- An interpreter of the PowerPC instructions that the trampolines of
-- FSClass/trampolines/ppc/trampoline-ppc.c and FSClass/trampolines/ppc64/trampoline-ppc64.c are
-- made of. The encodings are those of the architecture's manual; any other word is a fault.
use fscript_extensions.Trampoline.Call.{Call}
use fscript_extensions.Prelude.{
  zero, suc, List, [], Option, some, none, ℕ, ◌+◌, ◌-◌, ◌*◌, ◌/◌, ◌%◌, ◌^◌, Bool, true, ◌∷◌, Bytes,
  ltb, ◌==◌, if◌then◌else◌, ◌&&◌,
}

-- `eq` is the bit of the condition field 0 that says that the last result was zero.
pub record Cpu : Type 0 where
  pub regs : ℕ → ℕ
  pub lr : ℕ
  pub ctr : ℕ
  pub eq : Bool

-- How the code is left: through the count register, through the link register, by a relative
-- branch, or by a word that is no known instruction.
pub data Stop : Type 0 where
  jumped : ℕ → Cpu → Stop
  returned : ℕ → Cpu → Stop
  branched : ℕ → Cpu → Stop
  fault : Stop

pub data Step : Type 0 where
  next : Cpu → Step
  stop : Stop → Step

abbrev pub set_reg : ℕ → ℕ → Cpu → Cpu
set_reg r v c = record c { regs = λ j. if j == r then v else c.regs j }

-- The word size is `2 ^ bits`; `load` reads a word of that size.
module _ (bits : ℕ) (load : ℕ → ℕ) where
  -- A field of the instruction, and the sign-extended immediate as a word.
  abbrev field : ℕ → ℕ → ℕ → ℕ
  field w shift width = (w / 2 ^ shift) % 2 ^ width

  abbrev simm : ℕ → ℕ
  simm w = let i = w % 2 ^ 16 in if ltb i (2 ^ 15) then i else 2 ^ bits - (2 ^ 16 - i)

  -- Register 0 as a base stands for the number 0.
  abbrev base : ℕ → Cpu → ℕ
  base r c = if r == 0 then 0 else c.regs r

  -- `mflr`, `mtlr`, `mtctr`, `mr` (as `or a, s, s`) and `xor. a, s, s`.
  abbrev extended : ℕ → Cpu → Step
  extended w c =
      let s = field w 21 5 in
      let a = field w 16 5 in
      let b = field w 11 5 in
      let op = field w 1 10 in
      if op == 339 && field w 11 10 == 256
      then next (set_reg s c.lr c)
      else if op == 467 && field w 11 10 == 256
      then next (record c { lr = c.regs s })
      else if op == 467 && field w 11 10 == 288
      then next (record c { ctr = c.regs s })
      else if op == 444 && s == b && field w 0 1 == 0
      then next (set_reg a (c.regs s) c)
      else if op == 316 && s == b && field w 0 1 == 1
      then next (record (set_reg a 0 c) { eq = true })
      else stop fault

  -- `bnel`: the link register takes the next address whether or not the branch is taken.
  abbrev conditional : ℕ → ℕ → Cpu → Step
  conditional w pc c =
      let linked = record c { lr = (pc + 4) % 2 ^ bits } in
      if field w 21 5 == 4 && field w 16 5 == 2 && field w 0 2 == 1
      then if c.eq then next linked else stop (branched ((pc + simm (w - 1)) % 2 ^ bits) linked)
      else stop fault

  -- `blr` and `bctr`.
  abbrev leave : ℕ → Cpu → Step
  leave w c =
      if field w 1 10 == 16 && field w 21 5 == 20
      then stop (returned c.lr c)
      else if field w 1 10 == 528 && field w 21 5 == 20
      then stop (jumped c.ctr c)
      else stop fault

  -- `addi`, `add`, `lwz` (32 bits), `ld` (64 bits) and the above, by the primary opcode.
  abbrev step : ℕ → ℕ → Cpu → Step
  step w pc c =
      let d = field w 21 5 in
      let a = field w 16 5 in
      let op = field w 26 6 in
      if op == 31 && field w 1 10 == 266
      then next (set_reg d ((c.regs a + c.regs (field w 11 5)) % 2 ^ bits) c)
      else if op == 31
      then extended w c
      else if op == 14
      then next (set_reg d ((base a c + simm w) % 2 ^ bits) c)
      else if op == 32 && bits == 32
      then next (set_reg d (load ((base a c + simm w) % 2 ^ bits)) c)
      else if op == 58 && bits == 64 && field w 0 2 == 0
      then next (set_reg d (load ((base a c + simm w) % 2 ^ bits)) c)
      else if op == 16
      then conditional w pc c
      else if op == 19
      then leave w c
      else stop fault

  -- Instructions are four bytes, most significant first.
  unfoldable pub run : Bytes → ℕ → Cpu → Stop
  run (b3 ∷ b2 ∷ b1 ∷ b0 ∷ code) pc c =
      elim (step (b3 * 2 ^ 24 + b2 * 2 ^ 16 + b1 * 2 ^ 8 + b0) pc c) [
        | next c' ↦ run code (pc + 4) c'
        | stop s ↦ s
      ]
  run _ pc c = fault

-- The arguments of a call of `n` integers, of which the first is in register 3.
abbrev arguments_from : ℕ → ℕ → Cpu → List ℕ
arguments_from zero r c = []
arguments_from (suc n) r c = c.regs r ∷ arguments_from n (suc r) c

abbrev pub arguments : ℕ → Cpu → List ℕ
arguments n = arguments_from n 3

-- The call that leaves the code through the count register; it returns to the link register.
abbrev pub outgoing : ℕ → Stop → Option Call
outgoing n (jumped t c) = some (record { target = t; return_to = c.lr; arguments = arguments n c })
outgoing n _ = none
