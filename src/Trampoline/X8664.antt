-- ===== src/Trampoline/X8664.antt =====
-- The machine code of the x86-64 trampolines, byte by byte (FSClass/trampolines/x86-64/trampoline-x86-64.c).
pub mod Dispatch
use fscript_extensions.Prelude.{ℕ, [], ◌∷◌, Bytes}

abbrev pub method0 : Bytes
method0 =
    0xe8 ∷ 0x00 ∷ 0x00 ∷ 0x00 ∷ 0x00 ∷ 0x41 ∷ 0x5a ∷ 0x49 ∷ 0x81 ∷ 0xea ∷ 0x25 ∷ 0x00 ∷ 0x00 ∷ 0x00
    ∷ 0x48 ∷ 0x89 ∷ 0xfa ∷ 0x49 ∷ 0x8b ∷ 0x3a ∷ 0x49 ∷ 0x8b ∷ 0x72 ∷ 0x08 ∷ 0x4d ∷ 0x8b ∷ 0x5a
    ∷ 0x10 ∷ 0x49 ∷ 0xff ∷ 0xe3 ∷ 0x00 ∷ 0x00 ∷ 0x00 ∷ []

abbrev pub method0_len : ℕ
method0_len = 34

abbrev pub method1 : Bytes
method1 =
    0xe8 ∷ 0x00 ∷ 0x00 ∷ 0x00 ∷ 0x00 ∷ 0x41 ∷ 0x5a ∷ 0x49 ∷ 0x81 ∷ 0xea ∷ 0x25 ∷ 0x00 ∷ 0x00 ∷ 0x00
    ∷ 0x48 ∷ 0x89 ∷ 0xd1 ∷ 0x48 ∷ 0x89 ∷ 0xfa ∷ 0x49 ∷ 0x8b ∷ 0x3a ∷ 0x49 ∷ 0x8b ∷ 0x72 ∷ 0x08
    ∷ 0x4d ∷ 0x8b ∷ 0x5a ∷ 0x10 ∷ 0x49 ∷ 0xff ∷ 0xe3 ∷ 0x00 ∷ 0x00 ∷ []

abbrev pub method1_len : ℕ
method1_len = 36

abbrev pub method2 : Bytes
method2 =
    0xe8 ∷ 0x00 ∷ 0x00 ∷ 0x00 ∷ 0x00 ∷ 0x41 ∷ 0x5a ∷ 0x49 ∷ 0x81 ∷ 0xea ∷ 0x25 ∷ 0x00 ∷ 0x00 ∷ 0x00
    ∷ 0x49 ∷ 0x89 ∷ 0xc8 ∷ 0x48 ∷ 0x89 ∷ 0xd1 ∷ 0x48 ∷ 0x89 ∷ 0xfa ∷ 0x49 ∷ 0x8b ∷ 0x3a ∷ 0x49
    ∷ 0x8b ∷ 0x72 ∷ 0x08 ∷ 0x4d ∷ 0x8b ∷ 0x5a ∷ 0x10 ∷ 0x49 ∷ 0xff ∷ 0xe3 ∷ 0x00 ∷ []

abbrev pub method2_len : ℕ
method2_len = 38

abbrev pub method3 : Bytes
method3 =
    0xe8 ∷ 0x00 ∷ 0x00 ∷ 0x00 ∷ 0x00 ∷ 0x41 ∷ 0x5a ∷ 0x49 ∷ 0x81 ∷ 0xea ∷ 0x25 ∷ 0x00 ∷ 0x00 ∷ 0x00
    ∷ 0x4d ∷ 0x89 ∷ 0xc1 ∷ 0x49 ∷ 0x89 ∷ 0xc8 ∷ 0x48 ∷ 0x89 ∷ 0xd1 ∷ 0x48 ∷ 0x89 ∷ 0xfa ∷ 0x49
    ∷ 0x8b ∷ 0x3a ∷ 0x49 ∷ 0x8b ∷ 0x72 ∷ 0x08 ∷ 0x4d ∷ 0x8b ∷ 0x5a ∷ 0x10 ∷ 0x49 ∷ 0xff ∷ 0xe3 ∷ []

abbrev pub method3_len : ℕ
method3_len = 40

abbrev pub method4 : Bytes
method4 = []

abbrev pub method4_len : ℕ
method4_len = 0

abbrev pub method5 : Bytes
method5 = []

abbrev pub method5_len : ℕ
method5_len = 0
