-- ===== src/Trampoline/I386.antt =====
-- The machine code of the 32-bit x86 trampolines, byte by byte (FSClass/trampolines/x86/trampoline-x86.c).
pub mod Dispatch
use fscript_extensions.Prelude.{ℕ, [], ◌∷◌, Bytes}

abbrev pub getter : Bytes
getter =
    0xe8 ∷ 0x00 ∷ 0x00 ∷ 0x00 ∷ 0x00 ∷ 0x59 ∷ 0x81 ∷ 0xe9 ∷ 0x15 ∷ 0x00 ∷ 0x00 ∷ 0x00 ∷ 0x8b ∷ 0x11
    ∷ 0x03 ∷ 0x54 ∷ 0x24 ∷ 0x04 ∷ 0x8b ∷ 0x02 ∷ 0xc3 ∷ 0x00 ∷ []

abbrev pub getter_len : ℕ
getter_len = 22

abbrev pub method0 : Bytes
method0 =
    0xe8 ∷ 0x00 ∷ 0x00 ∷ 0x00 ∷ 0x00 ∷ 0x59 ∷ 0x81 ∷ 0xe9 ∷ 0x15 ∷ 0x00 ∷ 0x00 ∷ 0x00 ∷ 0x8b ∷ 0x54
    ∷ 0x24 ∷ 0x04 ∷ 0x89 ∷ 0x54 ∷ 0x24 ∷ 0x0c ∷ 0x8b ∷ 0x11 ∷ 0x89 ∷ 0x54 ∷ 0x24 ∷ 0x04 ∷ 0x8b
    ∷ 0x51 ∷ 0x04 ∷ 0x89 ∷ 0x54 ∷ 0x24 ∷ 0x08 ∷ 0x8b ∷ 0x51 ∷ 0x08 ∷ 0xff ∷ 0xe2 ∷ 0x00 ∷ 0x00 ∷ []

abbrev pub method0_len : ℕ
method0_len = 40

abbrev pub method1 : Bytes
method1 =
    0xe8 ∷ 0x00 ∷ 0x00 ∷ 0x00 ∷ 0x00 ∷ 0x59 ∷ 0x81 ∷ 0xe9 ∷ 0x15 ∷ 0x00 ∷ 0x00 ∷ 0x00 ∷ 0x8b ∷ 0x54
    ∷ 0x24 ∷ 0x0c ∷ 0x89 ∷ 0x54 ∷ 0x24 ∷ 0x10 ∷ 0x8b ∷ 0x54 ∷ 0x24 ∷ 0x04 ∷ 0x89 ∷ 0x54 ∷ 0x24
    ∷ 0x0c ∷ 0x8b ∷ 0x11 ∷ 0x89 ∷ 0x54 ∷ 0x24 ∷ 0x04 ∷ 0x8b ∷ 0x51 ∷ 0x04 ∷ 0x89 ∷ 0x54 ∷ 0x24
    ∷ 0x08 ∷ 0x8b ∷ 0x51 ∷ 0x08 ∷ 0xff ∷ 0xe2 ∷ 0x00 ∷ 0x00 ∷ []

abbrev pub method1_len : ℕ
method1_len = 48

abbrev pub method2 : Bytes
method2 =
    0xe8 ∷ 0x00 ∷ 0x00 ∷ 0x00 ∷ 0x00 ∷ 0x59 ∷ 0x81 ∷ 0xe9 ∷ 0x15 ∷ 0x00 ∷ 0x00 ∷ 0x00 ∷ 0x8b ∷ 0x54
    ∷ 0x24 ∷ 0x10 ∷ 0x89 ∷ 0x54 ∷ 0x24 ∷ 0x14 ∷ 0x8b ∷ 0x54 ∷ 0x24 ∷ 0x0c ∷ 0x89 ∷ 0x54 ∷ 0x24
    ∷ 0x10 ∷ 0x8b ∷ 0x54 ∷ 0x24 ∷ 0x04 ∷ 0x89 ∷ 0x54 ∷ 0x24 ∷ 0x0c ∷ 0x8b ∷ 0x11 ∷ 0x89 ∷ 0x54
    ∷ 0x24 ∷ 0x04 ∷ 0x8b ∷ 0x51 ∷ 0x04 ∷ 0x89 ∷ 0x54 ∷ 0x24 ∷ 0x08 ∷ 0x8b ∷ 0x51 ∷ 0x08 ∷ 0xff
    ∷ 0xe2 ∷ 0x00 ∷ 0x00 ∷ []

abbrev pub method2_len : ℕ
method2_len = 56

abbrev pub method3 : Bytes
method3 =
    0xe8 ∷ 0x00 ∷ 0x00 ∷ 0x00 ∷ 0x00 ∷ 0x59 ∷ 0x81 ∷ 0xe9 ∷ 0x15 ∷ 0x00 ∷ 0x00 ∷ 0x00 ∷ 0x8b ∷ 0x54
    ∷ 0x24 ∷ 0x14 ∷ 0x89 ∷ 0x54 ∷ 0x24 ∷ 0x18 ∷ 0x8b ∷ 0x54 ∷ 0x24 ∷ 0x10 ∷ 0x89 ∷ 0x54 ∷ 0x24
    ∷ 0x14 ∷ 0x8b ∷ 0x54 ∷ 0x24 ∷ 0x0c ∷ 0x89 ∷ 0x54 ∷ 0x24 ∷ 0x10 ∷ 0x8b ∷ 0x54 ∷ 0x24 ∷ 0x04
    ∷ 0x89 ∷ 0x54 ∷ 0x24 ∷ 0x0c ∷ 0x8b ∷ 0x11 ∷ 0x89 ∷ 0x54 ∷ 0x24 ∷ 0x04 ∷ 0x8b ∷ 0x51 ∷ 0x04
    ∷ 0x89 ∷ 0x54 ∷ 0x24 ∷ 0x08 ∷ 0x8b ∷ 0x51 ∷ 0x08 ∷ 0xff ∷ 0xe2 ∷ 0x00 ∷ 0x00 ∷ []

abbrev pub method3_len : ℕ
method3_len = 64

abbrev pub method4 : Bytes
method4 =
    0xe8 ∷ 0x00 ∷ 0x00 ∷ 0x00 ∷ 0x00 ∷ 0x59 ∷ 0x81 ∷ 0xe9 ∷ 0x15 ∷ 0x00 ∷ 0x00 ∷ 0x00 ∷ 0x8b ∷ 0x54
    ∷ 0x24 ∷ 0x18 ∷ 0x89 ∷ 0x54 ∷ 0x24 ∷ 0x1c ∷ 0x8b ∷ 0x54 ∷ 0x24 ∷ 0x14 ∷ 0x89 ∷ 0x54 ∷ 0x24
    ∷ 0x18 ∷ 0x8b ∷ 0x54 ∷ 0x24 ∷ 0x10 ∷ 0x89 ∷ 0x54 ∷ 0x24 ∷ 0x14 ∷ 0x8b ∷ 0x54 ∷ 0x24 ∷ 0x0c
    ∷ 0x89 ∷ 0x54 ∷ 0x24 ∷ 0x10 ∷ 0x8b ∷ 0x54 ∷ 0x24 ∷ 0x04 ∷ 0x89 ∷ 0x54 ∷ 0x24 ∷ 0x0c ∷ 0x8b
    ∷ 0x11 ∷ 0x89 ∷ 0x54 ∷ 0x24 ∷ 0x04 ∷ 0x8b ∷ 0x51 ∷ 0x04 ∷ 0x89 ∷ 0x54 ∷ 0x24 ∷ 0x08 ∷ 0x8b
    ∷ 0x51 ∷ 0x08 ∷ 0xff ∷ 0xe2 ∷ 0x00 ∷ 0x00 ∷ []

abbrev pub method4_len : ℕ
method4_len = 72

abbrev pub method5 : Bytes
method5 =
    0xe8 ∷ 0x00 ∷ 0x00 ∷ 0x00 ∷ 0x00 ∷ 0x59 ∷ 0x81 ∷ 0xe9 ∷ 0x15 ∷ 0x00 ∷ 0x00 ∷ 0x00 ∷ 0x8b ∷ 0x54
    ∷ 0x24 ∷ 0x1c ∷ 0x89 ∷ 0x54 ∷ 0x24 ∷ 0x20 ∷ 0x8b ∷ 0x54 ∷ 0x24 ∷ 0x18 ∷ 0x89 ∷ 0x54 ∷ 0x24
    ∷ 0x1c ∷ 0x8b ∷ 0x54 ∷ 0x24 ∷ 0x14 ∷ 0x89 ∷ 0x54 ∷ 0x24 ∷ 0x18 ∷ 0x8b ∷ 0x54 ∷ 0x24 ∷ 0x10
    ∷ 0x89 ∷ 0x54 ∷ 0x24 ∷ 0x14 ∷ 0x8b ∷ 0x54 ∷ 0x24 ∷ 0x0c ∷ 0x89 ∷ 0x54 ∷ 0x24 ∷ 0x10 ∷ 0x8b
    ∷ 0x54 ∷ 0x24 ∷ 0x04 ∷ 0x89 ∷ 0x54 ∷ 0x24 ∷ 0x0c ∷ 0x8b ∷ 0x11 ∷ 0x89 ∷ 0x54 ∷ 0x24 ∷ 0x04
    ∷ 0x8b ∷ 0x51 ∷ 0x04 ∷ 0x89 ∷ 0x54 ∷ 0x24 ∷ 0x08 ∷ 0x8b ∷ 0x51 ∷ 0x08 ∷ 0xff ∷ 0xe2 ∷ 0x00
    ∷ 0x00 ∷ []

abbrev pub method5_len : ℕ
method5_len = 80
