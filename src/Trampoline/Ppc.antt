-- ===== src/Trampoline/Ppc.antt =====
-- The machine code of the 32-bit PowerPC trampolines, byte by byte (FSClass/trampolines/ppc/trampoline-ppc.c).
pub mod Dispatch
pub mod Registers
use fscript_extensions.Prelude.{ℕ, [], ◌∷◌, Bytes}

abbrev pub getter : Bytes
getter =
    0x7e ∷ 0x48 ∷ 0x02 ∷ 0xa6 ∷ 0x7e ∷ 0x10 ∷ 0x82 ∷ 0x79 ∷ 0x40 ∷ 0x82 ∷ 0xff ∷ 0xf9 ∷ 0x7e ∷ 0x08
    ∷ 0x02 ∷ 0xa6 ∷ 0x3a ∷ 0x10 ∷ 0xff ∷ 0xe4 ∷ 0x7e ∷ 0x48 ∷ 0x03 ∷ 0xa6 ∷ 0x82 ∷ 0x50 ∷ 0x00
    ∷ 0x00 ∷ 0x7e ∷ 0x63 ∷ 0x92 ∷ 0x14 ∷ 0x80 ∷ 0x73 ∷ 0x00 ∷ 0x00 ∷ 0x4e ∷ 0x80 ∷ 0x00 ∷ 0x20 ∷ []

abbrev pub getter_len : ℕ
getter_len = 40

abbrev pub method0 : Bytes
method0 =
    0x7c ∷ 0x08 ∷ 0x02 ∷ 0xa6 ∷ 0x7e ∷ 0x10 ∷ 0x82 ∷ 0x79 ∷ 0x40 ∷ 0x82 ∷ 0xff ∷ 0xf9 ∷ 0x7e ∷ 0x08
    ∷ 0x02 ∷ 0xa6 ∷ 0x3a ∷ 0x10 ∷ 0xff ∷ 0xe4 ∷ 0x7c ∷ 0x65 ∷ 0x1b ∷ 0x78 ∷ 0x80 ∷ 0x70 ∷ 0x00
    ∷ 0x00 ∷ 0x80 ∷ 0x90 ∷ 0x00 ∷ 0x04 ∷ 0x7c ∷ 0x08 ∷ 0x03 ∷ 0xa6 ∷ 0x81 ∷ 0xf0 ∷ 0x00 ∷ 0x08
    ∷ 0x7e ∷ 0x10 ∷ 0x82 ∷ 0x79 ∷ 0x7d ∷ 0xe9 ∷ 0x03 ∷ 0xa6 ∷ 0x4e ∷ 0x80 ∷ 0x04 ∷ 0x20 ∷ []

abbrev pub method0_len : ℕ
method0_len = 52

abbrev pub method1 : Bytes
method1 =
    0x7c ∷ 0x08 ∷ 0x02 ∷ 0xa6 ∷ 0x7e ∷ 0x10 ∷ 0x82 ∷ 0x79 ∷ 0x40 ∷ 0x82 ∷ 0xff ∷ 0xf9 ∷ 0x7e ∷ 0x08
    ∷ 0x02 ∷ 0xa6 ∷ 0x3a ∷ 0x10 ∷ 0xff ∷ 0xe4 ∷ 0x7c ∷ 0xa6 ∷ 0x2b ∷ 0x78 ∷ 0x7c ∷ 0x65 ∷ 0x1b
    ∷ 0x78 ∷ 0x80 ∷ 0x70 ∷ 0x00 ∷ 0x00 ∷ 0x80 ∷ 0x90 ∷ 0x00 ∷ 0x04 ∷ 0x7c ∷ 0x08 ∷ 0x03 ∷ 0xa6
    ∷ 0x81 ∷ 0xf0 ∷ 0x00 ∷ 0x08 ∷ 0x7e ∷ 0x10 ∷ 0x82 ∷ 0x79 ∷ 0x7d ∷ 0xe9 ∷ 0x03 ∷ 0xa6 ∷ 0x4e
    ∷ 0x80 ∷ 0x04 ∷ 0x20 ∷ []

abbrev pub method1_len : ℕ
method1_len = 56

abbrev pub method2 : Bytes
method2 =
    0x7c ∷ 0x08 ∷ 0x02 ∷ 0xa6 ∷ 0x7e ∷ 0x10 ∷ 0x82 ∷ 0x79 ∷ 0x40 ∷ 0x82 ∷ 0xff ∷ 0xf9 ∷ 0x7e ∷ 0x08
    ∷ 0x02 ∷ 0xa6 ∷ 0x3a ∷ 0x10 ∷ 0xff ∷ 0xe4 ∷ 0x7c ∷ 0xc7 ∷ 0x33 ∷ 0x78 ∷ 0x7c ∷ 0xa6 ∷ 0x2b
    ∷ 0x78 ∷ 0x7c ∷ 0x65 ∷ 0x1b ∷ 0x78 ∷ 0x80 ∷ 0x70 ∷ 0x00 ∷ 0x00 ∷ 0x80 ∷ 0x90 ∷ 0x00 ∷ 0x04
    ∷ 0x7c ∷ 0x08 ∷ 0x03 ∷ 0xa6 ∷ 0x81 ∷ 0xf0 ∷ 0x00 ∷ 0x08 ∷ 0x7e ∷ 0x10 ∷ 0x82 ∷ 0x79 ∷ 0x7d
    ∷ 0xe9 ∷ 0x03 ∷ 0xa6 ∷ 0x4e ∷ 0x80 ∷ 0x04 ∷ 0x20 ∷ []

abbrev pub method2_len : ℕ
method2_len = 60

abbrev pub method3 : Bytes
method3 =
    0x7c ∷ 0x08 ∷ 0x02 ∷ 0xa6 ∷ 0x7e ∷ 0x10 ∷ 0x82 ∷ 0x79 ∷ 0x40 ∷ 0x82 ∷ 0xff ∷ 0xf9 ∷ 0x7e ∷ 0x08
    ∷ 0x02 ∷ 0xa6 ∷ 0x3a ∷ 0x10 ∷ 0xff ∷ 0xe4 ∷ 0x7c ∷ 0xe8 ∷ 0x3b ∷ 0x78 ∷ 0x7c ∷ 0xc7 ∷ 0x33
    ∷ 0x78 ∷ 0x7c ∷ 0xa6 ∷ 0x2b ∷ 0x78 ∷ 0x7c ∷ 0x65 ∷ 0x1b ∷ 0x78 ∷ 0x80 ∷ 0x70 ∷ 0x00 ∷ 0x00
    ∷ 0x80 ∷ 0x90 ∷ 0x00 ∷ 0x04 ∷ 0x7c ∷ 0x08 ∷ 0x03 ∷ 0xa6 ∷ 0x81 ∷ 0xf0 ∷ 0x00 ∷ 0x08 ∷ 0x7e
    ∷ 0x10 ∷ 0x82 ∷ 0x79 ∷ 0x7d ∷ 0xe9 ∷ 0x03 ∷ 0xa6 ∷ 0x4e ∷ 0x80 ∷ 0x04 ∷ 0x20 ∷ []

abbrev pub method3_len : ℕ
method3_len = 64

abbrev pub method4 : Bytes
method4 =
    0x7c ∷ 0x08 ∷ 0x02 ∷ 0xa6 ∷ 0x7e ∷ 0x10 ∷ 0x82 ∷ 0x79 ∷ 0x40 ∷ 0x82 ∷ 0xff ∷ 0xf9 ∷ 0x7e ∷ 0x08
    ∷ 0x02 ∷ 0xa6 ∷ 0x3a ∷ 0x10 ∷ 0xff ∷ 0xe4 ∷ 0x7d ∷ 0x09 ∷ 0x43 ∷ 0x78 ∷ 0x7c ∷ 0xe8 ∷ 0x3b
    ∷ 0x78 ∷ 0x7c ∷ 0xc7 ∷ 0x33 ∷ 0x78 ∷ 0x7c ∷ 0xa6 ∷ 0x2b ∷ 0x78 ∷ 0x7c ∷ 0x65 ∷ 0x1b ∷ 0x78
    ∷ 0x80 ∷ 0x70 ∷ 0x00 ∷ 0x00 ∷ 0x80 ∷ 0x90 ∷ 0x00 ∷ 0x04 ∷ 0x7c ∷ 0x08 ∷ 0x03 ∷ 0xa6 ∷ 0x81
    ∷ 0xf0 ∷ 0x00 ∷ 0x08 ∷ 0x7e ∷ 0x10 ∷ 0x82 ∷ 0x79 ∷ 0x7d ∷ 0xe9 ∷ 0x03 ∷ 0xa6 ∷ 0x4e ∷ 0x80
    ∷ 0x04 ∷ 0x20 ∷ []

abbrev pub method4_len : ℕ
method4_len = 68

abbrev pub method5 : Bytes
method5 =
    0x7c ∷ 0x08 ∷ 0x02 ∷ 0xa6 ∷ 0x7e ∷ 0x10 ∷ 0x82 ∷ 0x79 ∷ 0x40 ∷ 0x82 ∷ 0xff ∷ 0xf9 ∷ 0x7e ∷ 0x08
    ∷ 0x02 ∷ 0xa6 ∷ 0x3a ∷ 0x10 ∷ 0xff ∷ 0xe4 ∷ 0x7d ∷ 0x2a ∷ 0x4b ∷ 0x78 ∷ 0x7d ∷ 0x09 ∷ 0x43
    ∷ 0x78 ∷ 0x7c ∷ 0xe8 ∷ 0x3b ∷ 0x78 ∷ 0x7c ∷ 0xc7 ∷ 0x33 ∷ 0x78 ∷ 0x7c ∷ 0xa6 ∷ 0x2b ∷ 0x78
    ∷ 0x7c ∷ 0x65 ∷ 0x1b ∷ 0x78 ∷ 0x80 ∷ 0x70 ∷ 0x00 ∷ 0x00 ∷ 0x80 ∷ 0x90 ∷ 0x00 ∷ 0x04 ∷ 0x7c
    ∷ 0x08 ∷ 0x03 ∷ 0xa6 ∷ 0x81 ∷ 0xf0 ∷ 0x00 ∷ 0x08 ∷ 0x7e ∷ 0x10 ∷ 0x82 ∷ 0x79 ∷ 0x7d ∷ 0xe9
    ∷ 0x03 ∷ 0xa6 ∷ 0x4e ∷ 0x80 ∷ 0x04 ∷ 0x20 ∷ []

abbrev pub method5_len : ℕ
method5_len = 72
