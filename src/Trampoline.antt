-- ===== src/Trampoline.antt =====
-- The method trampolines (FSClass/Trampoline.h, FSClass/Trampoline.m and the tables of machine
-- code that they include): the code bytes, one interpreter for each instruction set, the function
-- that builds a trampoline, and what a built trampoline does.
pub mod Call
pub mod Powerpc
pub mod Ia32
pub mod Amd64
pub mod Ppc
pub mod Ppc64
pub mod I386
pub mod X8664
pub mod Create
