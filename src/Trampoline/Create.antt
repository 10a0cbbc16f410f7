-- ===== src/Trampoline/Create.antt =====
-- `createMethodTrampoline` (FSClass/Trampoline.m) over the layout of a trampoline
-- (FSClass/Trampoline.h). What `malloc` and `mprotect` return, the address of `objc_msgSend` and
-- that of a selector are arguments.
pub mod Pages
pub mod Installed
use fscript_extensions.Prelude.{
  ℕ, zero, suc, Bool, true, false, not, Option, none, some, take, Bytes, codes, ◌++◌, ◌+◌, ◌*◌, ◌/◌,
  if◌then◌else◌,
}
use fscript_extensions.Trampoline.Call.{Memory, store_text, store_word}
use fscript_extensions.Trampoline.Ia32.{returned}
use fscript_extensions.Trampoline.Ppc
use fscript_extensions.Trampoline.Ppc64
use fscript_extensions.Trampoline.I386
use fscript_extensions.Trampoline.X8664

-- `__ppc__`, `__ppc64__`, `__i386__` and `__x86_64__`.
pub data Arch : Type 0 where
  ppc ppc64 i386 x86_64 : Arch

-- `__LP64__`
abbrev pub lp64 : Arch → Bool
lp64 ppc = false
lp64 ppc64 = true
lp64 i386 = false
lp64 x86_64 = true

-- `TRAMPOLINE_MAX_ARG_COUNT`
abbrev pub max_arg_count : Arch → ℕ
max_arg_count x86_64 = 3
max_arg_count _ = 5

-- `TRAMPOLINE_TARGET_OFFSET`, `TRAMPOLINE_SELECTOR_OFFSET`, `TRAMPOLINE_MSGSEND_OFFSET`,
-- `TRAMPOLINE_CODE_OFFSET` and `TRAMPOLINE_HEADER_SIZE`.
abbrev pub target_offset : Arch → ℕ
target_offset a = 0

abbrev pub selector_offset : Arch → ℕ
selector_offset a = if lp64 a then 8 else 4

abbrev pub msgsend_offset : Arch → ℕ
msgsend_offset a = if lp64 a then 16 else 8

abbrev pub code_offset : Arch → ℕ
code_offset a = if lp64 a then 32 else 16

abbrev pub header_size : Arch → ℕ
header_size a = 4 * (if lp64 a then 8 else 4)

-- The machine code and its declared length, in the table that the architecture includes.
abbrev pub method_code : Arch → ℕ → Option (Bytes × ℕ)
method_code ppc zero = some (Ppc.method0, Ppc.method0_len)
method_code ppc (suc zero) = some (Ppc.method1, Ppc.method1_len)
method_code ppc (suc (suc zero)) = some (Ppc.method2, Ppc.method2_len)
method_code ppc (suc (suc (suc zero))) = some (Ppc.method3, Ppc.method3_len)
method_code ppc (suc (suc (suc (suc zero)))) = some (Ppc.method4, Ppc.method4_len)
method_code ppc (suc (suc (suc (suc (suc zero))))) = some (Ppc.method5, Ppc.method5_len)
method_code ppc64 zero = some (Ppc64.method0, Ppc64.method0_len)
method_code ppc64 (suc zero) = some (Ppc64.method1, Ppc64.method1_len)
method_code ppc64 (suc (suc zero)) = some (Ppc64.method2, Ppc64.method2_len)
method_code ppc64 (suc (suc (suc zero))) = some (Ppc64.method3, Ppc64.method3_len)
method_code ppc64 (suc (suc (suc (suc zero)))) = some (Ppc64.method4, Ppc64.method4_len)
method_code ppc64 (suc (suc (suc (suc (suc zero))))) = some (Ppc64.method5, Ppc64.method5_len)
method_code i386 zero = some (I386.method0, I386.method0_len)
method_code i386 (suc zero) = some (I386.method1, I386.method1_len)
method_code i386 (suc (suc zero)) = some (I386.method2, I386.method2_len)
method_code i386 (suc (suc (suc zero))) = some (I386.method3, I386.method3_len)
method_code i386 (suc (suc (suc (suc zero)))) = some (I386.method4, I386.method4_len)
method_code i386 (suc (suc (suc (suc (suc zero))))) = some (I386.method5, I386.method5_len)
method_code x86_64 zero = some (X8664.method0, X8664.method0_len)
method_code x86_64 (suc zero) = some (X8664.method1, X8664.method1_len)
method_code x86_64 (suc (suc zero)) = some (X8664.method2, X8664.method2_len)
method_code x86_64 (suc (suc (suc zero))) = some (X8664.method3, X8664.method3_len)
method_code x86_64 (suc (suc (suc (suc zero)))) = some (X8664.method4, X8664.method4_len)
method_code x86_64 (suc (suc (suc (suc (suc zero))))) = some (X8664.method5, X8664.method5_len)
method_code _ _ = none

-- The selector `value:` with one more `value:` for each argument.
abbrev pub value_selector : ℕ → Bytes
value_selector zero = codes "value:"
value_selector (suc n) = codes "value:" ++ value_selector n

-- What `mprotect` returns, with `errno` where it is -1.
pub data Protection : Type 0 where
  granted einval eacces enotsup other : Protection

-- `NULL`, an exception with its reason, or the trampoline's address.
pub data Created : Type 0 where
  null : Created
  thrown : Bytes → Memory → Created
  made : ℕ → Memory → Created

-- The page that the trampoline begins in.
abbrev pub page_size : ℕ
page_size = 1024 * 4

unfoldable pub nearest_page : ℕ → ℕ
nearest_page trampoline = trampoline / page_size * page_size

-- What follows the call of `mprotect`.
abbrev pub after_mprotect : Protection → ℕ → Memory → Created
after_mprotect granted t m = made t m
after_mprotect einval t m =
    thrown (codes "Could not construct trampoline: mprotect returned EINVAL") m
after_mprotect eacces t m =
    thrown (codes "Could not construct trampoline: mprotect returned EACCES") m
after_mprotect enotsup t m =
    thrown (codes "Could not construct trampoline: mprotect returned ENOTSUP") m
after_mprotect other t m =
    thrown (codes "Could not construct trampoline: mprotect failed, reason unknown") m

-- On 64 bits `mprotect` is called, with the address and the length of what becomes executable.
unfoldable pub protect : Arch → (ℕ → ℕ → Protection) → ℕ → Memory → Created
unfolding nearest_page
protect a mprotect t m =
    if lp64 a then after_mprotect (mprotect (nearest_page t) (2 * page_size)) t m else made t m

-- `COPY_TRAMPOLINE` and the three `TRAMPOLINE_SET_…` macros: the memory that the code runs in.
abbrev pub installed : Arch → Bytes → ℕ → ℕ → ℕ → ℕ → Memory → Memory
installed a code t block selector msgsend m = store_word (t + msgsend_offset a) msgsend (
    store_word (t + selector_offset a) selector
      (store_word (t + target_offset a) block (store_text (t + code_offset a) code m)))

-- From the choice of the code on.
unfoldable pub build :
    Arch → ℕ → ℕ → ℕ → (ℕ → ℕ → Protection) → ℕ → Memory → Option (Bytes × ℕ) → Created
unfolding protect
build a selector msgsend trampoline mprotect block m none = null
build a selector msgsend trampoline mprotect block m (some (code, len)) =
    protect a mprotect trampoline (installed a (take len code) trampoline block selector msgsend m)

-- `block` is the target, `trampoline` the address of the allocated memory.
pub create_method_trampoline :
    Arch → (Bytes → ℕ) → ℕ → ℕ → (ℕ → ℕ → Protection) → ℕ → ℕ → Memory → Created
unfolding build
create_method_trampoline a selector_address msgsend trampoline mprotect param_count block m =
    build a (selector_address (value_selector param_count)) msgsend trampoline mprotect block m
      (method_code a param_count)
