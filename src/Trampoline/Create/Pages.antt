-- ===== src/Trampoline/Create/Pages.antt =====
-- The memory that `createMethodTrampoline` (FSClass/Trampoline.m) allocates, fills and makes
-- executable.
use fscript_extensions.Prelude.{ℕ, Option, none, some, length, Bytes, ◌+◌, ◌%◌, ◌≤◌, ◌≡◌}
use fscript_extensions.Trampoline.Create.{Protection, granted}

-- A table's entry is as long as it says, and no longer than 80 bytes.
abbrev pub IsExact : Option (Bytes × ℕ) → Type 0
IsExact none = Unit
IsExact (some (code, len)) = (length code ≡ len) × (len ≤ 80)

-- Every range that begins at a page and holds all bytes from `t` on is made executable on request.
abbrev pub GrantsCovering : (ℕ → ℕ → Protection) → ℕ → ℕ → Type 0
GrantsCovering mprotect t size =
    (address range : ℕ)
    → address % 4096 ≡ 0
    → address ≤ t
    → t + size ≤ address + range
    → mprotect address range ≡ granted
