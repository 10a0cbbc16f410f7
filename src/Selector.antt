-- ===== src/Selector.antt =====
-- Selectors: the functions of FSClass/Functions.m that read, check and count them. A string is the
-- list of its characters.
pub mod Grammar
pub mod Parameters
use fscript_extensions.Prelude.{
  ℕ, zero, suc, ◌+◌, ◌<◌, Bool, true, false, not, ◌&&◌, ◌||◌, Option, none, some, List, [], ◌∷◌,
  ◌++◌, Bytes, codes, ltb, leb, ◌==◌, if◌then◌else◌, replicate, get_elem?,
}

-- The classes of characters that the checks name.
unfoldable pub is_alpha : ℕ → Bool
is_alpha c = (leb b'a' c && leb c b'z') || (leb b'A' c && leb c b'Z')

unfoldable pub is_numeric : ℕ → Bool
is_numeric c = leb b'0' c && leb c b'9'

-- A character that a selector, or a part of it, can begin with.
unfoldable pub is_start : ℕ → Bool
unfolding is_alpha
is_start c = c == b'_' || is_alpha c

-- A null ends a C string.
unfoldable pub until_null : Bytes → Bytes
until_null [] = []
until_null (c ∷ s) = let rest = until_null s in if c == 0 then [] else c ∷ rest

unfoldable pub all_ascii : Bytes → Bool
all_ascii [] = true
all_ascii (c ∷ s) = ltb c 128 && all_ascii s

-- `cStringUsingEncoding:NSASCIIStringEncoding`, which is `NULL` for a string that is not ASCII.
unfoldable pub ascii_c_string : Bytes → Option Bytes
unfolding until_null all_ascii
ascii_c_string s = if all_ascii s then some (until_null s) else none

-- The next character, 0 at the end.
abbrev pub peek : Bytes → ℕ
peek [] = 0
peek (c ∷ s) = c

-- One round of the `while` loop of `isLegitSelector` at the character `c`, before `s`: the answer,
-- or that of the rounds that follow. `count` is the number of colons up to here.
unfoldable pub legit_round : ℕ → ℕ → Bytes → Bool → Bool
unfolding is_alpha is_numeric is_start
legit_round count c s following =
    let is_colon = c == b':' in
    if is_colon && peek s == 0
    then true
    else if is_colon && not (is_start (peek s))
    then false
    else if not (is_colon || c == b'_' || is_alpha c || is_numeric c)
    then false
    else if not is_colon && ltb 0 count && peek s == 0
    then false
    else following

-- The loop, with the colons so far.
unfoldable pub legit_rest : ℕ → Bytes → Bool
unfolding legit_round
legit_rest arg_count [] = true
legit_rest arg_count (c ∷ s) =
    let count = if c == b':' then arg_count + 1 else arg_count in
    let following = legit_rest count s in legit_round count c s following

abbrev pub legit_c_string : Option Bytes → Bool
legit_c_string none = false
legit_c_string (some []) = false
legit_c_string (some (c ∷ s)) = is_start c && legit_rest 0 s

-- `isLegitSelector`
unfoldable pub is_legit_selector : Bytes → Bool
unfolding legit_rest is_start ascii_c_string
is_legit_selector s = legit_c_string (ascii_c_string s)

unfoldable pub count_colons : Bytes → ℕ
count_colons [] = 0
count_colons (c ∷ s) = let rest = count_colons s in if c == b':' then suc rest else rest

-- `getSelectorParameterCount`: the loop tests the character behind the one it is at, so the first
-- character is not counted.
unfoldable pub get_selector_parameter_count : Bytes → ℕ
unfolding count_colons
get_selector_parameter_count [] = 0
get_selector_parameter_count (c ∷ s) = count_colons s

-- `signatures`, the table of FSClass/Functions.m.
abbrev pub signatures : List Bytes
signatures =
    codes "@@:"
    ∷ codes "@@:@"
    ∷ codes "@@:@@"
    ∷ codes "@@:@@@"
    ∷ codes "@@:@@@@"
    ∷ codes "@@:@@@@@"
    ∷ codes "@@:@@@@@@"
    ∷ []

-- `createMethodSignature`: the signature, and whether the caller has to free it. A read beyond the
-- table would be `none`.
unfoldable pub create_method_signature : ℕ → Option (Bytes × Bool)
create_method_signature arg_count =
    if ltb arg_count 6
    then elim (get_elem? signatures arg_count) [ none ↦ none | some s ↦ some (s, false) ]
    else some (b'@' ∷ b'@' ∷ b':' ∷ replicate arg_count b'@', true)
