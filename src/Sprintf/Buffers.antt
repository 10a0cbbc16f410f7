-- ===== src/Sprintf/Buffers.antt =====
-- The growing buffer of fscript-CLI/StringSprintf.m.
use fscript_extensions.Prelude.{
  ℕ, suc, refl, Bool, true, List, arith, leb, [], ◌∷◌, ◌+◌, ◌≤◌, ◌≡◌, ◌∙◌, ◌&&◌,
}
use fscript_extensions.Sprintf.{Buffer, add_char, add_string, initial_buffer, pad_buffer}

pub data Append : Type 0 where
  one_char : Append
  string padded : ℕ → Append

abbrev pub append : Append → Buffer → Buffer × ℕ
append one_char b = add_char b
append (string n) b = add_string n b
append (padded n) b = pad_buffer n b

-- The position is inside the length, and the allocation holds a null more.
abbrev pub IsSound : Buffer → Type 0
IsSound b =
    (suc b.pos ≤ b.buffer_length) × (b.allocated ≡ suc b.buffer_length) × (2 ≤ b.buffer_length)

pub append-IsSound :
    (a : Append) (b : Buffer)
    → IsSound b
    → IsSound (append a b).0 × ((append a b).1 ≤ (append a b).0.allocated)
unfolding add_char add_string pad_buffer
append-IsSound one_char b h = ground (arith, h)
append-IsSound (string n) b h = ground (arith, h)
append-IsSound (padded n) b h = ground (arith, h)

-- Whether no write of a sequence of macros leaves the allocation, and the buffer at the end.
abbrev pub writes_fit : List Append → Buffer → Bool
writes_fit [] b = true
writes_fit (a ∷ rest) b = let r = append a b in leb r.1 r.0.allocated && writes_fit rest r.0

abbrev pub after_all : List Append → Buffer → Buffer
after_all [] b = b
after_all (a ∷ rest) b = after_all rest (append a b).0

-- The characters that a sequence adds.
abbrev pub added_chars : List Append → ℕ
added_chars [] = 0
added_chars (one_char ∷ rest) = suc (added_chars rest)
added_chars (string n ∷ rest) = n + added_chars rest
added_chars (padded n ∷ rest) = n + added_chars rest

append-pos :
    (a : Append) (rest : List Append) (b : Buffer)
    → (append a b).0.pos + added_chars rest ≡ b.pos + added_chars (a ∷ rest)
unfolding add_char add_string pad_buffer
append-pos one_char rest b = ground arith
append-pos (string n) rest b = ground arith
append-pos (padded n) rest b = ground arith

sound_writes :
    (steps : List Append) (b : Buffer)
    → IsSound b
    → (writes_fit steps b ≡ true) × ((after_all steps b).pos ≡ b.pos + added_chars steps)
sound_writes [] b h = (refl, omega arith)
sound_writes (a ∷ rest) b h =
    let (sound, fits) = append-IsSound a b h in
    let (later, position) = sound_writes rest (append a b).0 sound in
    let here : leb (append a b).1 (append a b).0.allocated ≡ true = ground (arith, fits) in
    (rw (here, later) refl, position ∙ append-pos a rest b)

-- Whatever characters, strings and paddings `sprintf:` adds to its buffer from the beginning, no write
-- leaves the memory that is allocated at that time, nulls included, and the position is in the end the
-- number of the characters added.
pub writes_stay_inside :
    (steps : List Append)
    → (writes_fit steps initial_buffer ≡ true)
      × ((after_all steps initial_buffer).pos ≡ added_chars steps)
writes_stay_inside steps =
    let (inside, position) = sound_writes steps initial_buffer (omega arith, refl, omega arith) in
    (inside, omega (arith, position))
