-- ===== src/File/Object/Buffered.antt =====
-- A file that reads lines is the handle's text behind the buffered one (fscript-CLI/FSFile.m).
use fscript_extensions.Prelude.{
  ℕ, zero, suc, refl, sym, ap, true, none, some, arith, inl, inr, length, take, drop, Bytes,
  Option-cases, length-append, take-append-drop, append_assoc, [], ◌∷◌, ◌++◌, ◌+◌, ◌-◌, ◌≡◌, ◌∙◌,
  ◌⊎◌,
}
use fscript_extensions.File.Object.{FsFile, after_reading, file_readln, may_read, state_of}
use fscript_extensions.File.Handle.{NsFileHandle, can_read, unread}
use fscript_extensions.File.{
  State, chunk_size, read_rounds, readln_with_separator, split_at, split_at_c_string,
}
use fscript_extensions.Selector.{until_null}

-- What a call leaves of the text is its end.
abbrev IsEndOf : Bytes → Bytes → Type 0
IsEndOf rest text = (p : Bytes) × (text ≡ p ++ rest)

IsEndOf-drop : (n : ℕ) (rest text : Bytes) → IsEndOf rest (drop n text) → IsEndOf rest text
IsEndOf-drop n rest text (p, e) = (
  take n text ++ p,
  sym (take-append-drop n text)
      ∙ ap (λ r. take n text ++ r) e
      ∙ sym (append_assoc (take n text) p rest),
)

round-end :
    (fuel : ℕ) (separator sustain : Bytes)
    → (read_rounds
        (suc fuel)
        separator
        (record { remaining = []; sustain_buffer = sustain })).1.remaining
      ≡ []
unfolding read_rounds
round-end fuel separator sustain = refl

round-next :
    (fuel x : ℕ) (separator s sustain : Bytes)
    → let later = drop chunk_size (x ∷ s) in
      let r =
        read_rounds (suc fuel) separator (record { remaining = x ∷ s; sustain_buffer = sustain }) in
      (r.1.remaining ≡ later)
      ⊎ ((more : Bytes) × (r
            ≡ read_rounds fuel separator (record { remaining = later; sustain_buffer = more })))
unfolding read_rounds
round-next fuel x separator s sustain =
    elim (Option-cases (split_at_c_string separator (until_null (take chunk_size (x ∷ s))))) [
      | inl e ↦ inr (sustain ++ until_null (take chunk_size (x ∷ s)), ground (arith, e))
      | inr ((before, after), e) ↦ inl (ground (arith, e))
    ]

rounds-IsEndOf :
    (fuel : ℕ) (separator remaining sustain : Bytes)
    → IsEndOf
        (read_rounds fuel separator
          (record { remaining = remaining; sustain_buffer = sustain })).1.remaining
        remaining
rounds-IsEndOf zero separator remaining sustain = unfold read_rounds in ([], refl)
rounds-IsEndOf (suc fuel) separator [] sustain = ([], sym (round-end fuel separator sustain))
rounds-IsEndOf (suc fuel) separator (x ∷ s) sustain =
    let text = x ∷ s in
    elim (round-next fuel x separator s sustain) [
      | inl e ↦ rw e (IsEndOf-drop chunk_size (drop chunk_size text) text ([], refl))
      | inr (more, e) ↦ rw e (
          IsEndOf-drop chunk_size _ text
            (rounds-IsEndOf fuel separator (drop chunk_size text) more))
    ]

readln-remaining :
    (separator : Bytes) (st : State)
    → ((readln_with_separator separator st).1.remaining ≡ st.remaining)
      ⊎ (readln_with_separator separator st ≡ read_rounds (suc (length st.remaining)) separator st)
unfolding readln_with_separator
readln-remaining separator st = elim (Option-cases (split_at separator st.sustain_buffer)) [
  | inl e ↦ inr (ground (arith, e))
  | inr ((before, after), e) ↦ inl (ground (arith, e))
]

readln-IsEndOf :
    (separator : Bytes) (st : State)
    → IsEndOf (readln_with_separator separator st).1.remaining st.remaining
readln-IsEndOf separator st = elim (readln-remaining separator st) [
  | inl e ↦ rw e ([], refl)
  | inr e ↦
      rw e (rounds-IsEndOf (suc (length st.remaining)) separator st.remaining st.sustain_buffer)
]

pub drop-empty : (n : ℕ) → drop {A = ℕ} n [] ≡ []
drop-empty zero = refl
drop-empty (suc n) = refl

pub drop-drop : (m n : ℕ) (s : Bytes) → drop (m + n) s ≡ drop n (drop m s)
drop-drop zero n s = ap (λ k. drop k s) {x = 0 + n} {y = n} (omega arith)
drop-drop (suc m) n [] = rw (drop-empty (suc m + n), drop-empty n) refl
drop-drop (suc m) n (x ∷ s) =
    ap (λ k. drop k (x ∷ s)) {x = suc m + n} {y = suc (m + n)} (omega arith) ∙ drop-drop m n s

pub drop-length : (p s : Bytes) → drop (length p) (p ++ s) ≡ s
drop-length [] s = refl
drop-length (x ∷ p) s = drop-length p s

drop-before : (p s : Bytes) → drop (length (p ++ s) - length s) (p ++ s) ≡ s
drop-before p s =
    ap (λ n. drop n (p ++ s)) {x = length (p ++ s) - length s} {y = length p}
      (omega (arith, length-append p s))
    ∙ drop-length p s

rest-nil :
    (f : FsFile) (st : State) (p : Bytes)
    → f.file_handle ≡ none
    → (state_of f).remaining ≡ p ++ st.remaining
    → state_of (after_reading f st) ≡ st
rest-nil f st [] nil e = ground (arith, nil, e)
rest-nil f st (x ∷ p) nil e = ground (arith, nil, e)

rest-handle :
    (f : FsFile) (st : State) (p : Bytes) (h : NsFileHandle)
    → f.file_handle ≡ some h
    → (state_of f).remaining ≡ p ++ st.remaining
    → state_of (after_reading f st) ≡ st
rest-handle f st p h here e =
    let whole : unread h ≡ p ++ st.remaining = ground (arith, here, e) in
    let n = length (unread h) - length st.remaining in
    let rest : drop (h.offset + n) h.contents ≡ st.remaining =
      drop-drop h.offset n h.contents ∙ (rw whole (drop-before p st.remaining)) in
    ground (arith, here, rest)

state_of-rest :
    (f : FsFile) (st : State)
    → IsEndOf st.remaining (state_of f).remaining
    → state_of (after_reading f st) ≡ st
state_of-rest f st (p, e) = elim (Option-cases f.file_handle) [
  | inl nil ↦ rest-nil f st p nil e
  | inr (h, here) ↦ rest-handle f st p h here e
]

-- What a call leaves is what the next call starts from.
pub state_of-after_reading :
    (separator : Bytes) (f : FsFile)
    → let st = (readln_with_separator separator (state_of f)).1 in
      state_of (after_reading f st) ≡ st
state_of-after_reading separator f =
    state_of-rest f (readln_with_separator separator (state_of f)).1
      (readln-IsEndOf separator (state_of f))

-- Every call of the file may read: its handle is open for reading, or there is none.
abbrev pub Readable : FsFile → Type 0
Readable f = elim f.file_handle [ none ↦ true | some h ↦ can_read h ] ≡ true

pub Readable-after_reading : (f : FsFile) (st : State) → Readable f → Readable (after_reading f st)
Readable-after_reading f st h = elim (Option-cases f.file_handle) [
  | inl e ↦ ground (arith, e, h)
  | inr (g, e) ↦ ground (arith, e, h)
]

Readable-may_read :
    (c : ℕ) (separator : Bytes) (f : FsFile) → Readable f → may_read (c ∷ separator) f ≡ true
Readable-may_read c separator f h = elim (Option-cases f.file_handle) [
  | inl e ↦ ground (arith, e, h)
  | inr (g, e) ↦ ground (arith, e, h)
]

pub file_readln-answer :
    (c : ℕ) (separator : Bytes) (f : FsFile)
    → Readable f
    → let r = readln_with_separator (c ∷ separator) (state_of f) in
      file_readln (c ∷ separator) f ≡ some (r.0, after_reading f r.1)
unfolding file_readln
file_readln-answer c separator f h = rw (Readable-may_read c separator f h) refl
