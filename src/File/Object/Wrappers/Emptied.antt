-- ===== src/File/Object/Wrappers/Emptied.antt =====
-- Which methods of fscript-CLI/FSFile.m empty the buffer of `readln`.
use fscript_extensions.Prelude.{
  ℕ, zero, suc, Option, none, some, List, arith, inl, inr, length, Bytes, Bool-cases, Option-cases,
  [], ◌∷◌, ◌++◌, ◌+◌, ◌≡◌, ◌∙◌,
}
use fscript_extensions.File.Handle.{
  Background, NsFileHandle, ns_background, ns_close, ns_descriptor, ns_offset, ns_read,
  ns_read_to_end, ns_seek, ns_seek_to_end, ns_synchronize, ns_truncate, ns_write,
}
use fscript_extensions.Format.{
  Formatted, Value, formatted, no_width_value, not_enough_values, overruns_buffer, reads_past_end,
  uninitialised_text, sprintf, too_many_values,
}
use fscript_extensions.File.Object.{
  FsFile, Method, answer, collect_lines, file_readlines, file_readln, may_read, newln, print,
  println, println_blank, reset, send, state_of, truncate_sustain_buffer, ◌>>=◌, ◌>>◌,
}
use fscript_extensions.File.Object.Wrappers.{
  available_data, close_file, file_descriptor, in_background, offset_in_file, read_data_of_length,
  read_data_to_end_of_file, seek_to_end_of_file, seek_to_file_offset, synchronize_file,
  truncate_file_at_offset, write_data,
}
use fscript_extensions.Trampoline.Ppc.Dispatch.{found}
use fscript_extensions.File.Interface.Classes.{print_formatted, printf_with_values}

-- A call of a method with its arguments.
pub data Call : Type 0 where
  print_call println_call write_data_call : Bytes → Call
  println_blank_call newln_call reset_call file_descriptor_call available_data_call read_to_end_call
        offset_call seek_to_end_call synchronize_call close_call :
      Call
  read_length_call seek_call truncate_call : ℕ → Call
  background_call : Background → Call
  readln_call readlines_call : Bytes → Call
  printf_call : Bytes → List Value → Call

pub data Reply : Type 0 where
  no_reply : Reply
  text_reply : Option Bytes → Reply
  number_reply : ℕ → Reply
  lines_reply : List Bytes → Reply

as_text : Option Bytes → Method Reply
as_text t = answer (text_reply t)

as_number : ℕ → Method Reply
as_number n = answer (number_reply n)

unfoldable pub perform : Call → Method Reply
unfolding print println println_blank newln reset file_descriptor available_data
    read_data_to_end_of_file read_data_of_length write_data offset_in_file seek_to_end_of_file
    seek_to_file_offset truncate_file_at_offset synchronize_file close_file in_background
    file_readln file_readlines printf_with_values as_text as_number
perform (print_call s) = do print s; answer no_reply
perform (println_call s) = do println s; answer no_reply
perform (write_data_call s) = do write_data s; answer no_reply
perform println_blank_call = do println_blank; answer no_reply
perform newln_call = do newln; answer no_reply
perform reset_call = do reset; answer no_reply
perform file_descriptor_call = do n ← file_descriptor; as_number n
perform available_data_call = do t ← available_data; as_text t
perform read_to_end_call = do t ← read_data_to_end_of_file; as_text t
perform offset_call = do n ← offset_in_file; as_number n
perform seek_to_end_call = do n ← seek_to_end_of_file; as_number n
perform synchronize_call = do synchronize_file; answer no_reply
perform close_call = do close_file; answer no_reply
perform (read_length_call n) = do t ← read_data_of_length n; as_text t
perform (seek_call n) = do seek_to_file_offset n; answer no_reply
perform (truncate_call n) = do truncate_file_at_offset n; answer no_reply
perform (readln_call separator) = do t ← file_readln separator; as_text t
perform (readlines_call separator) = do ts ← file_readlines separator; answer (lines_reply ts)
perform (printf_call format values) = do printf_with_values format values; answer no_reply
perform (background_call work) = do in_background work; answer no_reply

-- The buffer after a call, by what it was before: as it was after those that print and two that only
-- ask, anything after those that read lines, and empty after all others.
abbrev pub BufferAfter : Call → Bytes → Bytes → Type 0
BufferAfter (print_call s) before after = after ≡ before
BufferAfter (println_call s) before after = after ≡ before
BufferAfter (printf_call format values) before after = after ≡ before
BufferAfter println_blank_call before after = after ≡ before
BufferAfter newln_call before after = after ≡ before
BufferAfter file_descriptor_call before after = after ≡ before
BufferAfter offset_call before after = after ≡ before
BufferAfter (readln_call separator) before after = Unit
BufferAfter (readlines_call separator) before after = Unit
BufferAfter _ before after = after ≡ []

-- A message to the handle changes no_reply but the handle.
send-buffer :
    {A : Type 0} (nil_answer : A) (message : NsFileHandle → Option (A × NsFileHandle)) (a : A)
    (f g : FsFile)
    → send nil_answer message f ≡ some (a, g)
    → (g.sustain_buffer ≡ f.sustain_buffer) × (g.location ≡ f.location)
send-buffer nil_answer message a f g e = elim (Option-cases f.file_handle) [
  | inl nil ↦ ground (arith, nil, e)
  | inr (h, here) ↦ elim (Option-cases (message h)) [
    | inl none_here ↦ ground (arith, here, none_here, e)
    | inr ((b, k), sent) ↦ ground (arith, here, sent, e)
  ]
]

-- Inversion of a call followed by another.
bind-some :
    {A B : Type 0} (m : Method A) (k : A → Method B) (f g : FsFile) (b : B)
    → (m >>= k) f ≡ some (b, g)
    → (a : A) × (between : FsFile) × (m f ≡ some (a, between)) × (k a between ≡ some (b, g))
bind-some m k f g b e = elim (Option-cases (m f)) [
  | inl nothing_here ↦ ground (arith, nothing_here, e)
  | inr ((a, between), first) ↦ (a, between, first, ground (arith, first, e))
]

-- A message alone, and one behind the emptying of the buffer.
kept :
    {A : Type 0} (nil_answer : A) (message : NsFileHandle → Option (A × NsFileHandle))
    (k : A → Reply) (f g : FsFile) (r : Reply)
    → (send nil_answer message >>= λ a. answer (k a)) f ≡ some (r, g)
    → (g.sustain_buffer ≡ f.sustain_buffer) × (g.location ≡ f.location)
kept nil_answer message k f g r e =
    let (a, between, first, second) =
      bind-some (send nil_answer message) (λ a. answer (k a)) f g r e in
    ground (arith, send-buffer nil_answer message a f between first, second)

emptied :
    {A : Type 0} (nil_answer : A) (message : NsFileHandle → Option (A × NsFileHandle))
    (k : A → Reply) (f g : FsFile) (r : Reply)
    → ((truncate_sustain_buffer >> send nil_answer message) >>= λ a. answer (k a)) f ≡ some (r, g)
    → (g.sustain_buffer ≡ []) × (g.location ≡ f.location)
unfolding truncate_sustain_buffer
emptied nil_answer message k f g r e =
    kept nil_answer message k (record f { sustain_buffer = [] }) g r e

kept_twice :
    (first second : NsFileHandle → Option (Unit {0} × NsFileHandle)) (f g : FsFile) (r : Reply)
    → ((send tt first >> send tt second) >>= λ _. answer no_reply) f ≡ some (r, g)
    → (g.sustain_buffer ≡ f.sustain_buffer) × (g.location ≡ f.location)
kept_twice first second f g r e =
    let (a, between, one, two) =
      bind-some (send tt first >> send tt second) (λ _. answer no_reply) f g r e in
    let (b, middle, sent, then_sent) =
      bind-some (send tt first) (λ _. send tt second) f between a one in
    let early = send-buffer tt first b f middle sent in
    let late = send-buffer tt second a middle between then_sent in ground (arith, early, late, two)

-- Reading lines.
readln-location :
    (separator : Bytes) (f g : FsFile) (a : Option Bytes)
    → file_readln separator f ≡ some (a, g)
    → g.location ≡ f.location
unfolding file_readln
readln-location separator f g a e = elim (Bool-cases (may_read separator f)) [
  | inl may ↦ ground (arith, may, e)
  | inr may_not ↦ ground (arith, may_not, e)
]

collect-location :
    (fuel : ℕ) (separator : Bytes) (found ls : List Bytes) (f g : FsFile)
    → collect_lines fuel (file_readln separator) found f ≡ some (ls, g)
    → g.location ≡ f.location
unfolding collect_lines
collect-location zero separator found ls f g e = ground (arith, e)
collect-location (suc fuel) separator found ls f g e =
    elim (Option-cases (file_readln separator f)) [
      | inl none_here ↦ ground (arith, none_here, e)
      | inr ((none, h), here) ↦ ground (arith, here, e, readln-location separator f h none here)
      | inr ((some line, h), here) ↦
          collect-location fuel separator (found ++ line ∷ []) ls h g (ground (arith, here, e))
          ∙ readln-location separator f h (some line) here
    ]

readlines-location :
    (separator : Bytes) (ls : List Bytes) (f g : FsFile)
    → file_readlines separator f ≡ some (ls, g)
    → g.location ≡ f.location
unfolding file_readlines
readlines-location separator ls f g e =
    collect-location (suc (suc (length f.sustain_buffer + length (state_of f).remaining))) separator
      [] ls f g e

formatted-kept :
    (o : Formatted) (f g : FsFile) (r : Reply)
    → (print_formatted o >>= λ _. answer no_reply) f ≡ some (r, g)
    → (g.sustain_buffer ≡ f.sustain_buffer) × (g.location ≡ f.location)
unfolding print
formatted-kept (formatted s) f g r e = kept tt (ns_write s) (λ _. no_reply) f g r e
formatted-kept not_enough_values f g r e = ground (arith, e)
formatted-kept too_many_values f g r e = ground (arith, e)
formatted-kept no_width_value f g r e = ground (arith, e)
formatted-kept reads_past_end f g r e = ground (arith, e)
formatted-kept overruns_buffer f g r e = ground (arith, e)
formatted-kept uninitialised_text f g r e = ground (arith, e)

printf-kept :
    (format : Bytes) (values : List Value) (f g : FsFile) (r : Reply)
    → (printf_with_values format values >>= λ _. answer no_reply) f ≡ some (r, g)
    → (g.sustain_buffer ≡ f.sustain_buffer) × (g.location ≡ f.location)
unfolding printf_with_values
printf-kept format values f g r e = formatted-kept (sprintf format values) f g r e

-- A call that raises no exception does not change the file's location. It empties the buffer of `readln`,
-- so that the next line is read where the handle stands; but `print:`, `println:`, `println`, `newln`,
-- `printf:withValues:`, `fileDescriptor` and `offsetInFile` leave it as it is, and of those that read
-- lines nothing is said about it.
pub perform-buffer :
    (call : Call) (f g : FsFile) (r : Reply)
    → perform call f ≡ some (r, g)
    → BufferAfter call f.sustain_buffer g.sustain_buffer × (g.location ≡ f.location)
unfolding perform
perform-buffer (print_call s) f g r e = kept tt (ns_write s) (λ _. no_reply) f g r e
perform-buffer (println_call s) f g r e = kept_twice (ns_write s) (ns_write (b'\n' ∷ [])) f g r e
perform-buffer (write_data_call s) f g r e = emptied tt (ns_write s) (λ _. no_reply) f g r e
perform-buffer println_blank_call f g r e = kept tt (ns_write (b'\n' ∷ [])) (λ _. no_reply) f g r e
perform-buffer newln_call f g r e = kept tt (ns_write (b'\n' ∷ [])) (λ _. no_reply) f g r e
perform-buffer reset_call f g r e = emptied tt (ns_seek 0) (λ _. no_reply) f g r e
perform-buffer file_descriptor_call f g r e = kept 0 ns_descriptor number_reply f g r e
perform-buffer available_data_call f g r e = emptied none ns_read_to_end text_reply f g r e
perform-buffer read_to_end_call f g r e = emptied none ns_read_to_end text_reply f g r e
perform-buffer offset_call f g r e = kept 0 ns_offset number_reply f g r e
perform-buffer seek_to_end_call f g r e = emptied 0 ns_seek_to_end number_reply f g r e
perform-buffer synchronize_call f g r e = emptied tt ns_synchronize (λ _. no_reply) f g r e
perform-buffer close_call f g r e = emptied tt ns_close (λ _. no_reply) f g r e
perform-buffer (read_length_call n) f g r e = emptied none (ns_read n) text_reply f g r e
perform-buffer (seek_call n) f g r e = emptied tt (ns_seek n) (λ _. no_reply) f g r e
perform-buffer (truncate_call n) f g r e = emptied tt (ns_truncate n) (λ _. no_reply) f g r e
perform-buffer (background_call work) f g r e =
    emptied tt (ns_background work) (λ _. no_reply) f g r e
perform-buffer (printf_call format values) f g r e = printf-kept format values f g r e
perform-buffer (readln_call separator) f g r e =
    let (a, between, first, second) =
      bind-some (file_readln separator) (λ t. answer (text_reply t)) f g r e in
    (tt, ground (arith, readln-location separator f between a first, second))
perform-buffer (readlines_call separator) f g r e =
    let (a, between, first, second) =
      bind-some (file_readlines separator) (λ ls. answer (lines_reply ls)) f g r e in
    (tt, ground (arith, readlines-location separator a f between first, second))
