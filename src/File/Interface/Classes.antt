-- ===== src/File/Interface/Classes.antt =====
-- What the classes of fscript-CLI/FSFile.m and fscript-CLI/FSFileStdin.m answer to the methods of
-- fscript-CLI/FSFile.h.
use fscript_extensions.Prelude.{ℕ, suc, Bool, none, some, List, length, Bytes, ◌+◌}
use fscript_extensions.File.Interface.{
  ByteReading, FileCreation, FilePrinting, LineReading, Message, reading_by,
}
use fscript_extensions.Format.{Formatted, Value, formatted, sprintf}
use fscript_extensions.File.Object.{
  FsFile, file_readln, from_ns_file_handle, newln, print, println, println_blank, reset, state_of,
}
use fscript_extensions.Stdin.{Input, line_read, range_exception, readln}
use fscript_extensions.File.Handle.{
  accept_in_background, read_in_background, read_to_end_in_background, wait_in_background,
}
use fscript_extensions.File.Object.Wrappers.{
  available_data, close_file, file_descriptor, in_background, offset_in_file, read_data_of_length,
  read_data_to_end_of_file, seek_to_end_of_file, seek_to_file_offset, synchronize_file,
  truncate_file_at_offset, write_data,
}
use fscript_extensions.Trampoline.Create.{lp64}
use fscript_extensions.File.Object.Opening.{open_path, open_path_mode}

-- `FSFile`
pub file_creation : FileCreation FsFile
file_creation = record {
  from_ns_file_handle = from_ns_file_handle;
  open_path = open_path;
  open_path_mode = open_path_mode;
}

-- `print:` of what `sprintf:` answers, behind its exceptions.
abbrev pub print_formatted : Formatted → Message FsFile (Unit {0})
print_formatted (formatted s) f = print s f
print_formatted _ f = none

-- `printf:withValues:`
unfoldable pub printf_with_values : Bytes → List Value → Message FsFile (Unit {0})
unfolding sprintf print
printf_with_values format values = print_formatted (sprintf format values)

unfoldable pub file_printing : FilePrinting FsFile
unfolding print println println_blank newln printf_with_values
file_printing = record {
  print = print;
  println = println;
  println_blank = println_blank;
  newln = newln;
  printf_with_values = printf_with_values;
}

-- A line takes a character or more, and one more round finds the end.
abbrev pub file_rounds : FsFile → ℕ
file_rounds f = suc (suc (length f.sustain_buffer + length (state_of f).remaining))

unfoldable pub file_reading : LineReading FsFile
unfolding file_readln
file_reading = reading_by file_rounds file_readln

-- `FSFileStdin`, which reads lines in its own way. No number of rounds is enough for all that it may
-- read, so that the bound is given.
unfoldable pub stdin_reading : Bool → ℕ → LineReading Input
unfolding readln
stdin_reading lp64 rounds =
    reading_by (λ _. rounds)
      (λ separator st. elim (readln lp64 separator st) [
        | line_read line later ↦ some (line, later)
        | range_exception ↦ none
      ])

unfoldable pub file_bytes : ByteReading FsFile
unfolding reset available_data read_data_to_end_of_file read_data_of_length write_data
    file_descriptor offset_in_file seek_to_end_of_file seek_to_file_offset truncate_file_at_offset
    synchronize_file close_file in_background
file_bytes = record {
  reset = reset;
  available_data = available_data;
  read_data_to_end_of_file = read_data_to_end_of_file;
  read_data_of_length = read_data_of_length;
  write_data = write_data;
  file_descriptor = file_descriptor;
  offset_in_file = offset_in_file;
  seek_to_end_of_file = seek_to_end_of_file;
  seek_to_file_offset = seek_to_file_offset;
  truncate_file_at_offset = truncate_file_at_offset;
  synchronize_file = synchronize_file;
  close_file = close_file;
  read_in_background_for_modes = λ modes. in_background (read_in_background (some modes));
  read_in_background = in_background (read_in_background none);
  read_to_end_in_background_for_modes =
      λ modes. in_background (read_to_end_in_background (some modes));
  read_to_end_in_background = in_background (read_to_end_in_background none);
  accept_in_background_for_modes = λ modes. in_background (accept_in_background (some modes));
  accept_in_background = in_background (accept_in_background none);
  wait_in_background_for_modes = λ modes. in_background (wait_in_background (some modes));
  wait_in_background = in_background (wait_in_background none);
}
