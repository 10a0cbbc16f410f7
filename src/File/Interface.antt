-- ===== src/File/Interface.antt =====
-- The methods that fscript-CLI/FSFile.h declares, for any class of files, and those of the two classes
-- that there are: FSFile.m and FSFileStdin.m. A method answers with the file after it, or nothing where
-- an exception is raised.
pub mod Classes
pub mod Override
use fscript_extensions.Prelude.{ℕ, Option, List, Bytes, [], ◌∷◌}
use fscript_extensions.File.Object.Opening.{Disk}
use fscript_extensions.File.Handle.{NsFileHandle}
use fscript_extensions.Format.{Value}
use fscript_extensions.File.Object.{collect_lines}

-- What a file of the class `File` does when it is sent a message.
abbrev pub Message : Type 0 → Type 0 → Type 0
Message File A = File → Option (A × File)

-- The class methods; they answer with a file or raise an exception, and may create a file on the disk.
pub record FileCreation (File : Type 0) : Type 0 where
  pub from_ns_file_handle : NsFileHandle → File
  pub open_path : Bytes → Disk → File × Disk
  pub open_path_mode : Bytes → Bytes → Disk → Option File × Disk

-- Printing an object by its description, and a format with its values.
pub record FilePrinting (File : Type 0) : Type 0 where
  pub print : Bytes → Message File (Unit {0})
  pub println : Bytes → Message File (Unit {0})
  pub println_blank : Message File (Unit {0})
  pub newln : Message File (Unit {0})
  pub printf_with_values : Bytes → List Value → Message File (Unit {0})

-- Reading lines; `nil` is no line.
pub record LineReading (File : Type 0) : Type 0 where
  pub readln : Message File (Option Bytes)
  pub readln_with_separator : Bytes → Message File (Option Bytes)
  pub readlines_with_separator : Bytes → Message File (List Bytes)
  pub readlines : Message File (List Bytes)

-- `reset`, and the methods in front of those of `NSFileHandle`.
pub record ByteReading (File : Type 0) : Type 0 where
  pub reset : Message File (Unit {0})
  pub available_data : Message File (Option Bytes)
  pub read_data_to_end_of_file : Message File (Option Bytes)
  pub read_data_of_length : ℕ → Message File (Option Bytes)
  pub write_data : Bytes → Message File (Unit {0})
  pub file_descriptor : Message File ℕ
  pub offset_in_file : Message File ℕ
  pub seek_to_end_of_file : Message File ℕ
  pub seek_to_file_offset : ℕ → Message File (Unit {0})
  pub truncate_file_at_offset : ℕ → Message File (Unit {0})
  pub synchronize_file : Message File (Unit {0})
  pub close_file : Message File (Unit {0})
  pub read_in_background_for_modes : List Bytes → Message File (Unit {0})
  pub read_in_background : Message File (Unit {0})
  pub read_to_end_in_background_for_modes : List Bytes → Message File (Unit {0})
  pub read_to_end_in_background : Message File (Unit {0})
  pub accept_in_background_for_modes : List Bytes → Message File (Unit {0})
  pub accept_in_background : Message File (Unit {0})
  pub wait_in_background_for_modes : List Bytes → Message File (Unit {0})
  pub wait_in_background : Message File (Unit {0})

-- The reading of lines that a class has by its own `readlnWithSeparator:`, which the other methods of
-- FSFile.m send to `self`. `rounds` bounds the lines that are read at once.
abbrev pub reading_by :
    {File : Type 0} → (File → ℕ) → (Bytes → Message File (Option Bytes)) → LineReading File
reading_by rounds own = record {
  readln = own (b'\n' ∷ []);
  readln_with_separator = own;
  readlines_with_separator = λ separator f. collect_lines (rounds f) (own separator) [] f;
  readlines = λ f. collect_lines (rounds f) (own (b'\n' ∷ [])) [] f;
}
