-- ===== src/File/Object/Wrappers.antt =====
-- The methods of fscript-CLI/FSFile.m that stand in front of those of `NSFileHandle`. An `NSNumber` is
-- its number, which is not negative.
pub mod Emptied
use fscript_extensions.Prelude.{ℕ, Option, none, Bytes}
use fscript_extensions.File.Handle.{
  Background, ns_background, ns_close, ns_descriptor, ns_offset, ns_read, ns_read_to_end, ns_seek,
  ns_seek_to_end, ns_synchronize, ns_truncate, ns_write,
}
use fscript_extensions.File.Object.{Method, send, truncate_sustain_buffer, ◌>>=◌, ◌>>◌}

unfoldable pub file_descriptor : Method ℕ
unfolding ns_descriptor
file_descriptor = send 0 ns_descriptor

unfoldable pub available_data : Method (Option Bytes)
unfolding truncate_sustain_buffer ns_read_to_end
available_data = do truncate_sustain_buffer; send none ns_read_to_end

unfoldable pub read_data_to_end_of_file : Method (Option Bytes)
unfolding truncate_sustain_buffer ns_read_to_end
read_data_to_end_of_file = do truncate_sustain_buffer; send none ns_read_to_end

unfoldable pub read_data_of_length : ℕ → Method (Option Bytes)
unfolding truncate_sustain_buffer ns_read
read_data_of_length n = do truncate_sustain_buffer; send none (ns_read n)

unfoldable pub write_data : Bytes → Method (Unit {0})
unfolding truncate_sustain_buffer ns_write
write_data text = do truncate_sustain_buffer; send tt (ns_write text)

unfoldable pub offset_in_file : Method ℕ
unfolding ns_offset
offset_in_file = send 0 ns_offset

unfoldable pub seek_to_end_of_file : Method ℕ
unfolding truncate_sustain_buffer ns_seek_to_end
seek_to_end_of_file = do truncate_sustain_buffer; send 0 ns_seek_to_end

unfoldable pub seek_to_file_offset : ℕ → Method (Unit {0})
unfolding truncate_sustain_buffer ns_seek
seek_to_file_offset offset = do truncate_sustain_buffer; send tt (ns_seek offset)

unfoldable pub truncate_file_at_offset : ℕ → Method (Unit {0})
unfolding truncate_sustain_buffer ns_truncate
truncate_file_at_offset offset = do truncate_sustain_buffer; send tt (ns_truncate offset)

unfoldable pub synchronize_file : Method (Unit {0})
unfolding truncate_sustain_buffer ns_synchronize
synchronize_file = do truncate_sustain_buffer; send tt ns_synchronize

unfoldable pub close_file : Method (Unit {0})
unfolding truncate_sustain_buffer ns_close
close_file = do truncate_sustain_buffer; send tt ns_close

-- The eight methods that ask for work in the background, with the modes of the run loop or without.
unfoldable pub in_background : Background → Method (Unit {0})
unfolding truncate_sustain_buffer ns_background
in_background work = do truncate_sustain_buffer; send tt (ns_background work)
