-- ===== src/Tests/Tools.antt =====
-- Loading, importing, commands, file tests and small categories at concrete inputs.
use fscript_extensions.Prelude.{
  ℕ, suc, refl, ap, true, false, none, some, List, arith, inr, length, ltb, Bytes, codes,
  length-append, [], ◌∷◌, ◌++◌, ◌≡◌, ◌≢◌, ◌⊎◌, if◌then◌else◌,
}
use fscript_extensions.Numbers.Remainder.{
  AnswersRemainder, IsInt, operator_percent-AnswersRemainder,
}
use fscript_extensions.Dictionary.{Dict, object_for, string_key, pointer_key}
use fscript_extensions.SystemUtility.{
  Effect, Environment, SystemState, components, file_exists, find_command, first_existing,
  has_fs_suffix, import, import_force, is_absolute, loaded, path_directories, path_in,
  real_file_name, remember, up_to_date, with_fs_suffix,
}
use fscript_extensions.Loading.{
  ExecutionResult, FileInfo, FileSystem, Loaded, Rights, chop_shebang, error_rounds, executed,
  get_file_mod_time, load_file, newline_in, script_error,
}
use fscript_extensions.Numbers.{Foundation, int_rem, negsuc, operator_percent, pos, ℤ}
use fscript_extensions.SystemUtility.Import.{IsToLoad, IsUpToDate, import_force-first}
use fscript_extensions.SystemUtility.Search.{NoneHas}
use fscript_extensions.Collections.Pairs.{
  as_arrays, as_items, last_value, mutable_with_flat_pairs-last_value,
}
use fscript_extensions.Collections.{built, mutable_with_flat_pairs, mutable_with_pairs}
use fscript_extensions.Loading.Endless.{error_rounds-never}
use fscript_extensions.Loading.{execution_error}
use fscript_extensions.SystemUtility.Again.{import-again}
use fscript_extensions.File.{is_prefix}
use fscript_extensions.Loading.Reported.{load_file-error}
use fscript_extensions.Loading.Place.{place}

abbrev plain_rights : Rights
plain_rights = record { readable = true; writable = false; executable = false }

abbrev plain_info : FileInfo
plain_info = record {
  is_directory = false;
  size = 3;
  creation_date = 7;
  modification_date = 9;
  owner = 1;
  group = 1;
  owner_rights = plain_rights;
  group_rights = plain_rights;
  other_rights = plain_rights;
}

-- Every path that begins with the directory `b` has a file.
abbrev files_in_b : FileSystem
files_in_b path = if is_prefix (codes "b/") path then some plain_info else none

-- A script whose error is at its fourth character.
abbrev fails : Bytes → ℕ → ExecutionResult × ℕ
fails script world = (execution_error 3 (codes "bad"), suc world)

script_chopped : chop_shebang false (codes "#!x\nab\ncd\n") ≡ some (codes "ab\ncd\n", 1)
unfolding chop_shebang newline_in
script_chopped = refl

dated : get_file_mod_time files_in_b (codes "b/s") ≡ some 7
unfolding get_file_mod_time
dated = refl

load_file-error_example :
    let at = place (codes "#!x\nab\ncd\n") 7 1 1 in
    load_file true files_in_b fails [] (some (codes "#!x\nab\ncd\n")) (codes "b/s") false 0
    ≡ (script_error at.0 at.1 (codes "bad"), 1)
load_file-error_example =
    load_file-error true files_in_b fails (codes "b/s") (codes "#!x\nab\ncd\n") (codes "ab\ncd\n")
      false 0 7 1 3 (codes "bad") dated script_chopped refl (omega arith)
      (inr (unfold newline_in in λ e. ground (arith, e)))

-- The error is reported in the third line, at its first character.
error_at : place (codes "#!x\nab\ncd\n") 7 1 1 ≡ (3, 1)
unfolding place
error_at = refl

error_rounds-never_example : error_rounds 50 true (codes "ab\ncd") 3 0 0 0 ≡ none
error_rounds-never_example =
    error_rounds-never 50 (codes "ab\ncd") 3 0 0 0 (omega arith) (unfold newline_in in refl)

abbrev path_env : Environment
path_env = (codes "PATH", codes "a:b:c") ∷ []

found_ls : find_command (file_exists files_in_b) path_env (codes "ls") ≡ some (codes "b/ls")
unfolding find_command first_existing path_directories components
found_ls = refl

abbrev libraries_abc : SystemState
libraries_abc = record {
  library_locations = some (codes "a" ∷ codes "b" ∷ codes "c" ∷ []);
  framework_locations = [];
  file_mod_times = [];
  shell_name = none;
  script_name = none;
  script_args = none;
}

abbrev loads : Bytes → Effect ℕ Loaded
loads path (st, world) = (executed none, st, suc world)

m_relative : is_absolute (codes "m.fs") ≡ false
m_relative = refl

m_path : codes "b/m.fs" ≡ path_in (codes "b") (with_fs_suffix (codes "m"))
unfolding has_fs_suffix
m_path = refl

m_here : files_in_b (path_in (codes "b") (codes "m.fs")) ≡ some plain_info
m_here = refl

m_not_in_a : NoneHas (file_exists files_in_b) (codes "m.fs") (codes "a" ∷ [])
m_not_in_a = (refl, tt)

-- The name `m` does not end with the suffix.
m-lacks_suffix : (stem : Bytes) → codes "m" ≢ stem ++ codes ".fs"
m-lacks_suffix stem h = omega (arith, ap length h, length-append stem (codes ".fs"))

import_force-first_example :
    let path = path_in (codes "b") (codes "m.fs") in
    let r = loads path (remember path 7 libraries_abc, 0) in
    (IsToLoad (object_for path []) 7 false
      × (import_force files_in_b loads (codes "m") false (libraries_abc, 0)
          ≡ (loaded path r.0, r.1, r.2)))
    ⊎ (IsUpToDate (object_for path []) 7 false
        × (import_force files_in_b loads (codes "m") false (libraries_abc, 0)
            ≡ (up_to_date path, libraries_abc, 0)))
import_force-first_example =
    import_force-first files_in_b loads (codes "m") false libraries_abc 0 (codes "m.fs") (codes "b")
      (codes "a" ∷ []) (codes "c" ∷ []) plain_info (inr (m-lacks_suffix, refl)) m_relative refl
      m_not_in_a m_here

first_import :
    import_force files_in_b loads (codes "m") true (libraries_abc, 0)
    ≡ (loaded (codes "b/m.fs") (executed none), remember (codes "b/m.fs") 7 libraries_abc, 1)
unfolding import_force real_file_name first_existing has_fs_suffix get_file_mod_time
first_import = refl

import-again_example :
    import files_in_b loads (codes "m") (remember (codes "b/m.fs") 7 libraries_abc, 1)
    ≡ (up_to_date (codes "b/m.fs"), remember (codes "b/m.fs") 7 libraries_abc, 1)
import-again_example =
    import-again files_in_b loads (codes "m") (codes "b/m.fs") true libraries_abc
      (remember (codes "b/m.fs") 7 libraries_abc) 0 1 (executed none) [] first_import
      (unfold get_file_mod_time in refl) refl

abbrev two_pairs : List (ℕ × ℕ)
two_pairs = (1, 10) ∷ (2, 20) ∷ (1, 30) ∷ []

mutable_with_flat_pairs-last_value_example :
    (result : Dict ℕ ℕ) × (mutable_with_pairs (as_arrays two_pairs) ≡ built result)
    × (mutable_with_flat_pairs (as_items two_pairs) ≡ built result)
    × ((k : ℕ) → object_for k result ≡ last_value k two_pairs none)
mutable_with_flat_pairs-last_value_example = mutable_with_flat_pairs-last_value two_pairs

abbrev clamped : ℤ → ℤ
clamped (pos n) = pos (if ltb n 2147483648 then n else 2147483647)
clamped (negsuc n) = negsuc (if ltb n 2147483648 then n else 2147483647)

clamped-IsInt : (z : ℤ) → IsInt (clamped z)
clamped-IsInt (pos n) = ground arith
clamped-IsInt (negsuc n) = ground arith

clamped-same : (z : ℤ) → IsInt z → clamped z ≡ z
clamped-same (pos n) h = ground arith
clamped-same (negsuc n) h = ground arith

-- Numbers as they are, for texts and doubles too.
abbrev plain_numbers : Foundation
plain_numbers = record {
  Number = ℤ;
  Text = Bytes;
  Double = ℤ;
  int_value = clamped;
  number_with_int = λ z. z;
  number_with_double = λ z. z;
  text_double_value = λ s. pos (length s);
  text_int_value = λ s. pos (length s);
  double_of_int = λ z. z;
  add = λ a b. a;
  sub = λ a b. a;
  mul = λ a b. a;
  div = λ a b. a;
}

operator_percent-AnswersRemainder_example :
    AnswersRemainder plain_numbers
      (negsuc 6)
      (pos 3)
      (operator_percent plain_numbers (negsuc 6) (pos 3))
operator_percent-AnswersRemainder_example =
    operator_percent-AnswersRemainder plain_numbers clamped-IsInt clamped-same (negsuc 6) (pos 3)

-- -7 % 3 is -1.
minus_seven : operator_percent plain_numbers (negsuc 6) (pos 3) ≡ some (negsuc 0)
unfolding operator_percent int_rem
minus_seven = refl
