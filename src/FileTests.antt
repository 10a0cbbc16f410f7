-- ===== src/FileTests.antt =====
-- The tests of files in fscript-CLI/FileTest.m. `access` and `stat` are given by what is known of the
-- files and of the user; the superuser may read and write all, and execute what anyone may.
pub mod Kinds
use fscript_extensions.Prelude.{
  ℕ, Bool, true, false, not, Option, none, some, ltb, Bytes, ◌&&◌, ◌||◌, ◌==◌, if◌then◌else◌,
}
use fscript_extensions.Loading.{FileInfo, FileSystem, Rights, get_file_mod_time, get_file_size}

pub record User : Type 0 where
  pub uid : ℕ
  pub gid : ℕ

-- The mode of `access`.
pub data AccessMode : Type 0 where
  exists_ok read_ok write_ok execute_ok : AccessMode

abbrev pub has_right : AccessMode → Rights → Bool
has_right exists_ok r = true
has_right read_ok r = r.readable
has_right write_ok r = r.writable
has_right execute_ok r = r.executable

-- The rights that apply to a user.
abbrev pub rights_of : User → FileInfo → Rights
rights_of user info =
    if user.uid == info.owner
    then info.owner_rights
    else if user.gid == info.group
    then info.group_rights
    else info.other_rights

abbrev pub superuser_has : AccessMode → FileInfo → Bool
superuser_has execute_ok info =
    info.is_directory || info.owner_rights.executable || info.group_rights.executable
    || info.other_rights.executable
superuser_has _ info = true

-- `access(path, mode) == 0`
unfoldable pub access : FileSystem → User → AccessMode → Bytes → Bool
access fs user mode path = elim (fs path) [
  | none ↦ false
  | some info ↦
      if user.uid == 0 then superuser_has mode info else has_right mode (rights_of user info)
]

-- `fileExistsAtPath:isDirectory:`: whether it exists, and `isDirectory`, which begins as `NO`.
abbrev pub file_exists_is_directory : FileSystem → Bytes → Bool × Bool
file_exists_is_directory fs path = elim (fs path) [
  | none ↦ (false, false)
  | some info ↦ (true, info.is_directory)
]

unfoldable pub test_d : FileSystem → Bytes → Bool
test_d fs file =
    let (exists, is_directory) = file_exists_is_directory fs file in exists && is_directory

unfoldable pub test_f : FileSystem → Bytes → Bool
test_f fs file =
    let (exists, is_directory) = file_exists_is_directory fs file in exists && not is_directory

unfoldable pub test_e : FileSystem → User → Bytes → Bool
unfolding access
test_e fs user file = access fs user exists_ok file

-- Nothing stands for an exception in these three.
unfoldable pub test_m : FileSystem → Bytes → Option ℕ
unfolding get_file_mod_time
test_m fs file = get_file_mod_time fs file

unfoldable pub test_s : FileSystem → Bytes → Option ℕ
unfolding get_file_size
test_s fs file = get_file_size fs file

unfoldable pub test_z : FileSystem → Bytes → Option Bool
unfolding get_file_size
test_z fs file = elim (get_file_size fs file) [ none ↦ none | some size ↦ some (ltb 0 size) ]

unfoldable pub test_o : FileSystem → User → Bytes → Bool
test_o fs user file = elim (fs file) [ none ↦ false | some info ↦ user.uid == info.owner ]

unfoldable pub test_g : FileSystem → User → Bytes → Bool
test_g fs user file = elim (fs file) [ none ↦ false | some info ↦ user.gid == info.group ]

unfoldable pub test_r : FileSystem → User → Bytes → Bool
unfolding access
test_r fs user file = access fs user read_ok file

unfoldable pub test_w : FileSystem → User → Bytes → Bool
unfolding access
test_w fs user file = access fs user write_ok file

unfoldable pub test_x : FileSystem → User → Bytes → Bool
unfolding access
test_x fs user file = access fs user execute_ok file

-- The methods that fscript-CLI/FileTest.h adds to a file manager `Manager`: of the existence of a file,
-- of its dates and size, of its owners, and of access to it.
pub record FileTest (Manager : Type 0) : Type 0 where
  pub test_e : Manager → Bytes → Bool
  pub test_d : Manager → Bytes → Bool
  pub test_f : Manager → Bytes → Bool
  pub test_m : Manager → Bytes → Option ℕ
  pub test_s : Manager → Bytes → Option ℕ
  pub test_z : Manager → Bytes → Option Bool
  pub test_o : Manager → Bytes → Bool
  pub test_g : Manager → Bytes → Bool
  pub test_r : Manager → Bytes → Bool
  pub test_w : Manager → Bytes → Bool
  pub test_x : Manager → Bytes → Bool
