-- ===== src/FileTests/Kinds.antt =====
-- How the tests of fscript-CLI/FileTest.m go together.
use fscript_extensions.Prelude.{
  sym, subst, true, false, not, Option, none, some, arith, inl, inr, Bytes, Option-cases, ◌≡◌, ◌||◌,
  ◌==◌,
}
use fscript_extensions.Loading.{FileInfo, FileSystem, get_file_mod_time, get_file_size}
use fscript_extensions.FileTests.{
  FileTest, User, access, test_d, test_e, test_f, test_g, test_m, test_o, test_r, test_s, test_w,
  test_x, test_z,
}

-- The file manager of a user.
unfoldable pub file_manager : User → FileTest FileSystem
unfolding test_e test_d test_f test_m test_s test_z test_o test_g test_r test_w test_x
file_manager user = record {
  test_e = λ fs file. test_e fs user file;
  test_d = test_d;
  test_f = test_f;
  test_m = test_m;
  test_s = test_s;
  test_z = test_z;
  test_o = λ fs file. test_o fs user file;
  test_g = λ fs file. test_g fs user file;
  test_r = λ fs file. test_r fs user file;
  test_w = λ fs file. test_w fs user file;
  test_x = λ fs file. test_x fs user file;
}

-- What the tests say of a path without a file, and of one with a file.
abbrev pub TestsOf : FileTest FileSystem → FileSystem → Bytes → Option FileInfo → Type 0
TestsOf t fs file none =
    (t.test_e fs file ≡ false)
    × (t.test_d fs file ≡ false)
    × (t.test_f fs file ≡ false)
    × (t.test_m fs file ≡ none)
    × (t.test_s fs file ≡ none)
    × (t.test_z fs file ≡ none)
    × ((t.test_o fs file || t.test_g fs file) ≡ false)
    × ((t.test_r fs file || t.test_w fs file || t.test_x fs file) ≡ false)
TestsOf t fs file (some info) =
    (t.test_e fs file ≡ true)
    × (t.test_d fs file ≡ info.is_directory)
    × (t.test_f fs file ≡ not info.is_directory)
    × (t.test_m fs file ≡ some info.creation_date)
    × (t.test_s fs file ≡ some info.size)
    × (t.test_z fs file ≡ some (not (info.size == 0)))

tests-none :
    (fs : FileSystem) (user : User) (file : Bytes)
    → fs file ≡ none
    → TestsOf (file_manager user) fs file none
unfolding file_manager test_e test_d test_f test_m test_s test_z test_o test_g test_r test_w test_x
    access get_file_mod_time get_file_size
tests-none fs user file e = grind (arith, e)

tests-some :
    (fs : FileSystem) (user : User) (file : Bytes) (info : FileInfo)
    → fs file ≡ some info
    → TestsOf (file_manager user) fs file (some info)
unfolding file_manager test_e test_d test_f test_m test_s test_z test_o test_g test_r test_w test_x
    access get_file_mod_time get_file_size
tests-some fs user file info e = grind (arith, e)

-- For a path without a file all tests are false, and those of the date and of the size raise an
-- exception. A path with a file exists for every user and is either a directory or a file; the date of
-- `test_m:` is the one of its creation, and `test_z:` is true of files that are not empty.
pub file_manager-TestsOf :
    (fs : FileSystem) (user : User) (file : Bytes) → TestsOf (file_manager user) fs file (fs file)
file_manager-TestsOf fs user file = elim (Option-cases (fs file)) [
  | inl e ↦ subst (TestsOf (file_manager user) fs file) (sym e) (tests-none fs user file e)
  | inr (info, e) ↦
      subst (TestsOf (file_manager user) fs file) (sym e) (tests-some fs user file info e)
]
