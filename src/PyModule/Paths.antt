-- ===== src/PyModule/Paths.antt =====
-- src/pycapio.cpp, lines 94-111: the static methods of `PyCapioPath`.
use py_capio.Base.{ℕ, ℤ, Bytes, Bool, Option, Outcome, ok, raised, undefined, codes}
use py_capio.Posix.{Capio}
use py_capio.OsPath.{
  exists, isfile, isdir, getsize, join, basename, dirname, abspath, splitext, isabs, normpath,
  split, normcase, realpath,
}
use py_capio.OsPath.Files.{Filesystem, relpath, getmtime, samefile}
use py_capio.PyModule.{given}

pub data PathCall : Type 0 where
  exists_path isfile_path isdir_path getsize_path : Bytes → PathCall
  join_path samefile_path : Bytes → Bytes → PathCall
  basename_path dirname_path abspath_path splitext_path isabs_path normpath_path : Bytes → PathCall
  relpath_path : Bytes → Option Bytes → PathCall
  getmtime_path split_path normcase_path realpath_path : Bytes → PathCall

pub data PathValue : Type 0 where
  is_so : Bool → PathValue
  size_value : ℕ → PathValue
  seconds_value : ℤ → PathValue
  path_value : Bytes → PathValue
  two_values : Bytes × Bytes → PathValue

abbrev valued {ℓ κ} :
    {A : Type ℓ} {W : Type κ} → (A → PathValue) → Outcome A × W → Outcome PathValue × W
valued f (ok a, w) = (ok (f a), w)
valued f (raised e, w) = (raised e, w)
valued f (undefined, w) = (undefined, w)

module _ (K : Capio) (F : Filesystem K.World) (cwd : Bytes)
    (canonical : Bytes → Outcome Bytes) where
  unfoldable pub invoke_path : PathCall → K.World → Outcome PathValue × K.World
  invoke_path (exists_path p) w = valued is_so (exists K p w)
  invoke_path (isfile_path p) w = valued is_so (isfile K p w)
  invoke_path (isdir_path p) w = valued is_so (isdir K p w)
  invoke_path (getsize_path p) w = valued size_value (getsize K p w)
  invoke_path (join_path p q) w = (ok (path_value (join p q)), w)
  invoke_path (samefile_path p q) w = valued is_so (samefile F p q w)
  invoke_path (basename_path p) w = (ok (path_value (basename p)), w)
  invoke_path (dirname_path p) w = (ok (path_value (dirname p)), w)
  invoke_path (abspath_path p) w = valued path_value (abspath cwd p, w)
  invoke_path (splitext_path p) w = (ok (two_values (splitext p)), w)
  invoke_path (isabs_path p) w = (ok (is_so (isabs p)), w)
  invoke_path (normpath_path p) w = (ok (path_value (normpath p)), w)
  invoke_path (relpath_path p start) w = valued path_value (relpath F p (given start (codes ".")) w)
  invoke_path (getmtime_path p) w = valued seconds_value (getmtime F p w)
  invoke_path (split_path p) w = (ok (two_values (split p)), w)
  invoke_path (normcase_path p) w = (ok (path_value (normcase p)), w)
  invoke_path (realpath_path p) w = valued path_value (realpath canonical p, w)
