-- ===== src/Scandir.antt =====
-- src/ScandirIteratorWrapper.cpp and include/ScandirIteratorWrapper.hpp: directory entries and the
-- iterator over a CAPIO directory. `next` calls itself on "." and "..", and takes fuel for it.
pub mod Laws
pub mod Listing
pub mod Tests
use py_capio.Base.{
  ℕ, zero, suc, ℤ, pos, negsuc, eq_ℤ, is_negative, Bytes, Bool, true, false, ◌||◌, Option, none,
  some, List, [], ◌∷◌, ◌++◌, bytes_eq, ◌==◌, if◌then◌else◌, Outcome, ok, raised, undefined, c_str,
  py_capio_exception, not_initialized, open_failed, stop_iteration,
}
use py_capio.Posix.{Capio, Dirent, libcapio_open, libcapio_readdir, libcapio_close}
use py_capio.FsPath.{dot, append_path}

-- <dirent.h> and <fcntl.h>
abbrev pub dt_dir : ℕ
dt_dir = 4

abbrev pub dt_reg : ℕ
dt_reg = 8

abbrev pub dt_lnk : ℕ
dt_lnk = 10

abbrev pub o_rdonly : ℕ
o_rdonly = 0

pub record CapioDirEntry : Type 0 where
  pub base_path : Bytes
  pub name : Bytes
  pub ino : ℕ
  pub type : ℕ

unfoldable pub new_entry : Bytes → Dirent → CapioDirEntry
new_entry base ent = record {
  base_path = base;
  name = ent.d_name;
  ino = ent.d_ino;
  type = ent.d_type;
}

pub entry_name : CapioDirEntry → Bytes
entry_name e = e.name

pub entry_path : CapioDirEntry → Bytes
entry_path e = append_path e.base_path e.name

pub inode : CapioDirEntry → ℕ
inode e = e.ino

pub is_dir : CapioDirEntry → Bool
is_dir e = e.type == dt_dir

pub is_file : CapioDirEntry → Bool
is_file e = e.type == dt_reg

pub is_symlink : CapioDirEntry → Bool
is_symlink e = e.type == dt_lnk

pub record ScandirIteratorWrapper : Type 0 where
  pub path : Bytes
  pub file_descriptor : ℤ
  pub finished : Bool

-- `dirent64 ent{}`, unless the call has filled it.
abbrev pub entry_or_zero : Option Dirent → Dirent
entry_or_zero none = record { d_name = []; d_ino = 0; d_type = 0 }
entry_or_zero (some d) = d

-- `.` and `..`
abbrev pub is_dots : Bytes → Bool
is_dots name = bytes_eq name (dot ∷ []) || bytes_eq name (dot ∷ dot ∷ [])

module _ (K : Capio) where
  open K use {World}

  -- The constructor; `initialized` is the global `libcapio_initialized`.
  unfoldable pub open_dir : Bool → Bytes → World → Outcome ScandirIteratorWrapper × World
  open_dir initialized path w =
      if initialized
      then (let (fd, w') = libcapio_open K (c_str path) o_rdonly 0 w in
          if is_negative fd
          then (raised (py_capio_exception open_failed), w')
          else (ok (record { path = path; file_descriptor = fd; finished = false }), w'))
      else (raised (py_capio_exception not_initialized), w)

  pub next :
      ℕ
      → ScandirIteratorWrapper
      → World
      → Option (Outcome CapioDirEntry × ScandirIteratorWrapper × World)
  unfolding new_entry
  next zero self w = none
  next (suc fuel) self w =
      let (r, w') = libcapio_readdir K self.file_descriptor w in
      let again = next fuel self w' in
      if self.finished then some (raised stop_iteration, self, w) else elim r [
        | raised e ↦ some (raised e, self, w')
        | undefined ↦ some (undefined, self, w')
        | ok (result, entry) ↦
            let ent = entry_or_zero entry in
            if eq_ℤ result (pos 0)
            then some (raised stop_iteration, record self { finished = true }, w')
            else if is_dots ent.d_name
            then again
            else some (ok (new_entry self.path ent), self, w')
      ]

  unfoldable pub close : ScandirIteratorWrapper → World → ScandirIteratorWrapper × World
  close self w =
      if eq_ℤ self.file_descriptor (negsuc 0)
      then (self, w)
      else (record self { file_descriptor = negsuc 0 }, (libcapio_close K self.file_descriptor w).1)

  -- `~ScandirIteratorWrapper`
  abbrev pub destroy : ScandirIteratorWrapper → World → ScandirIteratorWrapper × World
  destroy self w = close self w

  -- A `for` loop over the iterator that collects the entries, as `listdir_proxy` does
  -- (pycapio/__init__.py): `stop_iteration` ends it.
  pub collect :
      ℕ
      → ℕ
      → List CapioDirEntry
      → ScandirIteratorWrapper
      → World
      → Option (Outcome (List CapioDirEntry) × ScandirIteratorWrapper × World)
  unfolding next
  collect zero fuel found self w = none
  collect (suc rounds) fuel found self w = elim (next fuel self w) [
    | none ↦ none
    | some (ok e, self', w') ↦ collect rounds fuel (found ++ (e ∷ [])) self' w'
    | some (raised stop_iteration, self', w') ↦ some (ok found, self', w')
    | some (raised e, self', w') ↦ some (raised e, self', w')
    | some (undefined, self', w') ↦ some (undefined, self', w')
  ]
