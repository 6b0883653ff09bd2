-- ===== src/PyModule/Directory.antt =====
-- src/pycapio.cpp, lines 72-92: what Python calls on an entry of a directory and on an iterator.
pub mod Listing
use py_capio.Base.{
  ℕ, Bytes, Bool, false, Option, none, some, List, [], ◌∷◌, Outcome, ok, raised, undefined,
}
use py_capio.Posix.{Capio}
use py_capio.Scandir
use py_capio.Scandir.{
  CapioDirEntry, ScandirIteratorWrapper, entry_name, inode, entry_path, is_dir, is_file, is_symlink,
}

-- The methods of `PyCapioScandirWrapper`, with a result or an entry.
pub data ScanCall : Type 0 where
  iter_scan next_scan close_scan enter_scan exit_scan : ScanCall

pub data ScanValue : Type 0 where
  no_value same_iterator : ScanValue
  is_handled : Bool → ScanValue
  entry : CapioDirEntry → ScanValue

-- The attributes and methods of `DirEntry`, and their values; `follow_symlinks` is not looked at.
pub data EntryCall : Type 0 where
  name_of path_of inode_of is_symlink_call : EntryCall
  is_dir_call is_file_call : Option Bool → EntryCall

pub data EntryValue : Type 0 where
  name_value : Bytes → EntryValue
  inode_value : ℕ → EntryValue
  is_value : Bool → EntryValue

unfoldable pub invoke_entry : EntryCall → CapioDirEntry → EntryValue
invoke_entry name_of e = name_value (entry_name e)
invoke_entry path_of e = name_value (entry_path e)
invoke_entry inode_of e = inode_value (inode e)
invoke_entry (is_dir_call follow_symlinks) e = is_value (is_dir e)
invoke_entry (is_file_call follow_symlinks) e = is_value (is_file e)
invoke_entry is_symlink_call e = is_value (is_symlink e)

module _ (K : Capio) where
  open K use {World}

  unfoldable pub invoke_scan :
      ℕ
      → ScanCall
      → ScandirIteratorWrapper
      → World
      → Option (Outcome ScanValue × ScandirIteratorWrapper × World)
  invoke_scan fuel iter_scan self w = some (ok same_iterator, self, w)
  invoke_scan fuel next_scan self w = elim (Scandir.next K fuel self w) [
    | none ↦ none
    | some (ok e, self', w') ↦ some (ok (entry e), self', w')
    | some (raised e, self', w') ↦ some (raised e, self', w')
    | some (undefined, self', w') ↦ some (undefined, self', w')
  ]
  invoke_scan fuel close_scan self w =
      let (self', w') = Scandir.close K self w in some (ok no_value, self', w')
  invoke_scan fuel enter_scan self w = some (ok same_iterator, self, w)
  invoke_scan fuel exit_scan self w =
      let (self', w') = Scandir.close K self w in some (ok (is_handled false), self', w')

  -- A row of calls, where a program goes on behind an exception.
  unfoldable pub scan_session :
      ℕ
      → List ScanCall
      → ScandirIteratorWrapper
      → World
      → Option (List (Outcome ScanValue) × ScandirIteratorWrapper × World)
  scan_session fuel [] self w = some ([], self, w)
  scan_session fuel (call ∷ calls) self w = elim (invoke_scan fuel call self w) [
    | none ↦ none
    | some (a, self', w') ↦ elim (scan_session fuel calls self' w') [
      | none ↦ none
      | some (more, self'', w'') ↦ some (a ∷ more, self'', w'')
    ]
  ]

  -- A `with` block over the iterator, and then its destructor, which closes it too.
  unfoldable pub with_scan :
      ℕ
      → List ScanCall
      → ScandirIteratorWrapper
      → World
      → Option (List (Outcome ScanValue) × ScandirIteratorWrapper × World)
  unfolding scan_session invoke_scan
  with_scan fuel calls self w = elim (invoke_scan fuel enter_scan self w) [
    | none ↦ none
    | some (entered, self', w') ↦ elim (scan_session fuel calls self' w') [
      | none ↦ none
      | some (answers, self'', w'') ↦ elim (invoke_scan fuel exit_scan self'' w'') [
        | none ↦ none
        | some (left, self3, w3) ↦
            let (destroyed, w4) = Scandir.destroy K self3 w3 in some (answers, destroyed, w4)
      ]
    ]
  ]
