-- ===== src/Scandir/Tests.antt =====
-- Runs of the iterator over a directory in memory, and its theorems at concrete data.
use py_capio.Base.{c_str, ◌≡◌, refl, ℤ, pos, true, false, none, some, List, [], ◌∷◌, codes, ok}
use py_capio.Posix.{Dirent, libcapio_open, libcapio_readdir}
use py_capio.Posix.Sample.{Disk, memory, disk, getdents}
use py_capio.FsPath.{append_path, is_absolute, filename}
use py_capio.Scandir.{
  open_dir, entry_path, is_dir, is_file, is_symlink, ScandirIteratorWrapper, CapioDirEntry,
  new_entry, next, collect,
}
use py_capio.Scandir.Laws.{IsDirectory, IsReaddir}
use py_capio.Scandir.Listing.{IsBroken, collect_failing}

abbrev pub entries : Disk → List Dirent
entries w = w.entries

abbrev scan : ℤ → ScandirIteratorWrapper
scan fd = record { path = codes "/capio"; file_descriptor = fd; finished = false }

getdents-IsReaddir : (es : List Dirent) (w : Disk) → IsReaddir memory entries es (getdents es w)
getdents-IsReaddir [] w = (refl, refl)
getdents-IsReaddir (d ∷ ds) w = ((0, refl), refl, refl)

pub memory-IsDirectory : IsDirectory memory entries (pos 3)
memory-IsDirectory = record {
  skip_negative = λ n e. cc;
  served = λ w. getdents-IsReaddir w.entries w;
}

memory-IsBroken : IsBroken memory (pos 9)
memory-IsBroken = record { code = 0; reported = λ e. cc; failing = λ w. (refl, refl) }

entry : CapioDirEntry
entry = record { base_path = codes "/capio"; name = codes "f"; ino = 2; type = 8 }

collects :
    collect memory 4 4 [] (scan (pos 3)) disk
    ≡ some
        (ok (entry ∷ []), record (scan (pos 3)) { finished = true }, record disk { entries = [] })
unfolding collect next new_entry libcapio_readdir entry
collects = refl

collect_failing_example : collect memory 100 100 [] (scan (pos 9)) disk ≡ none
collect_failing_example = collect_failing memory 100 100 [] (scan (pos 9)) disk memory-IsBroken refl

describes :
    (entry_path entry ≡ codes "/capio/f")
    × (is_dir entry ≡ false)
    × (is_file entry ≡ true)
    × (is_symlink entry ≡ false)
unfolding entry entry_path append_path is_absolute filename is_dir is_file is_symlink
describes = (refl, refl, refl, refl)

opens : open_dir memory true (codes "/capio") disk ≡ (ok (scan (pos 3)), disk)
unfolding open_dir libcapio_open c_str
opens = refl
