-- ===== src/OsPath/Tests.antt =====
-- The theorems on paths at concrete data.
use py_capio.Base.{
  c_str, negsuc, bytes_eq, ◌≡◌, ◌⊎◌, is_empty, true, false, refl, [], codes, ok, raised,
  filesystem_error,
}
use py_capio.Posix.Sample.{memory, disk}
use py_capio.FsPath.{
  slash, contains, filename, is_absolute, parent_path, strip_slashes, before_filename,
}
use py_capio.OsPath.{
  exists, dirname, normcase, realpath, isfile, isdir, getsize, isabs, split, join,
}
use py_capio.OsPath.Splitting.{join-split}
use py_capio.OsPath.{normpath}
use py_capio.OsPath.Files.{Filesystem, getmtime}
use py_capio.OsPath.Normal.{destination, IsTidied, normpath_twice}
use py_capio.FsPath.Normal.{
  lexically_normal, pieces, joined, step, walk, ends_open, climbs, spill, normal_pieces,
}
use py_capio.OsPath.Queries.{Answers, answers, status, queries-answers}

-- Repeated slashes are gone, and the path leads to the same place.
join-split_example :
    let (head, name) = split (codes "/data//log.txt") in
    (destination (join head name) ≡ destination (codes "/data//log.txt"))
    × (isabs (join head name) ≡ true)
    × (contains slash name ≡ false)
    × ((is_empty (filename head) ≡ false) ⊎ (strip_slashes head ≡ []))
unfolding isabs is_absolute
join-split_example = join-split (codes "/data//log.txt")

queries-answers_example :
    let q : Answers = (
      (exists memory (codes "gone") disk).0,
      (isfile memory (codes "gone") disk).0,
      (isdir memory (codes "gone") disk).0,
      (getsize memory (codes "gone") disk).0,
    ) in
    q ≡ answers (status memory (codes "gone") disk)
unfolding c_str
queries-answers_example = queries-answers memory (codes "gone") disk

names : (dirname (codes "/d/x") ≡ codes "/d") × (normcase (codes "/D/x") ≡ codes "/D/x")
unfolding dirname parent_path strip_slashes before_filename normcase
names = (refl, refl)

catches : realpath (λ p. raised filesystem_error) (codes "/d") ≡ ok []
unfolding realpath
catches = refl

-- The root has nothing above it, a path to the left of its start goes up, and a last slash is kept.
normal_forms :
    (normpath (codes "/a/./b/../../..//c/..") ≡ codes "/")
    × (normpath (codes "a/../../b//./c/..") ≡ codes "../b/")
    × (normpath (codes "../a/..") ≡ codes "..")
    × (normpath (codes "./") ≡ codes ".")
    × (normpath (codes "//") ≡ codes "//")
unfolding normpath lexically_normal pieces joined step walk ends_open climbs spill normal_pieces
    is_absolute strip_slashes
normal_forms = (refl, refl, refl, refl, refl)

normpath_twice_example :
    (normpath (normpath (codes "a/..//../b/")) ≡ normpath (codes "a/..//../b/"))
    × (isabs (normpath (codes "a/..//../b/")) ≡ isabs (codes "a/..//../b/"))
    × (destination (normpath (codes "a/..//../b/")) ≡ destination (codes "a/..//../b/"))
    × (((strip_slashes (codes "a/..//../b/") ≡ [])
          × (normpath (codes "a/..//../b/") ≡ codes "a/..//../b/"))
        ⊎ IsTidied (codes "a/..//../b/"))
normpath_twice_example = normpath_twice (codes "a/..//../b/")

-- 2024-03-01, which the file clock counts from 2174 backwards.
abbrev clock : Filesystem Unit
clock = record {
  relative = λ path start w. (ok path, w);
  last_write_time = λ path w. (ok (negsuc 4728412799999999999), w);
  equivalent = λ p1 p2 w. (ok (bytes_eq p1 p2), w);
}

modified : getmtime clock (codes "f") tt ≡ (ok (negsuc 4728412799), tt)
unfolding getmtime
modified = refl
