-- ===== src/FsPath.antt =====
-- `std::filesystem::path` of libstdc++ on POSIX, the members that src/OsPath.cpp and
-- src/ScandirIteratorWrapper.cpp call: a path is its text, and '/' separates.
pub mod Laws
pub mod Extension
pub mod Normal
use py_capio.Base.{
  ℕ, suc, Bytes, Bool, true, false, ◌&&◌, ◌||◌, not, Option, none, some, [], ◌∷◌, ◌++◌, take, drop,
  is_empty, bytes_eq, ◌==◌, if◌then◌else◌,
}

abbrev pub slash : ℕ
slash = b'/'

abbrev pub dot : ℕ
dot = b'.'

abbrev pub contains : ℕ → Bytes → Bool
contains c [] = false
contains c (x ∷ s) = x == c || contains c s

-- The text behind the last slash, and the text up to and with it.
unfoldable pub filename : Bytes → Bytes
filename [] = []
filename (c ∷ s) = if contains slash (c ∷ s) then filename s else c ∷ s

unfoldable pub before_filename : Bytes → Bytes
before_filename [] = []
before_filename (c ∷ s) = if contains slash (c ∷ s) then c ∷ before_filename s else []

-- Without the slashes at its end
unfoldable pub strip_slashes : Bytes → Bytes
strip_slashes [] = []
strip_slashes (c ∷ s) = let r = strip_slashes s in if c == slash && is_empty r then [] else c ∷ r

-- `p.is_absolute()`
unfoldable pub is_absolute : Bytes → Bool
is_absolute [] = false
is_absolute (c ∷ s) = c == slash

-- `p.parent_path()`: a path of slashes alone is its own parent; that of "/a" is "/".
unfoldable pub parent_path : Bytes → Bytes
parent_path p =
    let head = strip_slashes (before_filename p) in
    if is_empty (strip_slashes p)
    then p
    else if is_empty head && contains slash p
    then slash ∷ []
    else head

-- `p / q`
unfoldable pub append_path : Bytes → Bytes → Bytes
append_path p q =
    if is_absolute q then q else if is_empty (filename p) then p ++ q else p ++ (slash ∷ q)

-- `f.rfind(c)`
unfoldable pub rfind : ℕ → Bytes → Option ℕ
rfind c [] = none
rfind c (x ∷ s) = elim (rfind c s) [
  | some i ↦ some (suc i)
  | none ↦ if x == c then some 0 else none
]

-- Where the extension of a file name begins: at its last dot, but not at its first byte, and not
-- in "..".
unfoldable pub extension_start : Bytes → Option ℕ
extension_start f =
    if bytes_eq f (dot ∷ dot ∷ [])
    then none
    else elim (rfind dot f) [ none ↦ none | some i ↦ if i == 0 then none else some i ]

-- `p.stem()` and `p.extension()`
unfoldable pub stem : Bytes → Bytes
stem p = elim (extension_start (filename p)) [ none ↦ filename p | some i ↦ take i (filename p) ]

unfoldable pub extension : Bytes → Bytes
extension p = elim (extension_start (filename p)) [ none ↦ [] | some i ↦ drop i (filename p) ]
