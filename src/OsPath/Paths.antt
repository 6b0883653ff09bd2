-- ===== src/OsPath/Paths.antt =====
-- The members of `OsPath` (src/OsPath.cpp) that work on the text of a path.
use py_capio.Base.{
  ◌≡◌, ◌⊎◌, refl, sym, ap, ◌∙◌, Bytes, true, false, ◌||◌, [], ◌∷◌, ◌++◌, is_empty, arith, ok,
  raised, filesystem_error, if◌then◌else◌,
}
use py_capio.FsPath.{slash, dot, contains, filename, is_absolute, append_path, before_filename}
use py_capio.FsPath.Extension.{stem-append-extension, is_empty-stem, extension-dot}
use py_capio.FsPath.Laws.{
  append_path_assoc, is_absolute-append_path, parent_path-append, filename-append,
  contains-filename, before_filename-append-filename, is_empty-append_path, append_path-component,
  is_empty-filename, before_filename-slash,
}
use py_capio.OsPath.{basename, abspath, splitext, isabs, split, join}

pub join-nil_left : (q : Bytes) → join [] q ≡ q
unfolding join
join-nil_left [] = refl
join-nil_left (c ∷ q) = refl

pub join-nil_right : (p : Bytes) → join p [] ≡ p
unfolding join
join-nil_right [] = refl
join-nil_right (c ∷ p) = refl

pub join-append_path :
    (p q : Bytes) → is_empty p ≡ false → is_empty q ≡ false → join p q ≡ append_path p q
unfolding join
join-append_path p q hp hq = ground arith

-- `join` is associative on all paths, absolute and empty ones included.
pub join_assoc : (p q r : Bytes) → join (join p q) r ≡ join p (join q r)
join_assoc [] q r = rw (join-nil_left q, join-nil_left (join q r))
join_assoc (a ∷ p) [] r = rw (join-nil_right (a ∷ p), join-nil_left r)
join_assoc (a ∷ p) (b ∷ q) [] = rw (join-nil_right (join (a ∷ p) (b ∷ q)), join-nil_right (b ∷ q))
join_assoc (a ∷ p) (b ∷ q) (c ∷ r) =
    let ab = is_empty-append_path (a ∷ p) (b ∷ q) refl refl in
    let bc = is_empty-append_path (b ∷ q) (c ∷ r) refl refl in
    ap (λ s. join s (c ∷ r)) (join-append_path (a ∷ p) (b ∷ q) refl refl)
    ∙ join-append_path (append_path (a ∷ p) (b ∷ q)) (c ∷ r) ab refl
    ∙ append_path_assoc (a ∷ p) (b ∷ q) (c ∷ r) refl refl refl
    ∙ sym (join-append_path (a ∷ p) (append_path (b ∷ q) (c ∷ r)) refl bc)
    ∙ ap (join (a ∷ p)) (sym (join-append_path (b ∷ q) (c ∷ r) refl refl))

-- A joined path is absolute exactly when one of its parts is.
pub isabs-join : (p q : Bytes) → isabs (join p q) ≡ (isabs p || isabs q)
unfolding isabs is_absolute
isabs-join [] q = rw (join-nil_left q)
isabs-join (a ∷ p) [] = rw (join-nil_right (a ∷ p)) (ground arith)
isabs-join (a ∷ p) (b ∷ q) =
    ap isabs (join-append_path (a ∷ p) (b ∷ q) refl refl)
    ∙ is_absolute-append_path (a ∷ p) (b ∷ q) refl

-- `split` takes a joined path apart again, where the first part does not end in a slash and is not
-- empty, and the second has no slash and is not empty.
pub split-join :
    (p f : Bytes)
    → is_empty (filename p) ≡ false
    → contains slash f ≡ false
    → is_empty f ≡ false
    → split (join p f) ≡ (p, f)
unfolding split
split-join p f hp hf he =
    let joined : join p f ≡ p ++ (slash ∷ f) =
      join-append_path p f (is_empty-filename p hp) he ∙ append_path-component p f hp hf in
    rw (joined, parent_path-append p f hf he hp, filename-append p f hf)

-- The root and the extension that `splitext` gives make up the base name; the root is empty only if
-- the base name is, and the extension is empty, or a dot with no further dot behind it.
pub splitext-basename :
    (p : Bytes)
    → let (root, ext) = splitext p in
      (root ++ ext ≡ basename p)
      × (is_empty root ≡ is_empty (basename p))
      × ((ext ≡ []) ⊎ ((e : Bytes) × (ext ≡ dot ∷ e) × (contains dot e ≡ false)))
unfolding splitext basename
splitext-basename p = (stem-append-extension p, is_empty-stem p, extension-dot p)

-- The base name holds no slash, and the path ends in it, right behind a slash or at its start.
pub basename-suffix :
    (p : Bytes)
    → (contains slash (basename p) ≡ false)
      × (h : Bytes) × (h ++ basename p ≡ p)
      × ((h ≡ []) ⊎ ((h' : Bytes) × (h ≡ h' ++ (slash ∷ []))))
unfolding basename
basename-suffix p = (
  contains-filename p,
  before_filename p,
  before_filename-append-filename p,
  before_filename-slash p,
)

isabs-is_empty : (p : Bytes) → isabs p ≡ true → is_empty p ≡ false
unfolding isabs is_absolute
isabs-is_empty [] h = cc
isabs-is_empty (c ∷ p) h = refl

abspath-join :
    (cwd path : Bytes)
    → is_empty cwd ≡ false
    → abspath cwd path ≡ (
        if is_empty path
        then raised filesystem_error
        else if isabs path
        then ok path
        else ok (join cwd path))
unfolding abspath isabs append_path
abspath-join cwd [] h = refl
abspath-join cwd (c ∷ path) h = ground (arith, join-append_path cwd (c ∷ path) h refl)

-- Where the current directory is absolute, `abspath` raises on the empty path, leaves an absolute
-- path as it is, dots and all, and joins any other to the current directory, which gives an
-- absolute path.
pub abspath-isabs :
    (cwd path : Bytes)
    → isabs cwd ≡ true
    → (abspath cwd path ≡ (
        if is_empty path
        then raised filesystem_error
        else if isabs path
        then ok path
        else ok (join cwd path)))
      × (isabs (join cwd path) ≡ true)
abspath-isabs cwd path h =
    (abspath-join cwd path (isabs-is_empty cwd h), isabs-join cwd path ∙ rw h)
