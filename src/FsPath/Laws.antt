-- ===== src/FsPath/Laws.antt =====
-- Lemmas on the parts of a path, for the members of src/OsPath.cpp.
use py_capio.Base.{
  ℕ, ◌≡◌, ◌≢◌, refl, Bytes, true, false, ◌&&◌, ◌||◌, inl, inr, ◌⊎◌, [], ◌∷◌, ◌++◌, append_assoc,
  is_empty, ◌==◌, arith, Bool-cases,
}
use py_capio.FsPath.{
  slash, contains, filename, before_filename, strip_slashes, is_absolute, parent_path, append_path,
}

pub contains-append : (c : ℕ) (p q : Bytes) → contains c (p ++ q) ≡ (contains c p || contains c q)
contains-append c [] q = refl
contains-append c (x ∷ p) q = ground (arith, contains-append c p q)

-- A path is what stands before its file name, and the file name.
pub before_filename-append-filename : (p : Bytes) → before_filename p ++ filename p ≡ p
unfolding before_filename filename
before_filename-append-filename [] = refl
before_filename-append-filename (c ∷ p) = ground (arith, before_filename-append-filename p)

pub contains-filename : (p : Bytes) → contains slash (filename p) ≡ false
unfolding filename
contains-filename [] = refl
contains-filename (c ∷ p) = ground (arith, contains-filename p)

pub filename_no_slash : (f : Bytes) → contains slash f ≡ false → filename f ≡ f
unfolding filename
filename_no_slash [] h = refl
filename_no_slash (c ∷ f) h = ground arith

pub filename-append : (p f : Bytes) → contains slash f ≡ false → filename (p ++ (slash ∷ f)) ≡ f
unfolding filename
filename-append [] f h = filename_no_slash f h
filename-append (c ∷ p) f h =
    ground (arith, filename-append p f h, contains-append slash p (slash ∷ f))

pub before_filename-append :
    (p f : Bytes)
    → contains slash f ≡ false
    → before_filename (p ++ (slash ∷ f)) ≡ p ++ (slash ∷ [])
unfolding before_filename
before_filename-append [] [] h = refl
before_filename-append [] (c ∷ f) h = ground arith
before_filename-append (c ∷ p) f h =
    ground (arith, before_filename-append p f h, contains-append slash p (slash ∷ f))

-- A file name that is not empty ends in no slash, so nothing is stripped.
pub strip_slashes-filename : (p : Bytes) → is_empty (filename p) ≡ false → strip_slashes p ≡ p
unfolding filename strip_slashes
strip_slashes-filename [] h = refl
strip_slashes-filename (c ∷ []) h = ground arith
strip_slashes-filename (c ∷ d ∷ p) h =
    ground (arith, strip_slashes-filename (d ∷ p), filename_no_slash (d ∷ p))

pub strip_slashes-append_slash : (p : Bytes) → strip_slashes (p ++ (slash ∷ [])) ≡ strip_slashes p
unfolding strip_slashes
strip_slashes-append_slash [] = refl
strip_slashes-append_slash (c ∷ p) = ground (arith, strip_slashes-append_slash p)

pub is_empty-filename : (p : Bytes) → is_empty (filename p) ≡ false → is_empty p ≡ false
unfolding filename
is_empty-filename [] h = cc
is_empty-filename (c ∷ p) h = refl

is_empty-append : (p q : Bytes) → is_empty (p ++ q) ≡ (is_empty p && is_empty q)
is_empty-append [] q = refl
is_empty-append (x ∷ p) q = refl

is_empty-append_cons : (p : Bytes) (c : ℕ) (q : Bytes) → is_empty (p ++ (c ∷ q)) ≡ false
is_empty-append_cons [] c q = refl
is_empty-append_cons (x ∷ p) c q = refl

-- Whether a path ends in a slash is seen at its last part.
is_empty-filename-append :
    (p q : Bytes) → is_empty q ≡ false → is_empty (filename (p ++ q)) ≡ is_empty (filename q)
unfolding filename
is_empty-filename-append [] q h = refl
is_empty-filename-append (c ∷ p) q h = ground (
  arith,
  is_empty-filename-append p q h,
  contains-append slash p q,
  filename_no_slash q,
  is_empty-append p q,
)

-- A path with a last component `f` behind a slash has `p` for its parent.
pub parent_path-append :
    (p f : Bytes)
    → contains slash f ≡ false
    → is_empty f ≡ false
    → is_empty (filename p) ≡ false
    → parent_path (p ++ (slash ∷ f)) ≡ p
unfolding parent_path
parent_path-append p f h e n = ground (
  arith,
  strip_slashes-filename (p ++ (slash ∷ f)) (rw (filename-append p f h) e),
  before_filename-append p f h,
  strip_slashes-append_slash p,
  strip_slashes-filename p n,
  is_empty-filename p,
  is_empty-append_cons p slash f,
)

pub is_absolute-append : (p q : Bytes) → is_empty p ≡ false → is_absolute (p ++ q) ≡ is_absolute p
unfolding is_absolute
is_absolute-append [] q h = cc
is_absolute-append (c ∷ p) q h = refl

pub is_absolute-append_path :
    (p q : Bytes)
    → is_empty p ≡ false
    → is_absolute (append_path p q) ≡ (is_absolute p || is_absolute q)
unfolding append_path
is_absolute-append_path p q h =
    ground (arith, is_absolute-append p q h, is_absolute-append p (slash ∷ q) h)

filename-slash : (q : Bytes) → filename (slash ∷ q) ≡ filename q
unfolding filename
filename-slash q = refl

pub append_path_assoc :
    (p q r : Bytes)
    → is_empty p ≡ false
    → is_empty q ≡ false
    → is_empty r ≡ false
    → append_path (append_path p q) r ≡ append_path p (append_path q r)
unfolding append_path
append_path_assoc p q r hp hq hr = ground (
  arith,
  is_empty-filename-append p q hq,
  is_empty-filename-append p (slash ∷ q) refl,
  filename-slash q,
  is_absolute-append q r hq,
  is_absolute-append q (slash ∷ r) hq,
  append_assoc p q r,
  append_assoc p q (slash ∷ r),
  append_assoc p (slash ∷ q) r,
  append_assoc p (slash ∷ q) (slash ∷ r),
)

pub is_empty-append_path :
    (p q : Bytes) → is_empty p ≡ false → is_empty q ≡ false → is_empty (append_path p q) ≡ false
unfolding append_path
is_empty-append_path p q hp hq = ground (arith, is_empty-append p q, is_empty-append_cons p slash q)

pub append_path-component :
    (p f : Bytes)
    → is_empty (filename p) ≡ false
    → contains slash f ≡ false
    → append_path p f ≡ p ++ (slash ∷ f)
unfolding append_path is_absolute
append_path-component p [] hp hf = ground arith
append_path-component p (c ∷ f) hp hf = ground arith

pub before_filename_none : (p : Bytes) → contains slash p ≡ false → before_filename p ≡ []
unfolding before_filename
before_filename_none [] h = refl
before_filename_none (c ∷ p) h = ground arith

pub contains-before_filename : (p : Bytes) → contains slash p ≡ true → before_filename p ≢ []
unfolding before_filename
contains-before_filename [] h = cc
contains-before_filename (c ∷ p) h = ground arith

-- What stands before a file name is empty or ends in a slash.
pub before_filename-slash :
    (p : Bytes) → (before_filename p ≡ []) ⊎ ((h : Bytes) × (before_filename p ≡ h ++ (slash ∷ [])))
unfolding before_filename
before_filename-slash [] = inl refl
before_filename-slash (c ∷ p) = elim (Bool-cases (contains slash p)) [
  | inl y ↦ elim (before_filename-slash p) [
    | inl e ↦ absurd (contains-before_filename p y e)
    | inr (h, e) ↦ inr (c ∷ h, ground arith)
  ]
  | inr n ↦ elim (Bool-cases (c == slash)) [
    | inl y ↦ inr ([], ground (arith, before_filename_none p n))
    | inr m ↦ inl (ground arith)
  ]
]
